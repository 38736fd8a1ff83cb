-- ===== src/Client/SubMap/Keys.antt =====
-- Equality of keys, and what the map operations do to one entry.
use mqttie.Prelude.{ℕ, ◌≡◌, ◌≢◌, refl, List, [], ◌∷◌, Bool, true, false, some, arith, ◌∙◌}
use mqttie.Prelude.{if◌then◌else◌, Bool-cases, inl, inr}
use mqttie.Packets.Connect.Read.Properties.{bytes_eq}
use mqttie.Client.SubMap.{SubMap, empty, entry, Value, lookup, insert}

pub bytes_eq_refl : (xs : List ℕ) → bytes_eq xs xs ≡ true
unfolding bytes_eq
bytes_eq_refl [] = refl
bytes_eq_refl (x ∷ xs) = ground (arith, bytes_eq_refl xs)

pub bytes_eq→eq : (xs ys : List ℕ) → bytes_eq xs ys ≡ true → xs ≡ ys
unfolding bytes_eq
bytes_eq→eq [] [] h = refl
bytes_eq→eq [] (y ∷ ys) h = cc
bytes_eq→eq (x ∷ xs) [] h = cc
bytes_eq→eq (x ∷ xs) (y ∷ ys) h = ground (arith, bytes_eq→eq xs ys)

pub ne→bytes_eq : (xs ys : List ℕ) → xs ≢ ys → bytes_eq xs ys ≡ false
ne→bytes_eq xs ys n = elim (Bool-cases (bytes_eq xs ys)) [
  | inl e ↦ absurd (n (bytes_eq→eq xs ys e))
  | inr e ↦ e
]

-- A write is read back under its key, and under no other.
pub lookup-insert :
    (k j : List ℕ) (v : Value) (s : SubMap)
    → lookup j (insert k v s) ≡ (if bytes_eq k j then some v else lookup j s)
unfolding lookup insert
lookup-insert k j v empty = refl
lookup-insert k j v (entry i w s) = elim (Bool-cases (bytes_eq i k)) [
  | inl same ↦ rw (same, bytes_eq→eq i k same) (nested (bytes_eq k j))
  | inr other ↦ elim (Bool-cases (bytes_eq k j)) [
    | inl hit ↦ rw (other, hit, ← bytes_eq→eq k j hit, other) (lookup-insert k j v s ∙ rw hit)
    | inr miss ↦ rw (other, lookup-insert k j v s, miss)
  ]
]
  where
    nested :
        (b : Bool)
        → (if b then some v else lookup j s)
          ≡ (if b then some v else if b then some w else lookup j s)
    nested true = refl
    nested false = refl
