-- ===== src/Client/IdMap.antt =====
-- A Go map with uint16 keys, as the list of its entries.
pub mod Members
use mqttie.Prelude.{
  ℕ, ◌≡◌, List, [], ◌∷◌, Option, none, some, Bool, true, false, arith, ◌==◌, if◌then◌else◌,
}

module _ {ℓ} {V : Type ℓ} where
  -- value, ok := entries[id]
  unfoldable pub lookup : (id : ℕ) (entries : List (ℕ × V)) → Option V
  lookup id [] = none
  lookup id ((other, value) ∷ entries) = if other == id then some value else lookup id entries

  -- delete(entries, id)
  unfoldable pub delete : (id : ℕ) (entries : List (ℕ × V)) → List (ℕ × V)
  delete id [] = []
  delete id ((other, value) ∷ entries) =
      let rest = delete id entries in if other == id then rest else (other, value) ∷ rest

  -- entries[id] = value: the new entry replaces the one with its identifier.
  unfoldable pub insert : (id : ℕ) (value : V) (entries : List (ℕ × V)) → List (ℕ × V)
  insert id value entries = (id, value) ∷ delete id entries

  pub lookup-delete :
      (id asked : ℕ) (entries : List (ℕ × V))
      → lookup asked (delete id entries) ≡ (if id == asked then none else lookup asked entries)
  unfolding lookup delete
  lookup-delete id asked [] = ground arith
  lookup-delete id asked ((other, value) ∷ entries) = ground (arith, lookup-delete id asked entries)

  pub lookup-insert :
      (id asked : ℕ) (value : V) (entries : List (ℕ × V))
      → lookup asked (insert id value entries)
        ≡ (if id == asked then some value else lookup asked entries)
  unfolding lookup insert
  lookup-insert id asked value entries = ground (arith, lookup-delete id asked entries)

  -- if _, ok := entries[id]; ok
  abbrev pub is_some : Option V → Bool
  is_some none = false
  is_some (some value) = true
