-- ===== src/Client/PacketId/Total.antt =====
-- aquirePacketID finds an identifier as long as fewer than 65535 are in use.
use mqttie.Prelude.{
  ℕ, zero, suc, ◌+◌, ◌-◌, ◌%◌, ◌^◌, ◌≤◌, ◌<◌, ◌≡◌, ◌≢◌, ◌⊎◌, refl, List, [], ◌∷◌, ◌++◌, Bool, true,
  false, ◌||◌, arith,
}
use mqttie.Prelude.{length, length-append, Bool-cases, inl, inr, ◌==◌, if◌then◌else◌}
use mqttie.Go.Outcome.{ok, panic}
use mqttie.Client.IdMap.{lookup, is_some}
use mqttie.Client.PacketMap
use mqttie.Client.PacketMap.{PacketMap}
use mqttie.Client.PacketChanMap
use mqttie.Client.PacketChanMap.{PacketChanMap}
use mqttie.Client.PacketId.{in_use, attempts, aquire_packet_id}

contains : List ℕ → ℕ → Bool
contains [] a = false
contains (x ∷ xs) a = x == a || contains xs a

-- The list without the first occurrence of `a`.
remove : ℕ → List ℕ → List ℕ
remove a [] = []
remove a (x ∷ xs) = if x == a then xs else x ∷ remove a xs

length-remove :
    (a : ℕ) (xs : List ℕ) → contains xs a ≡ true → suc (length (remove a xs)) ≡ length xs
unfolding contains remove
length-remove a [] h = cc
length-remove a (x ∷ xs) h = ground (arith, length-remove a xs)

contains-remove :
    (a b : ℕ) (xs : List ℕ) → b ≢ a → contains xs b ≡ true → contains (remove a xs) b ≡ true
unfolding contains remove
contains-remove a b [] n h = h
contains-remove a b (x ∷ xs) n h = ground (arith, contains-remove a b xs n)

-- Distinct members of a list are not more than its length.
pigeonhole :
    (k : ℕ) (f : ℕ → ℕ) (xs : List ℕ)
    → ((i j : ℕ) → i < j → j < k → f i ≢ f j)
    → ((i : ℕ) → i < k → contains xs (f i) ≡ true)
    → k ≤ length xs
pigeonhole zero f xs distinct inside = omega arith
pigeonhole (suc k) f xs distinct inside = omega (
  arith,
  pigeonhole k f (remove (f k) xs) (λ i j p q. distinct i j p (omega arith))
      (λ i p.
        contains-remove (f k) (f i) xs (distinct i k p (omega arith)) (inside i (omega arith))),
  length-remove (f k) xs (inside k (omega arith)),
)

-- The loop returns an identifier or panics.
pub attempts-cases :
    (used : ℕ → Bool) (rounds counter : ℕ)
    → ((id : ℕ) × ((attempts used rounds counter).0 ≡ ok id))
      ⊎ ((attempts used rounds counter).0 ≡ panic)
unfolding attempts
attempts-cases used zero counter = inr refl
attempts-cases used (suc rounds) counter =
    elim (Bool-cases (used ((counter + 1) % 2 ^ 32 % 2 ^ 16))) [
      | inl taken ↦ rw taken (attempts-cases used rounds ((counter + 1) % 2 ^ 32))
      | inr unused ↦ rw unused (inl (_, refl))
    ]

-- Where it panics, it has seen every candidate in use.
attempts_panic :
    (used : ℕ → Bool) (rounds counter : ℕ)
    → (attempts used rounds counter).0 ≡ panic
    → (i : ℕ) → i < rounds
    → used ((counter + 1 + i) % 2 ^ 16) ≡ true
unfolding attempts
attempts_panic used zero counter h i lt = elim lt [ ]
attempts_panic used (suc rounds) counter h i lt =
    elim (Bool-cases (used ((counter + 1) % 2 ^ 32 % 2 ^ 16))) [
      | inl taken ↦
          later i lt taken (attempts_panic used rounds ((counter + 1) % 2 ^ 32) (rw taken at h))
      | inr unused ↦ absurd (ended (rw unused at h))
    ]
  where
    ended : ok ((counter + 1) % 2 ^ 32 % 2 ^ 16) ≡ panic → ⊥
    ended e = cc

    later :
        (i : ℕ)
        → i < suc rounds
        → used ((counter + 1) % 2 ^ 32 % 2 ^ 16) ≡ true
        → ((j : ℕ) → j < rounds → used (((counter + 1) % 2 ^ 32 + 1 + j) % 2 ^ 16) ≡ true)
        → used ((counter + 1 + i) % 2 ^ 16) ≡ true
    later zero lt taken ih =
        let e : (counter + 1 + 0) % 2 ^ 16 ≡ (counter + 1) % 2 ^ 32 % 2 ^ 16 = omega arith in
        rw e taken
    later (suc i) lt taken ih =
        let e : (counter + 1 + suc i) % 2 ^ 16 ≡ ((counter + 1) % 2 ^ 32 + 1 + i) % 2 ^ 16 =
          omega arith in
        rw e (ih i (omega arith))

keys {ℓ} : {V : Type ℓ} → List (ℕ × V) → List ℕ
keys [] = []
keys ((k, v) ∷ m) = k ∷ keys m

length-keys {ℓ} : {V : Type ℓ} (m : List (ℕ × V)) → length (keys m) ≡ length m
unfolding keys
length-keys [] = refl
length-keys ((k, v) ∷ m) = omega (arith, length-keys m)

contains-append :
    (xs ys : List ℕ) (a : ℕ) → contains (xs ++ ys) a ≡ (contains xs a || contains ys a)
unfolding contains
contains-append [] ys a = refl
contains-append (x ∷ xs) ys a = ground (arith, contains-append xs ys a)

lookup-contains {ℓ} :
    {V : Type ℓ} (k : ℕ) (m : List (ℕ × V))
    → is_some (lookup k m) ≡ true
    → contains (keys m) k ≡ true
unfolding lookup contains keys
lookup-contains k [] h = h
lookup-contains k ((j, v) ∷ m) h = elim (Bool-cases (j == k)) [
  | inl same ↦ rw same refl
  | inr other ↦ rw other (lookup-contains k m (rw other at h))
]

in_use-contains :
    (pending : PacketMap) (acks : PacketChanMap) (id : ℕ)
    → in_use pending acks id ≡ true
    → contains (keys pending.packets ++ keys acks.chans) id ≡ true
unfolding in_use PacketMap.get PacketChanMap.get
in_use-contains pending acks id h =
    rw (contains-append (keys pending.packets) (keys acks.chans) id)
      (ground (arith, lookup-contains id pending.packets, lookup-contains id acks.chans))

-- As long as the two maps have fewer than 65535 entries together, aquirePacketID returns an
-- identifier, and does not panic.
pub aquire_packet_id_total :
    (pending : PacketMap) (acks : PacketChanMap) (counter : ℕ)
    → length pending.packets + length acks.chans < 2 ^ 16 - 1
    → (id : ℕ) × ((aquire_packet_id pending acks counter).0 ≡ ok id)
unfolding aquire_packet_id
aquire_packet_id_total pending acks counter room =
    elim (attempts-cases (in_use pending acks) (2 ^ 16 - 1) counter) [
      | inl found ↦ found
      | inr failed ↦ absurd (full failed)
    ]
  where
    entries : List ℕ
    entries = keys pending.packets ++ keys acks.chans

    full : (attempts (in_use pending acks) (2 ^ 16 - 1) counter).0 ≡ panic → ⊥
    full failed =
        let many : 2 ^ 16 - 1 ≤ length entries =
          pigeonhole (2 ^ 16 - 1) (λ i. (counter + 1 + i) % 2 ^ 16) entries
            (λ i j p q e. omega arith)
            (λ i p.
              in_use-contains pending acks ((counter + 1 + i) % 2 ^ 16)
                (attempts_panic (in_use pending acks) (2 ^ 16 - 1) counter failed i p)) in
        omega (
          arith,
          many,
          length-append (keys pending.packets) (keys acks.chans),
          length-keys pending.packets,
          length-keys acks.chans,
        )
