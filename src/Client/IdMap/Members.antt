-- ===== src/Client/IdMap/Members.antt =====
-- A property of all entries of a map.
use mqttie.Prelude.{ℕ, ◌≡◌, List, [], ◌∷◌, some, Bool-cases, inl, inr, ==_iff, ◌==◌, All}
use mqttie.Client.IdMap.{lookup, insert, delete}

module _ {V : Type 0} (P : ℕ × V → Type 0) where
  pub All-delete : (id : ℕ) (entries : List (ℕ × V)) → All P entries → All P (delete id entries)
  unfolding delete
  All-delete id [] h = tt
  All-delete id ((other, value) ∷ entries) h = elim (Bool-cases (other == id)) [
    | inl same ↦ rw same (All-delete id entries h.1)
    | inr more ↦ rw more (h.0, All-delete id entries h.1)
  ]

  pub All-insert :
      (id : ℕ) (value : V) (entries : List (ℕ × V))
      → P (id, value)
      → All P entries
      → All P (insert id value entries)
  unfolding insert
  All-insert id value entries p h = (p, All-delete id entries h)

  -- An entry that is found has the property.
  pub All-lookup :
      (id : ℕ) (value : V) (entries : List (ℕ × V))
      → lookup id entries ≡ some value
      → All P entries
      → P (id, value)
  unfolding lookup
  All-lookup id value [] e h = cc
  All-lookup id value ((other, w) ∷ entries) e h = elim (Bool-cases (other == id)) [
    | inl same ↦
        let key : other ≡ id = (==_iff other id).0 same in
        let found : w ≡ value = cc (rw same at e) in rw (← key, ← found) h.0
    | inr more ↦ All-lookup id value entries (rw more at e) h.1
  ]
