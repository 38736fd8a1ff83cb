-- ===== src/Client/SubMap/Removal.antt =====
-- Del of subMap on filters with the wildcard `+`.
use mqttie.Prelude.{ℕ, ◌≡◌, refl, List, [], ◌∷◌, ◌++◌}
use mqttie.Client.SubMap.{
  empty, lookup, insert, delete, pieces, add_pieces, add, del_pieces, del, size,
}
use mqttie.Client.SubMap.Keys.{bytes_eq_refl}
use mqttie.Client.SubMap.Lookup.{Without, pieces-Without}

pieces-plus :
    (front rest : List ℕ)
    → Without b'+' front
    → Without b'+' rest
    → pieces (front ++ b'+' ∷ rest) ≡ ((front ++ b'+' ∷ []) ∷ [], rest)
unfolding pieces
pieces-plus [] rest h k = rw (pieces-Without rest k) refl
pieces-plus (x ∷ front) rest h k = rw (h.0, pieces-plus front rest h.1 k) refl

-- Del of a filter with one wildcard `+` also removes the only subscription there is, where that has the
-- same text up to the wildcard and any other text after it.
pub del-other_filter :
    (front mine other : List ℕ) (c : ℕ)
    → Without b'+' front
    → Without b'+' mine
    → Without b'+' other
    → del (front ++ b'+' ∷ other) (add (front ++ b'+' ∷ mine) c empty) ≡ empty
unfolding del del_pieces add add_pieces insert lookup delete size
del-other_filter front mine other c h k l =
    rw (pieces-plus front mine h k, pieces-plus front other h l)
      (rw (del_pieces, bytes_eq_refl (front ++ b'+' ∷ []))
        (rw (bytes_eq_refl (front ++ b'+' ∷ [])) refl))
