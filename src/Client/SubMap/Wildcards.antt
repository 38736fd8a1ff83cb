-- ===== src/Client/SubMap/Wildcards.antt =====
-- Get on a topic that only a filter with the wildcard `+` covers.
use mqttie.Prelude.{ℕ, ◌≡◌, refl, List, [], ◌∷◌, none}
use mqttie.Prelude.{Bool-cases, inl, inr}
use mqttie.Go.Outcome.{panic}
use mqttie.Packets.Connect.Read.Properties.{bytes_eq}
use mqttie.Client.SubMap.{
  SubMap, empty, lookup, insert, pieces, add_pieces, add, get_fuel, get, depth,
}
use mqttie.Client.SubMap.{stops, later_stops, scan, scope, from_slash}
use mqttie.Client.SubMap.Lookup.{Without}

later_stops-Without : (topic : List ℕ) → Without b'/' topic → later_stops topic ≡ []
unfolding later_stops
later_stops-Without [] h = refl
later_stops-Without (x ∷ topic) h = rw (h.0, later_stops-Without topic h.1)

from_slash-Without : (topic : List ℕ) → Without b'/' topic → from_slash topic ≡ none
unfolding from_slash
from_slash-Without [] h = refl
from_slash-Without (x ∷ topic) h = rw (h.0) (from_slash-Without topic h.1)

-- The index of a slash that is not there, at the start of the topic.
scope_start : (topic : List ℕ) → Without b'/' topic → scope [] topic ≡ panic
unfolding scope
scope_start topic h = rw (scope, from_slash-Without topic h)

-- A subscription to `+`, and nothing else.
abbrev pub plus_only : ℕ → SubMap
plus_only c = add (b'+' ∷ []) c empty

-- With a subscription to `+` the lookup of a topic with one level, which `+` covers, panics: the slice
-- `topic[i+j:]` begins at -1.
pub get-plus_panic : (topic : List ℕ) (c : ℕ) → Without b'/' topic → get topic (plus_only c) ≡ panic
unfolding get get_fuel depth add add_pieces pieces insert lookup stops scan bytes_eq
get-plus_panic topic c h = elim (Bool-cases (bytes_eq (b'+' ∷ []) topic)) [
  | inl same ↦ rw (same, scan, scope_start topic h)
  | inr other ↦ rw (other, scan, scope_start topic h)
]
