-- ===== src/Client/SubMap/Lookup.antt =====
-- Get on the topics that were added as they are.
use mqttie.Prelude.{ℕ, zero, suc, ◌<◌, ◌≡◌, refl, List, [], ◌∷◌, false, Option, some, arith, none}
use mqttie.Prelude.{◌==◌, All}
use mqttie.Go.Outcome.{Outcome, ok}
use mqttie.Client.SubMap.{
  SubMap, empty, entry, chan, insert, pieces, add_pieces, add, get_fuel, get, depth, scan, stops,
  lookup,
}
use mqttie.Client.SubMap.Keys.{bytes_eq_refl, lookup-insert}

-- A text without the byte.
abbrev pub Without : ℕ → List ℕ → Type 0
Without ch = All (λ x. (x == ch) ≡ false)

pub pieces-Without : (topic : List ℕ) → Without b'+' topic → pieces topic ≡ ([], topic)
unfolding pieces
pieces-Without [] h = refl
pieces-Without (x ∷ topic) h = rw (h.0, pieces-Without topic h.1)

pub depth-pos : (s : SubMap) → 0 < depth s
unfolding depth
depth-pos empty = omega arith
depth-pos (entry k v s) = omega (arith, depth-pos s)

-- A topic filter without wildcard `+` is found again under its own text, whatever else the map holds.
pub get-add_topic :
    (topic : List ℕ) (c : ℕ) (s : SubMap)
    → Without b'+' topic
    → get topic (add topic c s) ≡ ok (some c)
unfolding get get_fuel add add_pieces
get-add_topic topic c s h =
    rw (pieces-Without topic h) (found (depth (insert topic (chan c) s)) (depth-pos _))
  where
    found : (fuel : ℕ) → 0 < fuel → get_fuel fuel (insert topic (chan c) s) topic ≡ ok (some c)
    found zero p = elim p [ ]
    found (suc fuel) p = rw (lookup-insert topic topic (chan c) s, bytes_eq_refl) refl

-- Without a subscription nothing is found.
scan_empty :
    (inner : SubMap → List ℕ → Outcome (Option ℕ)) (xs : List (List ℕ × List ℕ))
    → scan inner empty xs ≡ ok none
unfolding scan lookup
scan_empty inner [] = refl
scan_empty inner ((front, rest) ∷ xs) = scan_empty inner xs

pub get_empty : (topic : List ℕ) → get topic empty ≡ ok none
unfolding get get_fuel depth lookup
get_empty topic = scan_empty _ (stops topic)
