-- ===== src/Client/SubMap/Depth.antt =====
-- The depth of the map is fuel enough for Get.
use mqttie.Prelude.{
  ℕ, zero, suc, ◌≤◌, ◌<◌, ◌≡◌, List, [], ◌∷◌, ◌++◌, Option, none, some, arith, length,
}
use mqttie.Prelude.{leb, Bool-cases, Option-cases, inl, inr}
use mqttie.Go.Outcome.{Outcome, ok, err, panic, stuck, ◌>>=◌}
use mqttie.Packets.Connect.Read.Properties.{bytes_eq}
use mqttie.Client.SubMap.Lookup.{depth-pos}
use mqttie.Client.SubMap.{
  SubMap, empty, entry, chan, sub, lookup, depth, as_chan, as_sub, scope, from_slash, scan, or_else,
  stops, get_fuel, get,
}

-- The outcome is a result or a panic: no loop ran out of rounds.
abbrev pub Settled : Outcome (Option ℕ) → Type 0
Settled (ok c) = Unit {0}
Settled (err e) = Unit {0}
Settled panic = Unit {0}
Settled stuck = ⊥

-- A map that is found in another one is less deep.
depth-as_sub : (key : List ℕ) (s m : SubMap) → as_sub (lookup key s) ≡ some m → depth m < depth s
unfolding lookup depth
depth-as_sub key empty m e = cc
depth-as_sub key (entry k (chan c) s) m e = elim (Bool-cases (bytes_eq k key)) [
  | inl same ↦ cc (rw same at e)
  | inr other ↦ omega (arith, depth-as_sub key s m (rw other at e))
]
depth-as_sub key (entry k (sub n) s) m e = elim (Bool-cases (bytes_eq k key)) [
  | inl same ↦ let found : n ≡ m = cc (rw same at e) in rw (← found) (omega arith)
  | inr other ↦ omega (arith, depth-as_sub key s m (rw other at e))
]

or_else-Settled :
    (found : Option ℕ) (r : Outcome (Option ℕ)) → Settled r → Settled (or_else found r)
or_else-Settled none r h = h
or_else-Settled (some c) r h = tt

bind-Settled :
    (r next : Outcome (Option ℕ))
    → Settled r
    → Settled next
    → Settled (r >>= λ found. or_else found next)
bind-Settled (ok found) next hr hn = or_else-Settled found next hn
bind-Settled (err x) next hr hn = tt
bind-Settled panic next hr hn = tt
bind-Settled stuck next hr hn = elim hr [ ]

-- The slice is a text or a panic, and the map below is searched with it.
scope-Settled :
    (f : List ℕ → Outcome (Option ℕ)) (front rest : List ℕ)
    → ((tail : List ℕ) → Settled (f tail))
    → Settled (scope front rest >>= f)
unfolding scope
scope-Settled f front rest h = elim (Option-cases (from_slash rest)) [
  | inl e ↦ elim (Bool-cases (leb 1 (length front))) [
    | inl inside ↦ rw (scope, e, inside) (h _)
    | inr outside ↦ rw (scope, e, outside) tt
  ]
  | inr (tail, e) ↦ rw (scope, e) (h tail)
]

scan-Settled :
    (inner : SubMap → List ℕ → Outcome (Option ℕ)) (s : SubMap) (ss : List (List ℕ × List ℕ))
    → ((m : SubMap) (tail : List ℕ) → depth m < depth s → Settled (inner m tail))
    → Settled (scan inner s ss)
unfolding scan
scan-Settled inner s [] h = tt
scan-Settled inner s ((front, rest) ∷ ss) h =
    elim (Option-cases (as_chan (lookup (front ++ b'#' ∷ []) s))) [
      | inl no_chan ↦ elim (Option-cases (as_sub (lookup (front ++ b'+' ∷ []) s))) [
        | inl no_sub ↦ rw (scan, no_chan, no_sub) (scan-Settled inner s ss h)
        | inr (m, e) ↦
            rw (scan, no_chan, e)
              (scope-Settled _ front rest λ tail.
                bind-Settled (inner m tail) _ (h m tail (depth-as_sub _ s m e))
                  (scan-Settled inner s ss h))
      ]
      | inr (c, e) ↦ rw (scan, e) tt
    ]

get_fuel-Settled :
    (fuel : ℕ) (s : SubMap) (topic : List ℕ) → depth s ≤ fuel → Settled (get_fuel fuel s topic)
unfolding get_fuel
get_fuel-Settled zero s topic h = absurd (omega (arith, depth-pos s))
get_fuel-Settled (suc fuel) s topic h = or_else-Settled (as_chan (lookup topic s)) _ (
    scan-Settled (get_fuel fuel) s (stops topic)
      λ m tail less. get_fuel-Settled fuel m tail (omega arith))

-- On every map and topic Get returns or panics: the calls on the maps below come to an end.
pub get-Settled : (topic : List ℕ) (s : SubMap) → Settled (get topic s)
unfolding get
get-Settled topic s = get_fuel-Settled (depth s) s topic (omega arith)
