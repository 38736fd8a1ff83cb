-- ===== src/Client/SubMap.antt =====
-- subMap of client/utils.go: the subscriptions of the client, a map of maps. A topic filter is cut
-- behind each `+`, and the pieces are the keys of nested maps.
pub mod Keys
pub mod Lookup
pub mod Wildcards
pub mod Removal
pub mod Depth
use mqttie.Prelude.{
  ℕ, zero, suc, ◌+◌, ◌-◌, ◌≤◌, List, [], ◌∷◌, ◌++◌, Option, none, some, Bool, true, false,
}
use mqttie.Prelude.{◌==◌, leb, if◌then◌else◌, length, drop}
use Prim.Native.Nat.{max}
use mqttie.Go.Outcome.{Outcome, ok, panic, stuck, ◌>>=◌}
use mqttie.Packets.Connect.Read.Properties.{bytes_eq}

-- A channel is known by a number. A map owns the maps below it: nobody else has a reference to them.
mutual
  pub data SubMap : Type 0 where
    empty : SubMap
    entry : List ℕ → Value → SubMap → SubMap

  pub data Value : Type 0 where
    chan : ℕ → Value
    sub : SubMap → Value

-- s[key]
unfoldable pub lookup : List ℕ → SubMap → Option Value
lookup key empty = none
lookup key (entry k v s) = if bytes_eq k key then some v else lookup key s

-- s[key] = v
unfoldable pub insert : List ℕ → Value → SubMap → SubMap
insert key v empty = entry key v empty
insert key v (entry k w s) = if bytes_eq k key then entry k v s else entry k w (insert key v s)

-- delete(s, key)
unfoldable pub delete : List ℕ → SubMap → SubMap
delete key empty = empty
delete key (entry k w s) =
    let rest = delete key s in if bytes_eq k key then rest else entry k w rest

-- len(s)
unfoldable pub size : SubMap → ℕ
size empty = 0
size (entry k v s) = suc (size s)

-- s[key].(chan<- []byte)
abbrev pub as_chan : Option Value → Option ℕ
as_chan none = none
as_chan (some (chan c)) = some c
as_chan (some (sub m)) = none

-- s[key].(subMap)
abbrev pub as_sub : Option Value → Option SubMap
as_sub none = none
as_sub (some (chan c)) = none
as_sub (some (sub m)) = some m

-- The pieces `topic[:i+1]` that end at a `+`, first to last, and what is left behind the last `+`.
abbrev pub onto : ℕ → List (List ℕ) × List ℕ → List (List ℕ) × List ℕ
onto ch ([], last) = ([], ch ∷ last)
onto ch (piece ∷ pieces, last) = ((ch ∷ piece) ∷ pieces, last)

unfoldable pub pieces : List ℕ → List (List ℕ) × List ℕ
pieces [] = ([], [])
pieces (ch ∷ topic) =
    let (ps, last) = pieces topic in
    if ch == b'+' then ((b'+' ∷ []) ∷ ps, last) else onto ch (ps, last)

-- The map below a piece, or a new one.
abbrev pub below : Option Value → SubMap
below none = empty
below (some (chan c)) = empty
below (some (sub m)) = m

-- Add, by the pieces of the topic; it always answers true.
unfoldable pub add_pieces : List (List ℕ) → List ℕ → ℕ → SubMap → SubMap
add_pieces [] last c s = insert last (chan c) s
add_pieces (piece ∷ ps) last c s =
    insert piece (sub (add_pieces ps last c (below (lookup piece s)))) s

unfoldable pub add : List ℕ → ℕ → SubMap → SubMap
add topic c s = let (ps, last) = pieces topic in add_pieces ps last c s

-- Del, by the pieces of the topic: a map with one entry at most goes with its entry, whatever the rest
-- of the topic is.
unfoldable pub del_pieces : List (List ℕ) → List ℕ → SubMap → SubMap
del_pieces [] last s = delete last s
del_pieces (piece ∷ ps) last s =
    let rest = λ (m : SubMap). insert piece (sub (del_pieces ps last m)) s in
    elim (as_sub (lookup piece s)) [
      | none ↦ s
      | some m ↦ if leb (size m) 1 then delete piece s else rest m
    ]

unfoldable pub del : List ℕ → SubMap → SubMap
del topic s = let (ps, last) = pieces topic in del_pieces ps last s

-- The places where the loop of Get stops, the start and behind each `/`: `topic[:i]` and `topic[i:]`.
abbrev pub behind : ℕ → List (List ℕ × List ℕ) → List (List ℕ × List ℕ)
behind ch [] = []
behind ch ((front, rest) ∷ stops) = (ch ∷ front, rest) ∷ behind ch stops

-- The stops behind the first one.
unfoldable pub later_stops : List ℕ → List (List ℕ × List ℕ)
later_stops [] = []
later_stops (ch ∷ topic) =
    let more = behind ch (later_stops topic) in
    if ch == b'/' then (b'/' ∷ [], topic) ∷ more else more

unfoldable pub stops : List ℕ → List (List ℕ × List ℕ)
stops topic = ([], topic) ∷ later_stops topic

-- The rest from the first `/` on, if there is one.
unfoldable pub from_slash : List ℕ → Option (List ℕ)
from_slash [] = none
from_slash (ch ∷ rest) = let more = from_slash rest in if ch == b'/' then some (ch ∷ rest) else more

-- `topic[i+j:]` for the index `j` of a `/` in `topic[i:]`. Where there is none, `j` is -1: the slice
-- begins one byte before `i`, and at the start of the topic it panics.
unfoldable pub scope : List ℕ → List ℕ → Outcome (List ℕ)
scope front rest = elim (from_slash rest) [
  | some tail ↦ ok tail
  | none ↦ if leb 1 (length front) then ok (drop (length front - 1) (front ++ rest)) else panic
]

abbrev pub or_else : Option ℕ → Outcome (Option ℕ) → Outcome (Option ℕ)
or_else (some c) r = ok (some c)
or_else none r = r

-- The loop of Get; `inner` is the call on the map below.
unfoldable pub scan :
    (SubMap → List ℕ → Outcome (Option ℕ)) → SubMap → List (List ℕ × List ℕ) → Outcome (Option ℕ)
scan inner s [] = ok none
scan inner s ((front, rest) ∷ more) =
    let next = scan inner s more in
    elim (as_chan (lookup (front ++ b'#' ∷ []) s)) [
      | some c ↦ ok (some c)
      | none ↦ elim (as_sub (lookup (front ++ b'+' ∷ []) s)) [
        | none ↦ next
        | some m ↦ scope front rest >>= λ tail. inner m tail >>= λ found. or_else found next
      ]
    ]

-- Get; `fuel` bounds the depth of the maps.
unfoldable pub get_fuel : ℕ → SubMap → List ℕ → Outcome (Option ℕ)
get_fuel zero s topic = stuck
get_fuel (suc fuel) s topic =
    or_else (as_chan (lookup topic s)) (scan (get_fuel fuel) s (stops topic))

mutual
  pub depth : SubMap → ℕ
  depth empty = 1
  depth (entry k v s) = max (depth_value v) (depth s)

  depth_value : Value → ℕ
  depth_value (chan c) = 0
  depth_value (sub m) = suc (depth m)

unfoldable pub get : List ℕ → SubMap → Outcome (Option ℕ)
get topic s = get_fuel (depth s) s topic
