-- ===== src/Debouncer/Direction.antt =====
-- src/tasker_rfid/services/debouncer/direction.py. Times are microseconds. A beam that is neither
-- INNER nor OUTER has no entry in FIRST_BEAM_DIRECTION: the KeyError is `none`.
pub mod Crossings
pub mod Windows
pub mod Known
use tasker_rfid.Prelude.{
  ℕ, ◌+◌, ◌-◌, ◌/◌, ◌%◌, String, Bool, true, false, Option, none, some, List, [], ◌∷◌, ◌++◌, not,
  ◌&&◌, ltb, leb, nat_eq, string_eq, ◌==◌, if◌then◌else◌, holds, select,
}
use tasker_rfid.Prelude.Dict.{Dict, insert, pop}
use tasker_rfid.StateEngine.Transitions.{direction_in, direction_out}

abbrev pub beam_inner : String
beam_inner = "INNER"

abbrev pub beam_outer : String
beam_outer = "OUTER"

abbrev pub beam_broken : String
beam_broken = "BROKEN"

abbrev pub beam_clear : String
beam_clear = "CLEAR"

unfoldable pub first_beam_direction : String → Option String
first_beam_direction beam =
    if beam == beam_inner
    then some direction_out
    else if beam == beam_outer
    then some direction_in
    else none

pub record Crossing : Type 0 where
  pub direction : Option String
  pub started_at : ℕ
  pub ended_at : ℕ

-- (beam, state, occurred_at)
pub record BeamEvent : Type 0 where
  pub beam : String
  pub state : String
  pub occurred_at : ℕ

-- The variables of the loop. `first_beam` and `started_at` are set and reset together, so `opened`
-- holds both.
pub record Gate : Type 0 where
  pub crossings : List Crossing
  pub broken : Dict String ℕ
  pub opened : Option (String × ℕ)
  pub direction : Option String

abbrev pub idle : Gate
idle = record { crossings = []; broken = []; opened = none; direction = none }

abbrev pub is_empty {ℓ} : {A : Type ℓ} → List A → Bool
is_empty [] = true
is_empty (_ ∷ _) = false

-- The direction after a beam breaks while another is broken: decided once, by the other beam, in
-- time. The outer `none` is the KeyError.
unfoldable pub confirm :
    (timeout : ℕ) (direction : Option String) (opened : Option (String × ℕ)) (beam : String)
    (at : ℕ)
    → Option (Option String)
unfolding first_beam_direction
confirm timeout (some d) opened beam at = some (some d)
confirm timeout none none beam at = some none
confirm timeout none (some (first_beam, started_at)) beam at =
    if not (beam == first_beam) && leb at (started_at + timeout)
    then elim (first_beam_direction first_beam) [ none ↦ none | some d ↦ some (some d) ]
    else some none

unfoldable pub break_beam : ℕ → BeamEvent → Gate → Option Gate
unfolding confirm insert
break_beam timeout event g =
    if is_empty g.broken
    then some (record g {
      opened = some (event.beam, event.occurred_at);
      direction = none;
      broken = insert event.beam event.occurred_at g.broken;
    })
    else elim (confirm timeout g.direction g.opened event.beam event.occurred_at) [
      | none ↦ none
      | some direction ↦ some (record g {
        direction = direction;
        broken = insert event.beam event.occurred_at g.broken;
      })
    ]

-- `broken` is what is left of the dict.
abbrev pub close : Dict String ℕ → ℕ → Option (String × ℕ) → Gate → Gate
close broken at (some (_, started_at)) g =
    if is_empty broken
    then record {
      crossings =
          g.crossings
          ++ record { direction = g.direction; started_at = started_at; ended_at = at } ∷ [];
      broken = broken;
      opened = none;
      direction = none;
    }
    else record g { broken = broken }
close broken at none g = record g { broken = broken }

unfoldable pub clear_beam : BeamEvent → Gate → Gate
unfolding pop
clear_beam event g = close (pop event.beam g.broken) event.occurred_at g.opened g

unfoldable pub step : ℕ → BeamEvent → Gate → Option Gate
unfolding break_beam clear_beam
step timeout event g =
    if event.state == beam_broken
    then break_beam timeout event g
    else if event.state == beam_clear
    then some (clear_beam event g)
    else some g

unfoldable pub run : ℕ → List BeamEvent → Gate → Option Gate
unfolding step
run timeout [] g = some g
run timeout (event ∷ events) g = elim (step timeout event g) [
  | none ↦ none
  | some g' ↦ run timeout events g'
]

unfoldable pub crossings_from_events : List BeamEvent → ℕ → Option (List Crossing)
unfolding run
crossings_from_events events timeout = elim (run timeout events idle) [
  | none ↦ none
  | some g ↦ some g.crossings
]

-- A timedelta divided by 2: to whole microseconds, a half to the even one.
unfoldable pub half : ℕ → ℕ
half d = if d % 4 == 3 then d / 2 + 1 else d / 2

-- `a + (b - a) / 2`; a negative difference is halved the same way.
unfoldable pub between : ℕ → ℕ → ℕ
unfolding half
between a b = if leb a b then a + half (b - a) else a - half (a - b)

unfoldable pub midpoint : Crossing → ℕ
unfolding between
midpoint c = between c.started_at c.ended_at

unfoldable pub distance : ℕ → ℕ → ℕ
distance a b = if leb a b then b - a else a - b

-- `started_at <= last_read + margin and ended_at >= first_read - margin`
unfoldable pub overlaps : (first_read last_read tolerance : ℕ) → Crossing → Bool
overlaps first_read last_read tolerance c =
    leb c.started_at (last_read + tolerance) && leb first_read (c.ended_at + tolerance)

-- Python's `min` with a key: the first of the least.
unfoldable pub min_by : (Crossing → ℕ) → Crossing → List Crossing → Crossing
min_by key best [] = best
min_by key best (c ∷ cs) = min_by key (if ltb (key c) (key best) then c else best) cs

unfoldable pub nearest : ℕ → List Crossing → Option Crossing
unfolding min_by distance midpoint
nearest at [] = none
nearest at (c ∷ cs) = some (min_by (λ x. distance (midpoint x) at) c cs)

unfoldable pub direction_for_window :
    (first_read last_read : ℕ) → List Crossing → (tolerance : ℕ) → Option String
unfolding nearest overlaps
direction_for_window first_read last_read crossings tolerance =
    elim (nearest (between first_read last_read)
      (select (overlaps first_read last_read tolerance) crossings)) [
        | none ↦ none
        | some c ↦ c.direction
      ]
