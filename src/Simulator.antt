-- ===== src/Simulator.antt =====
-- `gate_crossing` and `merge` of src/tasker_rfid/services/simulator/model.py. Times are microseconds;
-- the source adds fractions of seconds and rounds. What the random numbers give is an argument: half of
-- the time between the two beams.
pub mod Gate
pub mod Sorting
pub mod Reads
pub mod Publisher
pub mod Commands
mod Examples
use tasker_rfid.Prelude.{
  ℕ, ◌+◌, ◌-◌, String, Bool, true, false, List, [], ◌∷◌, ◌++◌, leb, ltb, flat_map, if◌then◌else◌,
}
use tasker_rfid.Debouncer.Direction.{BeamEvent, beam_inner, beam_outer, beam_broken, beam_clear}

-- The smallest time between the two beams, halved.
abbrev pub least_half_separation : ℕ
least_half_separation = 2_500

-- BOX_BEAM_BLOCKED_S
abbrev pub box_beam_blocked : ℕ
box_beam_blocked = 350_000

module _ {A : Type 0} (at : A → ℕ) where
  -- list.sort by a time, which keeps the order of equal ones.
  unfoldable pub insert_at : A → List A → List A
  insert_at x [] = x ∷ []
  insert_at x (y ∷ ys) = if leb (at x) (at y) then x ∷ y ∷ ys else y ∷ insert_at x ys

  unfoldable pub sort_at : List A → List A
  unfolding insert_at
  sort_at [] = []
  sort_at (x ∷ xs) = insert_at x (sort_at xs)

  unfoldable pub merge : List (List A) → List A
  unfolding sort_at
  merge lists = sort_at (flat_map (λ xs. xs) lists)

abbrev pub half_separation : ℕ → ℕ
half_separation drawn = if leb least_half_separation drawn then drawn else least_half_separation

abbrev pub beam_event : (beam state : String) (at : ℕ) → BeamEvent
beam_event beam state at = record { beam = beam; state = state; occurred_at = at }

abbrev pub first_beam : Bool → String
first_beam reverse = if reverse then beam_outer else beam_inner

abbrev pub second_beam : Bool → String
second_beam reverse = if reverse then beam_inner else beam_outer

-- `middle` is start + duration / 2.
unfoldable pub gate_crossing : (middle drawn blocked : ℕ) (reverse : Bool) → List BeamEvent
unfolding sort_at
gate_crossing middle drawn blocked reverse =
    let first_at = middle - half_separation drawn in
    let second_at = middle + half_separation drawn in
    sort_at (λ e. e.occurred_at)
      (beam_event (first_beam reverse) beam_broken first_at
        ∷ beam_event (second_beam reverse) beam_broken second_at
        ∷ beam_event (first_beam reverse) beam_clear (first_at + blocked)
        ∷ beam_event (second_beam reverse) beam_clear (second_at + blocked)
        ∷ [])
