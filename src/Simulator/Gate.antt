-- ===== src/Simulator/Gate.antt =====
-- The simulated crossings, read back by the debouncer.
use tasker_rfid.Prelude.{
  ℕ, ◌+◌, ◌-◌, ◌*◌, ◌≤◌, ◌≡◌, ap, ◌∙◌, Bool, true, false, some, [], ◌∷◌, leb, if◌then◌else◌, arith,
}
use tasker_rfid.Debouncer.Direction.{BeamEvent, Crossing, crossings_from_events}
use tasker_rfid.Debouncer.Direction.Crossings.{Pass, events_of, crossing_of, crossings_from_passes}
use tasker_rfid.Simulator.{insert_at, sort_at, half_separation, gate_crossing}

module _ (a b c d : BeamEvent) where
  -- Four events that are in order already.
  sorted :
      a.occurred_at ≤ b.occurred_at
      → b.occurred_at ≤ c.occurred_at
      → c.occurred_at ≤ d.occurred_at
      → sort_at (λ (e : BeamEvent). e.occurred_at) (a ∷ b ∷ c ∷ d ∷ []) ≡ a ∷ b ∷ c ∷ d ∷ []
  unfolding sort_at insert_at
  sorted ab bc cd = ground (arith, ab, bc, cd)

-- What is made of a crossing: from the first beam that breaks to the last that clears.
abbrev pub crossing_made : (middle drawn blocked : ℕ) (reverse : Bool) → Crossing
crossing_made middle drawn blocked reverse = record {
  direction = if reverse then some "IN" else some "OUT";
  started_at = middle - half_separation drawn;
  ended_at = middle + half_separation drawn + blocked;
}

-- If each beam stays blocked at least until the other breaks, and the second breaks in time, then the
-- debouncer reads the events of a simulated crossing as one crossing: out, or in if it is reversed,
-- from the first beam's break to the second beam's clearing.
pub gate_crossing-crossings :
    (middle drawn blocked timeout : ℕ) (reverse : Bool)
    → half_separation drawn ≤ middle
    → half_separation drawn * 2 ≤ blocked
    → half_separation drawn * 2 ≤ timeout
    → crossings_from_events (gate_crossing middle drawn blocked reverse) timeout
      ≡ some (crossing_made middle drawn blocked reverse ∷ [])
unfolding gate_crossing
gate_crossing-crossings middle drawn blocked timeout reverse low long soon = go reverse
  where
    h : ℕ
    h = half_separation drawn

    pass : Bool → Pass
    pass inner = record {
      inner_first = inner;
      inner_clears_first = inner;
      broke = middle - h;
      followed = middle + h;
      cleared = (middle - h) + blocked;
      left = (middle + h) + blocked;
    }

    in_time : leb (middle + h) ((middle - h) + timeout) ≡ true
    in_time = ground (arith, low, soon)

    read_back :
        (inner : Bool)
        → crossings_from_events (events_of (pass inner)) timeout
          ≡ some (crossing_of timeout (pass inner) ∷ [])
    read_back inner = crossings_from_passes timeout (pass inner ∷ [])

    go :
        (reverse : Bool)
        → crossings_from_events (gate_crossing middle drawn blocked reverse) timeout
          ≡ some (crossing_made middle drawn blocked reverse ∷ [])
    go true =
        ap (λ events. crossings_from_events events timeout)
          (sorted _ _ _ _ (omega (arith, low)) (omega (arith, low, long)) (omega (arith, low)))
        ∙ read_back false
        ∙ rw in_time
    go false =
        ap (λ events. crossings_from_events events timeout)
          (sorted _ _ _ _ (omega (arith, low)) (omega (arith, low, long)) (omega (arith, low)))
        ∙ read_back true
        ∙ rw in_time
