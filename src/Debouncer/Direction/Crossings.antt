-- ===== src/Debouncer/Direction/Crossings.antt =====
-- What the crossings say: a pass through both beams gets its direction, one beam alone never does.
use tasker_rfid.Prelude.{
  ℕ, ◌+◌, ◌≡◌, refl, ap, ◌∙◌, String, Bool, true, false, Option, none, some, List, [], ◌∷◌, ◌++◌,
  map, arith, not, leb, if◌then◌else◌, All, All-append, flat_map, Option-cases, inl, inr, string_eq,
  ◌==◌, eq_iff, subst, if_ind,
}
use mathlib.Core.List.{append_assoc, append-nil}
use tasker_rfid.Prelude.Dict.{Dict}
use tasker_rfid.Debouncer.Direction.{
  beam_inner, beam_outer, beam_broken, beam_clear, Crossing, BeamEvent, Gate, idle, close, is_empty,
  step, run, confirm, crossings_from_events,
}

-- Nothing blocks the gate.
abbrev pub resting : List Crossing → Gate
resting crossings = record { crossings = crossings; broken = []; opened = none; direction = none }

abbrev pub beam : Bool → String
beam inner = if inner then beam_inner else beam_outer

abbrev event : Bool → String → ℕ → BeamEvent
event inner state at = record { beam = beam inner; state = state; occurred_at = at }

-- Something goes through: one beam breaks, then the other, and both clear in either order.
pub record Pass : Type 0 where
  pub inner_first : Bool
  pub inner_clears_first : Bool
  pub broke : ℕ
  pub followed : ℕ
  pub cleared : ℕ
  pub left : ℕ

abbrev pub events_of : Pass → List BeamEvent
events_of p =
    event p.inner_first beam_broken p.broke
    ∷ event (not p.inner_first) beam_broken p.followed
    ∷ event p.inner_clears_first beam_clear p.cleared
    ∷ event (not p.inner_clears_first) beam_clear p.left
    ∷ []

abbrev pub crossing_of : ℕ → Pass → Crossing
crossing_of timeout p = record {
  direction =
      if leb p.followed (p.broke + timeout)
      then (if p.inner_first then some "OUT" else some "IN")
      else none;
  started_at = p.broke;
  ended_at = p.left;
}

run-pass :
    (timeout : ℕ) (inner_first inner_clears_first : Bool) (broke followed cleared left : ℕ)
    (cs : List Crossing)
    → let p : Pass = record {
      inner_first = inner_first;
      inner_clears_first = inner_clears_first;
      broke = broke;
      followed = followed;
      cleared = cleared;
      left = left;
    } in
      run timeout (events_of p) (resting cs) ≡ some (resting (cs ++ crossing_of timeout p ∷ []))
unfolding run
run-pass timeout true true broke followed cleared left cs = ground arith
run-pass timeout true false broke followed cleared left cs = ground arith
run-pass timeout false true broke followed cleared left cs = ground arith
run-pass timeout false false broke followed cleared left cs = ground arith

some-injective : {x y : Gate} → some x ≡ some y → x ≡ y
some-injective e = cc

run-append :
    (timeout : ℕ) (xs ys : List BeamEvent) (g : Gate) {h : Gate}
    → run timeout xs g ≡ some h
    → run timeout (xs ++ ys) g ≡ run timeout ys h
unfolding run
run-append timeout [] ys g e = ap (run timeout ys) (some-injective e)
run-append timeout (x ∷ xs) ys g {h} e = elim (Option-cases (step timeout x g)) [
  | inl f ↦ cc (rw (f, run) at e)
  | inr (g', f) ↦ rw (f, run) (run-append timeout xs ys g' (rw (f, run) at e))
]

run-passes :
    (timeout : ℕ) (passes : List Pass) (cs : List Crossing)
    → run timeout (flat_map events_of passes) (resting cs)
      ≡ some (resting (cs ++ map (crossing_of timeout) passes))
unfolding run
run-passes timeout [] cs = rw append-nil
run-passes timeout (p ∷ ps) cs =
    run-append timeout (events_of p) (flat_map events_of ps) (resting cs)
      (run-pass timeout p.inner_first p.inner_clears_first p.broke p.followed p.cleared p.left cs)
    ∙ run-passes timeout ps (cs ++ crossing_of timeout p ∷ [])
    ∙ ap (λ (l : List Crossing). some (resting l)) (append_assoc cs _ _)

-- From the beam events of any number of passes, one after another, the gate reports one crossing
-- for each: from the first break to the last clearing, with direction OUT if the inner beam broke
-- first and IN if the outer one did, and none if the second beam followed too late.
pub crossings_from_passes :
    (timeout : ℕ) (passes : List Pass)
    → crossings_from_events (flat_map events_of passes) timeout
      ≡ some (map (crossing_of timeout) passes)
unfolding crossings_from_events
crossings_from_passes timeout passes = rw (run-passes timeout passes [], crossings_from_events)

-- One beam alone.
abbrev AtBeam : String → Option (String × ℕ) → Type 0
AtBeam b none = Unit
AtBeam b (some (first, _)) = first ≡ b

record IsSilent (b : String) (g : Gate) : Type 0 where
  undecided : g.direction ≡ none
  opened_at : AtBeam b g.opened
  unknown : All (λ c. c.direction ≡ none) g.crossings

-- The step was made, and its result has the property.
abbrev pub Gives : (Gate → Type 0) → Option Gate → Type 0
Gives P none = ⊥
Gives P (some g) = P g

module _ (timeout : ℕ) (b : String) where
  confirm_same :
      (direction : Option String) (opened : Option (String × ℕ)) (at : ℕ)
      → direction ≡ none
      → AtBeam b opened
      → confirm timeout direction opened b at ≡ some none
  unfolding confirm
  confirm_same (some d) opened at e h = cc
  confirm_same none none at e h = refl
  confirm_same none (some (first, started)) at e h = ground (arith, eq_iff b first)

  close-IsSilent :
      (broken : Dict String ℕ) (at : ℕ) (opened : Option (String × ℕ)) (g : Gate)
      → AtBeam b opened
      → IsSilent b g
      → IsSilent b (close broken at opened g)
  close-IsSilent broken at none g a h = record {
    undecided = h.undecided;
    opened_at = h.opened_at;
    unknown = h.unknown;
  }
  close-IsSilent broken at (some (first, started)) g a h =
      if_ind (IsSilent b) (is_empty broken)
        (λ _. record {
          undecided = refl;
          opened_at = tt;
          unknown = All-append _ g.crossings _ h.unknown (h.undecided, tt);
        })
        (λ _. record { undecided = h.undecided; opened_at = h.opened_at; unknown = h.unknown })

  step-IsSilent :
      (e : BeamEvent) (g : Gate) → e.beam ≡ b → IsSilent b g → Gives (IsSilent b) (step timeout e g)
  unfolding step
  step-IsSilent e g same h =
      if_ind (Gives (IsSilent b)) (e.state == beam_broken)
        (λ _.
          if_ind (Gives (IsSilent b)) (is_empty g.broken)
            (λ _. record { undecided = refl; opened_at = same; unknown = h.unknown })
            (λ _. rw same (
              rw (confirm_same g.direction g.opened e.occurred_at h.undecided h.opened_at)
                (record { undecided = refl; opened_at = h.opened_at; unknown = h.unknown }))))
        (λ _.
          if_ind (Gives (IsSilent b)) (e.state == beam_clear)
            (λ _. close-IsSilent _ e.occurred_at g.opened g h.opened_at h) (λ _. h))

  run-IsSilent :
      (events : List BeamEvent) (g : Gate)
      → All (λ e. e.beam ≡ b) events
      → IsSilent b g
      → (g' : Gate) × (run timeout events g ≡ some g') × IsSilent b g'
  unfolding run
  run-IsSilent [] g same h = (g, refl, h)
  run-IsSilent (e ∷ es) g same h = elim (Option-cases (step timeout e g)) [
    | inl f ↦ absurd (subst (Gives (IsSilent b)) f (step-IsSilent e g same.0 h))
    | inr (g', f) ↦
        rw (f, run)
          (run-IsSilent es g' same.1 (subst (Gives (IsSilent b)) f (step-IsSilent e g same.0 h)))
  ]

-- If every event is of one and the same beam, whatever its states and times, then the gate reports
-- crossings without failing, and none of them has a direction.
pub one_beam-no_direction :
    (timeout : ℕ) (b : String) (events : List BeamEvent)
    → All (λ e. e.beam ≡ b) events
    → (cs : List Crossing) × (crossings_from_events events timeout ≡ some cs)
      × All (λ c. c.direction ≡ none) cs
unfolding crossings_from_events
one_beam-no_direction timeout b events same =
    let (g, e, silent) =
      run-IsSilent timeout b events idle same
        (record { undecided = refl; opened_at = tt; unknown = tt }) in
    (g.crossings, rw (e, crossings_from_events), silent.unknown)
