-- ===== src/Debouncer/Direction/Known.antt =====
-- Events of the two beams never run into a missing entry of FIRST_BEAM_DIRECTION.
use tasker_rfid.Prelude.{
  ℕ, String, ◌≡◌, ◌⊎◌, refl, inl, inr, subst, Option, none, some, List, [], ◌∷◌, All, Option-cases,
  if_ind, string_eq, ◌==◌, not, ◌&&◌, leb, ◌+◌,
}
use tasker_rfid.Prelude.Dict.{Dict}
use tasker_rfid.Debouncer.Direction.{
  beam_inner, beam_outer, beam_broken, beam_clear, first_beam_direction, Crossing, BeamEvent, Gate,
  idle, close, is_empty, confirm, step, run, crossings_from_events,
}
use tasker_rfid.Debouncer.Direction.Crossings.{Gives}

abbrev pub IsKnown : String → Type 0
IsKnown b = (b ≡ beam_inner) ⊎ (b ≡ beam_outer)

abbrev IsOpenedKnown : Option (String × ℕ) → Type 0
IsOpenedKnown none = Unit
IsOpenedKnown (some (first, _)) = IsKnown first

abbrev OpenedKnown : Gate → Type 0
OpenedKnown g = IsOpenedKnown g.opened

first_beam_direction_known :
    (b : String) → IsKnown b → (d : String) × (first_beam_direction b ≡ some d)
unfolding first_beam_direction
first_beam_direction_known b (inl e) = rw e (_, refl)
first_beam_direction_known b (inr e) = rw e (_, refl)

confirm_known :
    (timeout : ℕ) (direction : Option String) (opened : Option (String × ℕ)) (b : String) (at : ℕ)
    → IsOpenedKnown opened
    → (d : Option String) × (confirm timeout direction opened b at ≡ some d)
unfolding confirm
confirm_known timeout (some d) opened b at h = (some d, refl)
confirm_known timeout none none b at h = (none, refl)
confirm_known timeout none (some (first, started)) b at h =
    let (d, e) = first_beam_direction_known first h in
    if_ind (λ (r : Option (Option String)). (d : Option String) × (r ≡ some d))
      (not (b == first) && leb at (started + timeout)) (λ _. rw e (_, refl)) (λ _. (none, refl))

close-OpenedKnown :
    (broken : Dict String ℕ) (at : ℕ) (opened : Option (String × ℕ)) (g : Gate)
    → OpenedKnown g
    → OpenedKnown (close broken at opened g)
close-OpenedKnown broken at none g h = h
close-OpenedKnown broken at (some o) g h = if_ind OpenedKnown (is_empty broken) (λ _. tt) (λ _. h)

step-OpenedKnown :
    (timeout : ℕ) (e : BeamEvent) (g : Gate)
    → IsKnown e.beam
    → OpenedKnown g
    → Gives OpenedKnown (step timeout e g)
unfolding step
step-OpenedKnown timeout e g known h =
    if_ind (Gives OpenedKnown) (e.state == beam_broken)
      (λ _.
        if_ind (Gives OpenedKnown) (is_empty g.broken) (λ _. known)
          (λ _.
            let (d, f) = confirm_known timeout g.direction g.opened e.beam e.occurred_at h in
            rw f h))
      (λ _.
        if_ind (Gives OpenedKnown) (e.state == beam_clear)
          (λ _. close-OpenedKnown _ e.occurred_at g.opened g h) (λ _. h))

run_known :
    (timeout : ℕ) (events : List BeamEvent) (g : Gate)
    → All (λ e. IsKnown e.beam) events
    → OpenedKnown g
    → (g' : Gate) × (run timeout events g ≡ some g')
unfolding run
run_known timeout [] g known h = (g, refl)
run_known timeout (e ∷ es) g known h = elim (Option-cases (step timeout e g)) [
  | inl f ↦ absurd (subst (Gives OpenedKnown) f (step-OpenedKnown timeout e g known.0 h))
  | inr (g', f) ↦
      rw (f, run)
        (run_known timeout es g' known.1
          (subst (Gives OpenedKnown) f (step-OpenedKnown timeout e g known.0 h)))
]

pub crossings_known :
    (timeout : ℕ) (events : List BeamEvent)
    → All (λ e. IsKnown e.beam) events
    → (cs : List Crossing) × (crossings_from_events events timeout ≡ some cs)
unfolding crossings_from_events
crossings_known timeout events known =
    let (g, e) = run_known timeout events idle known tt in
    (g.crossings, rw (e, crossings_from_events))
