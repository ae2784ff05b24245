-- ===== src/Debouncer/Direction/Windows.antt =====
-- Which crossing an observation takes its direction from.
use mathlib.Core.List.{Mem, mem-cons_self, mem-cons_of_mem, not-mem-nil, mem-cons}
use mathlib.Core.Logic.Or
use native.Mathlib.Bridge.{le_prop}
use tasker_rfid.Prelude.{
  ℕ, ◌≤◌, ◌≡◌, ◌⊎◌, inl, inr, refl, sym, subst, true, false, none, List, [], ◌∷◌, arith, ltb,
  if◌then◌else◌, Bool-cases, select, if_ind,
}
use tasker_rfid.Prelude.Members.{mem-select, mem-select_of_mem}
use tasker_rfid.Debouncer.Direction.{
  Crossing, distance, midpoint, between, overlaps, min_by, nearest, direction_for_window,
}

module _ (key : Crossing → ℕ) where
  min_by-le-best : (best : Crossing) (cs : List Crossing) → key (min_by key best cs) ≤ key best
  unfolding min_by
  min_by-le-best best [] = omega arith
  min_by-le-best best (c ∷ cs) = elim (Bool-cases (ltb (key c) (key best))) [
    | inl e ↦ rw e (ground (arith, min_by-le-best c cs))
    | inr e ↦ rw e (min_by-le-best best cs)
  ]

  min_by-le :
      (best : Crossing) (cs : List Crossing) (x : Crossing)
      → Mem x cs
      → key (min_by key best cs) ≤ key x
  unfolding min_by
  min_by-le best [] x m = absurd (not-mem-nil m)
  min_by-le best (c ∷ cs) x m =
      Or.elim le_prop (mem-cons.0 m)
        (λ same.
          subst (λ (y : Crossing). key (min_by key best (c ∷ cs)) ≤ key y) (sym same)
            (elim (Bool-cases (ltb (key c) (key best))) [
              | inl e ↦ rw e (min_by-le-best c cs)
              | inr e ↦ rw e (ground (arith, min_by-le-best best cs))
            ]))
        (min_by-le (if ltb (key c) (key best) then c else best) cs x)

  min_by-least :
      (c : Crossing) (cs : List Crossing) (x : Crossing)
      → Mem x (c ∷ cs)
      → key (min_by key c cs) ≤ key x
  min_by-least c cs x m =
      Or.elim le_prop (mem-cons.0 m)
        (λ same.
          subst (λ (y : Crossing). key (min_by key c cs) ≤ key y) (sym same) (min_by-le-best c cs))
        (min_by-le c cs x)

  min_by-elim {κ} :
      (P : Crossing → Type κ) (best : Crossing) (cs : List Crossing)
      → P best
      → ((x : Crossing) → Mem x cs → P x)
      → P (min_by key best cs)
  unfolding min_by
  min_by-elim P best [] p q = p
  min_by-elim P best (c ∷ cs) p q =
      min_by-elim P (if ltb (key c) (key best) then c else best) cs
        (if_ind P (ltb (key c) (key best)) (λ _. q c mem-cons_self) (λ _. p))
        (λ x m. q x (mem-cons_of_mem c m))

-- The crossing that the observation belongs to: it overlaps the window, and no other crossing that
-- overlaps it has a midpoint closer to the middle of the window.
pub record IsNearest (first_read last_read tolerance : ℕ) (crossings : List Crossing) (c : Crossing)
    : Type 0 where
  pub listed : Mem c crossings
  pub meets : overlaps first_read last_read tolerance c ≡ true
  pub closest :
      (x : Crossing)
      → Mem x crossings
      → overlaps first_read last_read tolerance x ≡ true
      → distance (midpoint c) (between first_read last_read)
        ≤ distance (midpoint x) (between first_read last_read)

module _ (first_read last_read tolerance : ℕ) (crossings : List Crossing) where
  abbrev meeting : List Crossing
  meeting = select (overlaps first_read last_read tolerance) crossings

  abbrev gap : Crossing → ℕ
  gap x = distance (midpoint x) (between first_read last_read)

  of_meeting :
      (c : Crossing)
      → Mem c meeting
      → ((x : Crossing) → Mem x meeting → gap c ≤ gap x)
      → IsNearest first_read last_read tolerance crossings c
  of_meeting c m least = record {
    listed = (mem-select (overlaps first_read last_read tolerance) c crossings m).0;
    meets = (mem-select (overlaps first_read last_read tolerance) c crossings m).1;
    closest = λ x there meets.
        least x
          (mem-select_of_mem (overlaps first_read last_read tolerance) x crossings there meets);
  }

  abbrev Chosen : Type 0
  Chosen =
      ((direction_for_window first_read last_read crossings tolerance ≡ none)
        × ((x : Crossing) → Mem x crossings → overlaps first_read last_read tolerance x ≡ false))
      ⊎ ((c : Crossing) × IsNearest first_read last_read tolerance crossings c
          × (direction_for_window first_read last_read crossings tolerance ≡ c.direction))

  chosen_from : (l : List Crossing) → l ≡ meeting → Chosen
  unfolding direction_for_window nearest
  chosen_from [] e = inl (
    rw (← e, direction_for_window),
    λ x m. elim (Bool-cases (overlaps first_read last_read tolerance x)) [
      | inl f ↦ absurd (
          not-mem-nil (
            subst (Mem x) (sym e)
              (mem-select_of_mem (overlaps first_read last_read tolerance) x crossings m f)))
      | inr f ↦ f
    ],
  )
  chosen_from (c ∷ cs) e = inr (
    min_by gap c cs,
    of_meeting (min_by gap c cs)
        (subst (Mem (min_by gap c cs)) e
          (min_by-elim gap (λ z. Mem z (c ∷ cs)) c cs mem-cons_self (λ x m. mem-cons_of_mem c m)))
        (λ x m. min_by-least gap c cs x (subst (Mem x) (sym e) m)),
    rw (← e, direction_for_window),
  )

  -- Either no crossing overlaps the window and there is no direction, or the direction is that of
  -- a crossing that overlaps it and has its midpoint closest to the middle of the window.
  pub direction_for_window-IsNearest :
      ((direction_for_window first_read last_read crossings tolerance ≡ none)
        × ((x : Crossing) → Mem x crossings → overlaps first_read last_read tolerance x ≡ false))
      ⊎ ((c : Crossing) × IsNearest first_read last_read tolerance crossings c
          × (direction_for_window first_read last_read crossings tolerance ≡ c.direction))
  direction_for_window-IsNearest = chosen_from meeting refl
