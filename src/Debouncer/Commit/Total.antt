-- ===== src/Debouncer/Commit/Total.antt =====
-- A round never ends in a KeyError.
use tasker_rfid.Prelude.{
  ℕ, String, ◌≡◌, refl, inl, inr, Option, none, some, List, [], ◌∷◌, All, All-select, All-map,
  Option-cases, if_ind, leb, select, ◌==◌, ◌||◌, not, nat_eq, string_eq, Bool-cases,
}
use tasker_rfid.Prelude.Dict.{lookup}
use tasker_rfid.Retry.{Fault}
use tasker_rfid.Debouncer.Grouping.{Observation}
use tasker_rfid.Debouncer.Direction.{BeamEvent, Crossing}
use tasker_rfid.Debouncer.Direction.Known.{IsKnown, crossings_known}
use tasker_rfid.Debouncer.Service.{Settings, Debouncer}
use tasker_rfid.Debouncer.Commit.{
  Tables, GateEventRow, insert_by_time, order_by_time, fetch_gate_events, gate_lookup_margin,
  minimum, maximum, batch_crossings, direction_of, resolve_all, commit, write_round, round,
  is_empty,
}

abbrev pub BeamIsKnown : BeamEvent → Type 0
BeamIsKnown e = IsKnown e.beam

abbrev pub RowIsKnown : GateEventRow → Type 0
RowIsKnown r = IsKnown r.event.beam

-- Every portal that has a gate has a timeout for it.
abbrev pub HasTimeouts : Settings → Type 0
HasTimeouts settings =
    (portal gate_id : String)
    → lookup portal settings.gate_of_portal ≡ some gate_id
    → (timeout : ℕ) × (lookup portal settings.gate_timeout ≡ some timeout)

insert_by_time-known :
    (e : BeamEvent) (es : List BeamEvent)
    → BeamIsKnown e
    → All BeamIsKnown es
    → All BeamIsKnown (insert_by_time e es)
unfolding insert_by_time
insert_by_time-known e [] k h = (k, tt)
insert_by_time-known e (x ∷ xs) k h =
    if_ind (All BeamIsKnown) (leb e.occurred_at x.occurred_at) (λ _. (k, h))
      (λ _. (h.0, insert_by_time-known e xs k h.1))

order_by_time-known :
    (es : List BeamEvent) → All BeamIsKnown es → All BeamIsKnown (order_by_time es)
unfolding order_by_time
order_by_time-known [] h = tt
order_by_time-known (e ∷ es) h =
    insert_by_time-known e (order_by_time es) h.0 (order_by_time-known es h.1)

module _ (settings : Settings) (timeouts : HasTimeouts settings) (t : Tables)
    (known : All RowIsKnown t.gate_events) where
  fetch_gate_events-known :
      (gate_id : String) (window_start window_end margin : ℕ)
      → All BeamIsKnown (fetch_gate_events gate_id window_start window_end margin t)
  unfolding fetch_gate_events
  fetch_gate_events-known gate_id window_start window_end margin =
      order_by_time-known _ (All-map BeamIsKnown _ _ (All-select RowIsKnown _ t.gate_events known))

  batch_crossings_total :
      (portal gate_id : String) (os : List Observation)
      → lookup portal settings.gate_of_portal ≡ some gate_id
      → (cs : List Crossing) × (batch_crossings settings t portal gate_id os ≡ some cs)
  unfolding batch_crossings
  batch_crossings_total portal gate_id [] e = ([], refl)
  batch_crossings_total portal gate_id (o ∷ os) e =
      let (timeout, f) = timeouts portal gate_id e in
      let (cs, g) = crossings_known timeout _ (
        fetch_gate_events-known gate_id (minimum o.first_read os) (maximum o.last_read os)
          gate_lookup_margin) in
      (cs, rw (batch_crossings, f) g)

  direction_of_total :
      (batch : List Observation) (o : Observation)
      → (d : Option String) × (direction_of settings t batch o ≡ some d)
  unfolding direction_of
  direction_of_total batch o = elim (Option-cases (lookup o.portal settings.gate_of_portal)) [
    | inl e ↦ (none, rw (direction_of, e))
    | inr (gate_id, e) ↦
        let (cs, f) =
          batch_crossings_total o.portal gate_id (select (λ x. x.portal == o.portal) batch) e in
        rw (direction_of, e, f) (_, refl)
  ]

  resolve_all_total :
      (batch os : List Observation)
      → (r : List (Observation × Option String)) × (resolve_all settings t batch os ≡ some r)
  unfolding resolve_all
  resolve_all_total batch [] = ([], refl)
  resolve_all_total batch (o ∷ os) =
      let (d, e) = direction_of_total batch o in
      let (rest, f) = resolve_all_total batch os in ((o, d) ∷ rest, rw (resolve_all, e, f))

  pub commit_total :
      (faults : List (Fault (Unit {0}))) (observations : List Observation) (c : ℕ) (s : Debouncer)
      → (r : Debouncer × Tables) × (commit settings faults observations c (s, t) ≡ some r)
  unfolding commit
  commit_total faults observations c s =
      let (resolved, e) = resolve_all_total observations observations in rw (commit, e) (_, refl)

  write_round_total :
      (faults : List (Fault (Unit {0}))) (observations : List Observation) (c highest : ℕ)
      (s : Debouncer)
      → (r : Debouncer × Tables) × (write_round settings faults observations c highest (s, t)
          ≡ some r)
  unfolding write_round
  write_round_total faults observations c highest s =
      elim (Bool-cases (not (is_empty observations) || not (highest == c))) [
        | inl e ↦
            let (r, f) = commit_total faults observations highest s in
            rw (write_round, e, f) (_, refl)
        | inr e ↦ ((s, t), rw (write_round, e))
      ]

-- If every portal that has a gate has a timeout, and every stored gate event is of one of the two
-- beams, then a round ends with a result, whatever is read and whichever attempts fail.
pub round_total :
    (settings : Settings) (absorbed_at closed_at : ℕ) (utc_now : ℕ → ℕ)
    (faults : List (Fault (Unit {0}))) (s : Debouncer) (t : Tables)
    → HasTimeouts settings
    → All RowIsKnown t.gate_events
    → (r : Debouncer × Tables) × (round settings absorbed_at closed_at utc_now faults (s, t)
        ≡ some r)
unfolding round
round_total settings absorbed_at closed_at utc_now faults s t timeouts known =
    write_round_total settings timeouts t known faults _ s.cursor_id _ _
