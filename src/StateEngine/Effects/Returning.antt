-- ===== src/StateEngine/Effects/Returning.antt =====
-- A reusable container that comes back from a customer: return_reusable_container of
-- state_engine/service.py, as `handle` reaches it.
use tasker_rfid.Prelude.{
  ◌≡◌, ◌⊎◌, refl, ap, ◌∙◌, true, false, none, some, List, [], ◌∷◌, ◌++◌, map, arith, nat_eq,
  string_eq, ◌==◌, if◌then◌else◌, holds, select, inl, inr, Bool-cases,
}
use tasker_rfid.Schema.{Container, ObservationRow, Db}
use tasker_rfid.StateEngine.Transitions.{
  Decision, decide, inbound, exit, direction_in, dispatched, registered,
}
use tasker_rfid.StateEngine.Store.{
  children_of, update_status, insert_movement, detach_children, mark_processed, lock_container,
}
use tasker_rfid.StateEngine.Engine.{
  Run, source_portal, portal_movement, return_reusable_container, move, handle_action,
}
use tasker_rfid.StateEngine.Effects.{decision_for, handle_action-move}

-- A row after `c` came back at a portal: only `c` has a new status and was seen, and what hung from
-- `c` hangs from nothing.
abbrev pub came_back : ObservationRow → Container → Container → Container
came_back o c d = record {
  container_id = d.container_id;
  tid = d.tid;
  kind = d.kind;
  parent_id = if holds d.parent_id c.container_id then none else d.parent_id;
  status = if d.container_id == c.container_id then registered else d.status;
  reusable = d.reusable;
  last_seen_at = if d.container_id == c.container_id then some o.last_read else d.last_seen_at;
  last_portal = if d.container_id == c.container_id then some o.portal else d.last_portal;
}

-- The return of `c`: how every table stands afterwards, and that nothing is found on `c` any more.
pub record Returned (o : ObservationRow) (c : Container) (before after : Db) : Type 0 where
  pub stock : after.containers ≡ map (came_back o c) before.containers
  pub emptied : children_of after c ≡ []
  pub ledger :
      after.movements
      ≡ before.movements
        ++ record {
          container_id = c.container_id;
          from_status = some dispatched;
          to_status = registered;
          portal = some o.portal;
          session_id = none;
          occurred_at = o.last_read;
          source = source_portal;
          reason = none;
          operator = none;
        }
          ∷ []
  pub sessions : after.dispatch_sessions ≡ before.dispatch_sessions
  pub anomalies : after.anomalies ≡ before.anomalies
  pub observations :
      after.observations
      ≡ map (λ p. if p.id == o.id then record p { processed = true } else p) before.observations

-- A read on the way in: at any portal but the exit, or with that direction.
abbrev pub IsInward : ObservationRow → Type 0
IsInward o = ((o.portal == exit) ≡ false) ⊎ (o.direction ≡ some direction_in)

decide_return :
    (o : ObservationRow) (c : Container)
    → IsInward o
    → c.reusable ≡ true
    → c.status ≡ dispatched
    → ((decision_for o c).detach_children ≡ true) × ((decision_for o c).to_status ≡ some registered)
unfolding decide inbound
decide_return o c (inl e) reusable out = rw (e, reusable, out) (refl, refl)
decide_return o c (inr e) reusable out = elim (Bool-cases (o.portal == exit)) [
  | inl f ↦ rw (f, e, reusable, out) (refl, refl)
  | inr f ↦ rw (f, reusable, out) (refl, refl)
]

-- Detaching leaves nothing on a container.
none_left :
    (o : ObservationRow) (c : Container) (cs : List Container)
    → select (λ d. holds d.parent_id c.container_id) (map (came_back o c) cs) ≡ []
none_left o c [] = refl
none_left o c (d ∷ ds) = ground (arith, none_left o c ds)

-- The two updates of the source, status first and then parents, are one.
one_update :
    (o : ObservationRow) (c : Container) (s : Run)
    → (detach_children c.container_id
        (update_status registered o.last_read o.portal c.container_id s.db)).containers
      ≡ map (came_back o c) s.db.containers
unfolding detach_children update_status
one_update o c s = go s.db.containers
  where
    go :
        (cs : List Container)
        → (detach_children c.container_id (
            update_status registered o.last_read o.portal c.container_id
              (record s.db { containers = cs }))).containers
          ≡ map (came_back o c) cs
    go [] = refl
    go (d ∷ ds) = ground (arith, go ds)

move-Returned :
    (o : ObservationRow) (c : Container) (d : Decision) (s : Run)
    → d.detach_children ≡ true
    → c.status ≡ dispatched
    → Returned o c s.db (move o c d registered none s).db
unfolding move return_reusable_container detach_children insert_movement update_status
    mark_processed portal_movement children_of
move-Returned o c d s e out = rw e (record {
  stock = one_update o c s;
  emptied =
      ap (select (λ d. holds d.parent_id c.container_id)) (one_update o c s)
      ∙ none_left o c s.db.containers;
  ledger = rw out refl;
  sessions = refl;
  anomalies = refl;
  observations = refl;
})

-- If a reusable container that is DISPATCHED is read on its way in, then afterwards it is REGISTERED
-- and was seen there, what was on it hangs from nothing and is otherwise as it was, every other
-- container is as it was, the one movement written is the container's own from DISPATCHED to
-- REGISTERED, under no session, no session has changed, no anomaly is raised, and only this
-- observation has been marked.
pub handle_action-Returned :
    (o : ObservationRow) (s : Run) (c : Container)
    → lock_container o.tid s.db ≡ some c
    → IsInward o
    → c.reusable ≡ true
    → c.status ≡ dispatched
    → Returned o c s.db (handle_action o s).db
handle_action-Returned o s c locked inward reusable out =
    let (detaches, to) = decide_return o c inward reusable out in
    rw (handle_action-move o s c locked registered to none (unfold decide in refl))
      (move-Returned o c (decision_for o c) s detaches out)
