-- ===== src/StateEngine/Effects.antt =====
-- What `handle` of state_engine/service.py does to the stock, branch by branch.
use mathlib.Core.List.{map-map}
pub mod Processed
pub mod Again
pub mod Repeat
pub mod Returning
pub mod Still
use mathlib.Core.Path.{fun_ext}
use tasker_rfid.Prelude.{
  ℕ, ◌+◌, String, ◌≡◌, ◌≢◌, refl, sym, ap, subst, ◌∙◌, Bool, true, false, Option, none, some, List,
  [], ◌∷◌, ◌++◌, map, arith, nat_eq, string_eq, ◌==◌, if◌then◌else◌, Option-cases, Bool-cases, inl,
  inr, ◌⊎◌, if_ind, length, eq_iff, holds,
}
use tasker_rfid.Schema.{
  Container, ObservationRow, Movement, Anomaly, Detail, Db, unknown_tid_detail,
}
use tasker_rfid.StateEngine.Transitions.{
  Decision, decide, dispatched, registered, unknown_tid, no_session,
}
use tasker_rfid.StateEngine.Store.{
  seen, update_where, update_status, touch_container, insert_movement, insert_anomaly,
  detach_children, mark_processed, lock_container, open_session, container_tree,
}
use tasker_rfid.StateEngine.Engine.{
  Run, move_container_tree, return_reusable_container, check_short_pallet, record_anomaly,
  anomaly_of, touch_and_mark, refuse, move, move_in_session, apply_decision, handle_action,
  portal_movement,
}
use tasker_rfid.StateEngine.Rule.{check_short_pallet_cases}
use tasker_rfid.StateEngine.Tree.{
  Keyed, arrived, movements_of, containers-move_container_tree, movements-move_container_tree,
}

abbrev pub decision_for : ObservationRow → Container → Decision
decision_for o c = decide o.portal o.direction c.status c.reusable

-- The session that a move to a status is written under; `none` where it needs one and none is open.
abbrev pub session_for : Db → String → Option (Option ℕ)
session_for db to =
    if to == dispatched
    then (elim (open_session db) [ none ↦ none | some id ↦ some (some id) ])
    else some none

-- A decision that moves and does not detach raises no anomaly.
decide_moves :
    (portal : String) (direction : Option String) (status : String) (reusable : Bool) (to : String)
    → (decide portal direction status reusable).to_status ≡ some to
    → (decide portal direction status reusable).anomaly ≡ none
unfolding decide
decide_moves portal direction status reusable to h = ground arith

containers-check_short_pallet :
    (c : Container) (o : ObservationRow) (s : Run)
    → (check_short_pallet c o s).db.containers ≡ s.db.containers
unfolding record_anomaly insert_anomaly
containers-check_short_pallet c o s = elim (check_short_pallet_cases c o s) [
  | inl e ↦ rw e
  | inr (a, e) ↦ rw e
]

movements-check_short_pallet :
    (c : Container) (o : ObservationRow) (s : Run)
    → (check_short_pallet c o s).db.movements ≡ s.db.movements
unfolding record_anomaly insert_anomaly
movements-check_short_pallet c o s = elim (check_short_pallet_cases c o s) [
  | inl e ↦ rw e
  | inr (a, e) ↦ rw e
]

apply_decision-moves :
    (o : ObservationRow) (c : Container) (d : Decision) (s : Run) (to : String)
    → d.anomaly ≡ none
    → d.to_status ≡ some to
    → apply_decision o c d s ≡ move_in_session o c d to s
unfolding apply_decision
apply_decision-moves o c d s to e f = ground arith

move_in_session-move :
    (o : ObservationRow) (c : Container) (d : Decision) (s : Run) (to : String)
    (session_id : Option ℕ)
    → session_for s.db to ≡ some session_id
    → move_in_session o c d to s ≡ move o c d to session_id s
unfolding move_in_session
move_in_session-move o c d s to session_id e = ground arith

-- The ways out of `handle` for a container that is known.
module _ (o : ObservationRow) (s : Run) (c : Container)
    (locked : lock_container o.tid s.db ≡ some c) where
  pub handle_action-known : handle_action o s ≡ apply_decision o c (decision_for o c) s
  unfolding handle_action
  handle_action-known = rw (locked, handle_action)

  module _ (to : String) (d : (decision_for o c).to_status ≡ some to) where
    pub handle_action-in_session : handle_action o s ≡ move_in_session o c (decision_for o c) to s
    handle_action-in_session =
        handle_action-known
        ∙ apply_decision-moves o c (decision_for o c) s to
            (decide_moves o.portal o.direction c.status c.reusable to d) d

    pub handle_action-move :
        (session_id : Option ℕ)
        → session_for s.db to ≡ some session_id
        → handle_action o s ≡ move o c (decision_for o c) to session_id s
    handle_action-move session_id e =
        handle_action-in_session ∙ move_in_session-move o c (decision_for o c) s to session_id e

-- A load has arrived: the containers of `tree` stand at the target status, seen at the portal,
-- every other container is as it was, and one movement is written for each that was not there.
pub record Arrived (to portal : String) (session_id : Option ℕ) (at : ℕ) (tree : List Container)
    (before after : Db) : Type 0 where
  pub stock : after.containers ≡ map (arrived to portal session_id at tree) before.containers
  pub ledger : after.movements ≡ before.movements ++ movements_of to portal session_id at tree

move-Arrived :
    (o : ObservationRow) (c : Container) (d : Decision) (s : Run) (to : String)
    (session_id : Option ℕ)
    → Keyed s.db.containers
    → d.detach_children ≡ false
    → Arrived to o.portal session_id o.last_read
        (container_tree c.container_id s.db)
        s.db
        (move o c d to session_id s).db
unfolding move mark_processed
move-Arrived o c d s to session_id keyed e = rw e (record {
  stock =
      containers-check_short_pallet c o _
      ∙ containers-move_container_tree to o.portal session_id o.last_read c.container_id s keyed;
  ledger =
      movements-check_short_pallet c o _
      ∙ movements-move_container_tree to o.portal session_id o.last_read c.container_id s;
})

-- If a read of a known container decides a move that is no return, and the session that the move
-- needs is open, then afterwards the container and all that the tree query finds on it stand at
-- the target status, every other container is as it was, and one movement is written for each
-- container of the tree that was not there yet, under that session.
pub handle_action-Arrived :
    (o : ObservationRow) (s : Run) (c : Container) (to : String) (session_id : Option ℕ)
    → Keyed s.db.containers
    → lock_container o.tid s.db ≡ some c
    → (decision_for o c).to_status ≡ some to
    → (decision_for o c).detach_children ≡ false
    → session_for s.db to ≡ some session_id
    → Arrived to o.portal session_id o.last_read
        (container_tree c.container_id s.db)
        s.db
        (handle_action o s).db
handle_action-Arrived o s c to session_id keyed locked d e covered =
    rw (handle_action-move o s c locked to d session_id covered)
      (move-Arrived o c (decision_for o c) s to session_id keyed e)
