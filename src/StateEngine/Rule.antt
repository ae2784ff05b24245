-- ===== src/StateEngine/Rule.antt =====
-- A proof rule for `handle` of state_engine/service.py: what holds of the database before a
-- transaction, and is kept by each statement it runs, holds after it.
use tasker_rfid.Prelude.{
  ℕ, String, ◌≡◌, ◌≢◌, sym, Bool, true, Option, none, some, List, [], ◌∷◌, arith, string_eq, ◌==◌,
  if_ind, true≢false, nat_eq, length, ltb, eq_iff, Option-cases, Bool-cases, inl, inr, ◌∙◌, ◌⊎◌,
}
use tasker_rfid.Schema.{Container, ObservationRow, Detail, Anomaly, Db}
use tasker_rfid.StateEngine.Transitions.{Decision, decide, registered, dispatched}
use tasker_rfid.StateEngine.Store.{
  update_status, touch_container, insert_movement, insert_anomaly, detach_children, mark_processed,
  lock_container, open_session, container_tree, child_tids, children_seen,
}
use tasker_rfid.StateEngine.Engine.{
  Run, move_row, move_rows, move_container_tree, return_reusable_container, check_short_pallet,
  record_anomaly, touch_and_mark, refuse, move, move_in_session, apply_decision, handle_action,
  portal_movement, short_pallet_anomaly, short_pallet_window,
}

-- Each statement keeps `P`; a movement to DISPATCHED may be assumed to carry a session.
pub record Rule (P : Db → Type 0) : Type 0 where
  pub touched :
      (at : ℕ) (portal : String) (id : ℕ) (db : Db) → P db → P (touch_container at portal id db)
  pub marked : (id : ℕ) (db : Db) → P db → P (mark_processed id db)
  pub detached : (id : ℕ) (db : Db) → P db → P (detach_children id db)
  pub recorded : (a : Anomaly) (db : Db) → P db → P (insert_anomaly a db)
  pub moved :
      (to portal : String) (session_id : Option ℕ) (at : ℕ) (row : Container) (db : Db)
      → (to ≡ dispatched → session_id ≢ none)
      → P db
      → P (
          insert_movement
            (portal_movement to portal session_id at row)
            (update_status to at portal row.container_id db))

-- A decision that detaches moves to REGISTERED.
decide_detached :
    (portal : String) (direction : Option String) (status : String) (reusable : Bool) (to : String)
    → (decide portal direction status reusable).to_status ≡ some to
    → (decide portal direction status reusable).detach_children ≡ true
    → to ≡ registered
unfolding decide
decide_detached portal direction status reusable to h k = ground arith

registered≢dispatched : registered ≢ dispatched
registered≢dispatched e = ground (arith, eq_iff registered dispatched)

-- The check does nothing, or records one anomaly.
pub check_short_pallet_cases :
    (c : Container) (o : ObservationRow) (s : Run)
    → (check_short_pallet c o s ≡ s)
      ⊎ ((a : Anomaly) × (check_short_pallet c o s ≡ record_anomaly a s))
unfolding check_short_pallet
check_short_pallet_cases c o s =
    let tids = child_tids c.container_id s.db in
    let children_read =
      children_seen o.portal tids o.first_read o.last_read short_pallet_window s.db in
    elim (Bool-cases (length tids == 0)) [
      | inl e ↦ inl (rw e)
      | inr e ↦ elim (Bool-cases (ltb children_read (length tids))) [
        | inl f ↦ inr (short_pallet_anomaly c o (length tids) children_read, rw (e, f))
        | inr f ↦ inl (rw (e, f))
      ]
    ]

abbrev After : (Db → Type 0) → Run → Type 0
After P s = P s.db

module _ {P : Db → Type 0} (rule : Rule P) where
  move_row-keeps :
      (to portal : String) (session_id : Option ℕ) (at : ℕ)
      → (to ≡ dispatched → session_id ≢ none)
      → (row : Container) (db : Db) → P db
      → P (move_row to portal session_id at row db)
  unfolding move_row
  move_row-keeps to portal session_id at legal row db p =
      if_ind P (row.status == to) (λ _. rule.touched at portal row.container_id db p)
        (λ _. rule.moved to portal session_id at row db legal p)

  move_rows-keeps :
      (to portal : String) (session_id : Option ℕ) (at : ℕ)
      → (to ≡ dispatched → session_id ≢ none)
      → (rows : List Container) (db : Db) → P db
      → P (move_rows to portal session_id at rows db)
  unfolding move_rows
  move_rows-keeps to portal session_id at legal [] db p = p
  move_rows-keeps to portal session_id at legal (row ∷ rows) db p =
      move_rows-keeps to portal session_id at legal rows (move_row to portal session_id at row db)
        (move_row-keeps to portal session_id at legal row db p)

  check_short_pallet-keeps :
      (c : Container) (o : ObservationRow) (s : Run) → P s.db → P (check_short_pallet c o s).db
  unfolding record_anomaly
  check_short_pallet-keeps c o s p = elim (check_short_pallet_cases c o s) [
    | inl e ↦ rw e p
    | inr (a, e) ↦ rw e (rule.recorded a s.db p)
  ]

  touch_and_mark-keeps :
      (o : ObservationRow) (c : Container) (s : Run) → P s.db → P (touch_and_mark o c s).db
  unfolding touch_and_mark
  touch_and_mark-keeps o c s p =
      rule.marked o.id _ (rule.touched o.last_read o.portal c.container_id s.db p)

  refuse-keeps :
      (o : ObservationRow) (c : Container) (kind : String) (detail : Detail) (s : Run)
      → P s.db
      → P (refuse o c kind detail s).db
  unfolding refuse record_anomaly
  refuse-keeps o c kind detail s p = touch_and_mark-keeps o c _ (rule.recorded _ s.db p)

  return-keeps :
      (c : Container) (to portal : String) (at : ℕ) (s : Run)
      → to ≢ dispatched
      → P s.db
      → P (return_reusable_container c to portal at s).db
  unfolding return_reusable_container
  return-keeps c to portal at s other p =
      rule.detached c.container_id _ (rule.moved to portal none at c s.db (λ e. absurd (other e)) p)

  tree-keeps :
      (to portal : String) (session_id : Option ℕ) (at root_id : ℕ) (s : Run)
      → (to ≡ dispatched → session_id ≢ none)
      → P s.db
      → P (move_container_tree to portal session_id at root_id s).db
  unfolding move_container_tree
  tree-keeps to portal session_id at root_id s legal p =
      move_rows-keeps to portal session_id at legal (container_tree root_id s.db) s.db p

  module _ (o : ObservationRow) (c : Container) (d : Decision) (to : String)
      (other : d.detach_children ≡ true → to ≢ dispatched) (s : Run) (p : P s.db) where
    move-keeps :
        (session_id : Option ℕ)
        → (to ≡ dispatched → session_id ≢ none)
        → P (move o c d to session_id s).db
    unfolding move
    move-keeps session_id legal = rule.marked o.id _ (
        if_ind (After P) d.detach_children
          (λ e. return-keeps c to o.portal o.last_read s (other e) p)
          (λ _.
            check_short_pallet-keeps c o _
              (tree-keeps to o.portal session_id o.last_read c.container_id s legal p)))

    move_in_session-keeps : P (move_in_session o c d to s).db
    unfolding move_in_session
    move_in_session-keeps =
        if_ind (After P) (to == dispatched)
          (λ _. elim (Option-cases (open_session s.db)) [
            | inl e ↦ rw e (refuse-keeps o c _ _ s p)
            | inr (id, e) ↦ rw e (move-keeps (some id) (λ _. λ q. cc))
          ])
          (λ e. move-keeps none (λ q. absurd (true≢false (sym ((eq_iff to dispatched).1 q) ∙ e))))

  apply_decision-keeps :
      (o : ObservationRow) (c : Container) (d : Decision) (s : Run)
      → ((to : String) → d.to_status ≡ some to → d.detach_children ≡ true → to ≢ dispatched)
      → P s.db
      → P (apply_decision o c d s).db
  unfolding apply_decision
  apply_decision-keeps o c d s other p = elim (Option-cases d.anomaly) [
    | inr (kind, e) ↦ rw (e, apply_decision) (refuse-keeps o c kind _ s p)
    | inl e ↦ elim (Option-cases d.to_status) [
      | inl f ↦ rw (e, f, apply_decision) (touch_and_mark-keeps o c _ p)
      | inr (to, f) ↦ rw (e, f, apply_decision) (move_in_session-keeps o c d to (other to f) s p)
    ]
  ]

  pub handle_action-keeps : (o : ObservationRow) (s : Run) → P s.db → P (handle_action o s).db
  unfolding handle_action record_anomaly
  handle_action-keeps o s p = elim (Option-cases (lock_container o.tid s.db)) [
    | inl e ↦ rw (e, handle_action) (rule.marked o.id _ (rule.recorded _ s.db p))
    | inr (c, e) ↦
        rw (e, handle_action)
          (apply_decision-keeps o c (decide o.portal o.direction c.status c.reusable) s
            (λ to f g q. absurd (
              registered≢dispatched
                (sym (decide_detached o.portal o.direction c.status c.reusable to f g) ∙ q)))
            p)
  ]
