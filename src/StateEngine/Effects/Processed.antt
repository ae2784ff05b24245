-- ===== src/StateEngine/Effects/Processed.antt =====
-- Every branch of `handle` marks its observation processed, and no other.
use tasker_rfid.Prelude.{
  ℕ, String, ◌≡◌, refl, ap, ◌∙◌, true, Option, none, some, List, [], ◌∷◌, map, arith, if◌then◌else◌,
  Bool-cases, Option-cases, inl, inr, nat_eq, string_eq, ◌==◌,
}
use tasker_rfid.Schema.{Container, ObservationRow, Detail, decision_detail, no_open_session, Db}
use tasker_rfid.StateEngine.Transitions.{Decision, decide, no_session}
use tasker_rfid.StateEngine.Store.{
  update_status, touch_container, insert_movement, insert_anomaly, detach_children, mark_processed,
  lock_container, open_session, container_tree,
}
use tasker_rfid.StateEngine.Engine.{
  Run, move_row, move_rows, move_container_tree, return_reusable_container, check_short_pallet,
  record_anomaly, touch_and_mark, refuse, move, move_in_session, apply_decision, handle_action,
}
use tasker_rfid.StateEngine.Rule.{check_short_pallet_cases}

abbrev pub marked : ObservationRow → List ObservationRow → List ObservationRow
marked o = map (λ p. if p.id == o.id then record p { processed = true } else p)

observations-check_short_pallet :
    (c : Container) (o : ObservationRow) (s : Run)
    → (check_short_pallet c o s).db.observations ≡ s.db.observations
unfolding record_anomaly insert_anomaly
observations-check_short_pallet c o s = elim (check_short_pallet_cases c o s) [
  | inl e ↦ rw e
  | inr (a, e) ↦ rw e
]

observations-move_rows :
    (to portal : String) (session_id : Option ℕ) (at : ℕ) (rows : List Container) (db : Db)
    → (move_rows to portal session_id at rows db).observations ≡ db.observations
unfolding move_rows move_row touch_container update_status insert_movement
observations-move_rows to portal session_id at [] db = refl
observations-move_rows to portal session_id at (row ∷ rows) db =
    observations-move_rows to portal session_id at rows (move_row to portal session_id at row db)
    ∙ ground arith

module _ (o : ObservationRow) (c : Container) (s : Run) where
  observations-refuse :
      (kind : String) (detail : Detail)
      → (refuse o c kind detail s).db.observations ≡ marked o s.db.observations
  unfolding refuse touch_and_mark record_anomaly insert_anomaly touch_container mark_processed
  observations-refuse kind detail = refl

  observations-move :
      (d : Decision) (to : String) (session_id : Option ℕ)
      → (move o c d to session_id s).db.observations ≡ marked o s.db.observations
  unfolding move return_reusable_container move_container_tree detach_children insert_movement
      update_status mark_processed
  observations-move d to session_id = elim (Bool-cases d.detach_children) [
    | inl e ↦ rw e
    | inr e ↦ rw e (
        ap (marked o) (
          observations-check_short_pallet c o _
          ∙ observations-move_rows to o.portal session_id o.last_read
              (container_tree c.container_id s.db) s.db))
  ]

  observations-move_in_session :
      (d : Decision) (to : String)
      → (move_in_session o c d to s).db.observations ≡ marked o s.db.observations
  unfolding move_in_session
  observations-move_in_session d to = elim (Option-cases (open_session s.db)) [
    | inl e ↦ ground (
      arith,
      observations-move d to none,
      observations-refuse no_session
          (decision_detail o.portal o.direction c.status no_open_session),
    )
    | inr (id, e) ↦ ground (arith, observations-move d to none, observations-move d to (some id))
  ]

-- Whatever the branch, handling an observation marks the rows with its id processed and leaves
-- every other observation as it was.
pub handle_action-marked :
    (o : ObservationRow) (s : Run)
    → (handle_action o s).db.observations ≡ marked o s.db.observations
unfolding handle_action apply_decision touch_and_mark record_anomaly insert_anomaly touch_container
    mark_processed
handle_action-marked o s = elim (Option-cases (lock_container o.tid s.db)) [
  | inl e ↦ rw (e, handle_action)
  | inr (c, e) ↦
      let d = decide o.portal o.direction c.status c.reusable in
      elim (Option-cases d.anomaly) [
        | inr (kind, f) ↦ ground (
          arith,
          observations-refuse o c s kind (decision_detail o.portal o.direction c.status d.reason),
        )
        | inl f ↦ elim (Option-cases d.to_status) [
          | inl g ↦ ground arith
          | inr (to, g) ↦ ground (arith, observations-move_in_session o c s d to)
        ]
      ]
]
