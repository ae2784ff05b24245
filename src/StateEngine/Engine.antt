-- ===== src/StateEngine/Engine.antt =====
-- src/tasker_rfid/services/state_engine/service.py: one observation, handled in one transaction.
-- `Run` is the service object's counters beside the database it writes to.
use tasker_rfid.Prelude.{
  ℕ, ◌+◌, ◌-◌, String, Option, none, some, List, [], ◌∷◌, nat_eq, ltb, string_eq, ◌==◌,
  if◌then◌else◌, length,
}
use tasker_rfid.Schema.{
  Container, ObservationRow, Movement, Anomaly, Detail, unknown_tid_detail, decision_detail,
  short_pallet_detail, no_open_session, Db,
}
use tasker_rfid.StateEngine.Transitions.{
  Decision, decide, dispatched, unknown_tid, no_session, short_pallet,
}
use tasker_rfid.StateEngine.Store.{
  lock_container, container_tree, child_tids, children_seen, open_session, update_status,
  touch_container, insert_movement, insert_anomaly, detach_children, detached_rows, mark_processed,
}

-- Times are microseconds.
abbrev pub short_pallet_window : ℕ
short_pallet_window = 15_000_000

abbrev pub source_portal : String
source_portal = "PORTAL"

-- The counters of the `StateEngine` object.
pub record Counters : Type 0 where
  pub processed : ℕ
  pub movements : ℕ
  pub anomalies : ℕ
  pub no_ops : ℕ
  pub children_detached : ℕ

pub record Run : Type 0 where
  pub counters : Counters
  pub db : Db

abbrev pub on_db : (Db → Db) → Run → Run
on_db f s = record s { db = f s.db }

unfoldable pub record_anomaly : Anomaly → Run → Run
record_anomaly a s = record {
  counters = record s.counters { anomalies = s.counters.anomalies + 1 };
  db = insert_anomaly a s.db;
}

unfoldable pub portal_movement :
    (to : String) (portal : String) (session_id : Option ℕ) (at : ℕ) → Container → Movement
portal_movement to portal session_id at c = record {
  container_id = c.container_id;
  from_status = some c.status;
  to_status = to;
  portal = some portal;
  session_id = session_id;
  occurred_at = at;
  source = source_portal;
  reason = none;
  operator = none;
}

module _ (to_status : String) (portal : String) (session_id : Option ℕ) (at : ℕ) where
  -- The body of the `for` loop of move_container_tree, on the row that the query returned.
  unfoldable pub move_row : Container → Db → Db
  move_row row db =
      if row.status == to_status
      then touch_container at portal row.container_id db
      else insert_movement (portal_movement to_status portal session_id at row)
          (update_status to_status at portal row.container_id db)

  unfoldable pub move_rows : List Container → Db → Db
  move_rows [] db = db
  move_rows (row ∷ rows) db = move_rows rows (move_row row db)

  unfoldable pub count_moved : List Container → ℕ
  count_moved [] = 0
  count_moved (row ∷ rows) =
      let rest = count_moved rows in if row.status == to_status then rest else rest + 1

  unfoldable pub move_container_tree : (root_id : ℕ) → Run → Run
  move_container_tree root_id s =
      let tree = container_tree root_id s.db in
      record {
        counters = record s.counters { movements = s.counters.movements + count_moved tree };
        db = move_rows tree s.db;
      }

unfoldable pub return_reusable_container :
    (c : Container) (to_status : String) (portal : String) (at : ℕ) → Run → Run
return_reusable_container c to_status portal at s =
    let db =
      insert_movement (portal_movement to_status portal none at c)
        (update_status to_status at portal c.container_id s.db) in
    record {
      counters = record s.counters {
        movements = s.counters.movements + 1;
        children_detached = s.counters.children_detached + detached_rows c.container_id db;
      };
      db = detach_children c.container_id db;
    }

unfoldable pub short_pallet_anomaly :
    Container → ObservationRow → (declared children_read : ℕ) → Anomaly
short_pallet_anomaly c o declared children_read = record {
  tid = o.tid;
  container_id = some c.container_id;
  kind = short_pallet;
  detail = short_pallet_detail declared children_read (declared - children_read) o.portal;
  occurred_at = o.last_read;
}

unfoldable pub check_short_pallet : Container → ObservationRow → Run → Run
check_short_pallet c o s =
    let tids = child_tids c.container_id s.db in
    let children_read =
      children_seen o.portal tids o.first_read o.last_read short_pallet_window s.db in
    if length tids == 0
    then s
    else if ltb children_read (length tids)
    then record_anomaly (short_pallet_anomaly c o (length tids) children_read) s
    else s

unfoldable pub anomaly_of : ObservationRow → Option ℕ → String → Detail → Anomaly
anomaly_of o container_id kind detail = record {
  tid = o.tid;
  container_id = container_id;
  kind = kind;
  detail = detail;
  occurred_at = o.last_read;
}

-- The tail that three branches of `handle` share: touch the container, mark the observation.
unfoldable pub touch_and_mark : ObservationRow → Container → Run → Run
touch_and_mark o c =
    on_db (λ db. mark_processed o.id (touch_container o.last_read o.portal c.container_id db))

unfoldable pub refuse : ObservationRow → Container → String → Detail → Run → Run
refuse o c kind detail s =
    touch_and_mark o c (record_anomaly (anomaly_of o (some c.container_id) kind detail) s)

unfoldable pub move : ObservationRow → Container → Decision → String → Option ℕ → Run → Run
move o c decision to session_id s = on_db (mark_processed o.id) (
    if decision.detach_children
    then return_reusable_container c to o.portal o.last_read s
    else check_short_pallet c o
        (move_container_tree to o.portal session_id o.last_read c.container_id s))

-- A dispatch needs an open session; nothing else asks for one.
unfoldable pub move_in_session : ObservationRow → Container → Decision → String → Run → Run
move_in_session o c decision to s =
    if to == dispatched
    then elim (open_session s.db) [
      | none ↦
          refuse o c no_session (decision_detail o.portal o.direction c.status no_open_session) s
      | some session_id ↦ move o c decision to (some session_id) s
    ]
    else move o c decision to none s

-- A decision with no anomaly and no status to move to is `is_no_op`.
unfoldable pub apply_decision : ObservationRow → Container → Decision → Run → Run
apply_decision o c decision s = elim decision.anomaly [
  | some kind ↦ refuse o c kind (decision_detail o.portal o.direction c.status decision.reason) s
  | none ↦ elim decision.to_status [
    | none ↦
        touch_and_mark o c
          (record s { counters = record s.counters { no_ops = s.counters.no_ops + 1 } })
    | some to ↦ move_in_session o c decision to s
  ]
]

-- The transaction of `handle`.
unfoldable pub handle_action : ObservationRow → Run → Run
handle_action o s = elim (lock_container o.tid s.db) [
  | none ↦
      on_db (mark_processed o.id)
        (record_anomaly (anomaly_of o none unknown_tid (unknown_tid_detail o.portal o.direction)) s)
  | some c ↦ apply_decision o c (decide o.portal o.direction c.status c.reusable) s
]
