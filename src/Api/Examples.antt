-- ===== src/Api/Examples.antt =====
-- Requests on which the theorems about the API are applied.

use tasker_rfid.Prelude.{
  ℕ, ◌≤◌, ◌≡◌, ◌≢◌, refl, true, false, none, some, [], ◌∷◌, ◌++◌, select, length, nat_eq, string_eq,
  ◌==◌, arith, eq_iff, sym, true≢false,
}
use tasker_rfid.Prelude.Dict.{insert}
use tasker_rfid.Prelude.Results.{ok}
use tasker_rfid.Schema.{Container, DispatchSession}
use tasker_rfid.StateEngine.Store.{lock_container, open_in, latest, tree_below, distinct}
use tasker_rfid.StateEngine.Corrections.{
  apply_manual_correction, required, check_target_status, correct_row,
}
use tasker_rfid.Api.{Tables}
use tasker_rfid.Api.Sessions.{
  NewDispatchSession, check_dock, insert_session, open_session, session_by_id, close_session,
}
use tasker_rfid.Api.Sessions.Dock.{open_sessions, open_session-open_in}
use tasker_rfid.Api.Sessions.Race.{Raced, open_session_twice}
use tasker_rfid.Api.Sessions.Closing.{close_session-open_in}
use tasker_rfid.Api.Containers.{
  NewContainer, container_by_tid, require_container, parent_for, check_skus, insert_container,
  register_container, attach_children,
}
use tasker_rfid.Api.Containers.Endless.{attach_children_both_ways}
use tasker_rfid.Api.Containers.Registry.{IsRegistered, register_container-IsRegistered}
use tasker_rfid.Api.Counts.{
  require_open_count, expected, scanned_tids, missing, unexpected_tids, missing_item, missing_items,
  missing_anomaly, unexpected_anomaly, VarianceReport, close_count,
}
use tasker_rfid.Api.Counts.Variance.{IsReported, close_count-IsReported}
use tasker_rfid.Api.Queue.{
  QueuedAnomaly, Queue, ResolveAnomaly, anomaly_by_id, require_unresolved, correct, put_right,
  resolve,
}
use tasker_rfid.Api.Queue.Resolving.{IsResolved, resolve-IsResolved}

abbrev box : Container
box = record {
  container_id = 1;
  tid = "BOX";
  kind = "BOX";
  parent_id = none;
  status = "IN_STOCK";
  reusable = false;
  last_seen_at = none;
  last_portal = none;
}

abbrev pallet : Container
pallet = record box { container_id = 2; tid = "PALLET"; kind = "PALLET"; reusable = true }

abbrev tables : Tables
tables = record {
  db = record {
    containers = box ∷ pallet ∷ [];
    observations = [];
    dispatch_sessions = [];
    movements = [];
    anomalies = [];
  };
  customers = "CUST" ∷ [];
  skus = "CONE" ∷ [];
  container_contents = [];
  cycle_counts =
      record { cycle_id = 1; started_at = 0; finished_at = none; operator = none; notes = none }
      ∷ [];
  cycle_count_items =
      record { cycle_id = 1; tid = "BOX"; found = true }
      ∷ record { cycle_id = 1; tid = "STRAY"; found = true }
      ∷ [];
}

abbrev order : NewDispatchSession
order = record { customer_id = "CUST"; order_ref = none; operator = none }

abbrev opened : DispatchSession × Tables
opened = insert_session order 7 100 tables

opening : open_session order 7 100 tables ≡ ok opened
unfolding open_session check_dock open_in latest
opening = refl

open_session-open_in_example :
    (open_sessions opened.1.db.dispatch_sessions ≡ opened.0 ∷ [])
    × (open_in opened.1.db.dispatch_sessions ≡ some 7)
open_session-open_in_example = open_session-open_in order 7 100 tables opened opening

abbrev shut : DispatchSession
shut = record {
  session_id = 7;
  customer_id = some "CUST";
  order_ref = none;
  opened_at = 100;
  closed_at = some 200;
  operator = none;
}

abbrev after_close : Tables
after_close = record tables { db = record tables.db { dispatch_sessions = shut ∷ [] } }

closing : close_session 7 200 opened.1 ≡ ok after_close
unfolding close_session session_by_id insert_session
closing = refl

one_is_open : length (open_sessions opened.1.db.dispatch_sessions) ≤ 1
unfolding insert_session
one_is_open = omega arith

close_session-open_in_example :
    (open_sessions after_close.db.dispatch_sessions ≡ [])
    × (open_in after_close.db.dispatch_sessions ≡ none)
close_session-open_in_example = close_session-open_in 7 200 opened.1 after_close one_is_open closing

dock_is_free : open_in tables.db.dispatch_sessions ≡ none
unfolding open_in latest
dock_is_free = refl

open_session_twice_example : Raced order order 7 8 100 101 tables
open_session_twice_example =
    open_session_twice order order 7 8 100 101 tables dock_is_free refl refl (omega arith)

box_found : container_by_tid "BOX" tables ≡ some box
unfolding lock_container
box_found = refl

pallet_found : container_by_tid "PALLET" tables ≡ some pallet
unfolding lock_container
pallet_found = refl

other_tids : box.tid ≢ pallet.tid
other_tids e = true≢false (sym ((eq_iff "BOX" "PALLET").1 e))

attach_children_both_ways_example :
    (once : Tables) × (twice : Tables) × (attach_children "BOX" ("PALLET" ∷ []) tables ≡ ok once)
    × (attach_children "PALLET" ("BOX" ∷ []) once ≡ ok twice)
    × ((n : ℕ)
        → n
          ≤ length (tree_below n twice.db (select (λ c. c.container_id == 1) twice.db.containers)))
attach_children_both_ways_example =
    attach_children_both_ways tables box pallet box_found pallet_found refl refl other_tids

abbrev tote : NewContainer
tote = record {
  tid = "TOTE";
  kind = "TOTE";
  reusable = true;
  parent_tid = some "PALLET";
  contents =
      record { sku_id = "CONE"; quantity = 24; lot = none; produced_at = none; expiry = none } ∷ [];
}

registering : register_container tote 3 tables ≡ ok (insert_container tote (some 2) 3 tables)
unfolding register_container parent_for check_skus require_container lock_container
registering = refl

register_container-IsRegistered_example :
    IsRegistered tote tables
      (insert_container tote (some 2) 3 tables).0
      (insert_container tote (some 2) 3 tables).1
register_container-IsRegistered_example =
    register_container-IsRegistered tote 3 tables (insert_container tote (some 2) 3 tables)
      registering

abbrev report : VarianceReport
report = record {
  expected = 2;
  found = 1;
  missing = pallet ∷ [];
  unexpected = "STRAY" ∷ [];
  anomalies_raised = 2;
}

abbrev counted : Tables
counted = record tables {
  db = record tables.db {
    anomalies = missing_anomaly 1 9 pallet ∷ unexpected_anomaly 1 9 tables "STRAY" ∷ [];
  };
  cycle_counts =
      record { cycle_id = 1; started_at = 0; finished_at = some 9; operator = none; notes = none }
      ∷ [];
  cycle_count_items =
      tables.cycle_count_items ++ record { cycle_id = 1; tid = "PALLET"; found = false } ∷ [];
}

counting : close_count 1 9 tables ≡ ok (report, counted)
unfolding close_count require_open_count expected scanned_tids distinct missing unexpected_tids
    missing_items missing_item missing_anomaly unexpected_anomaly lock_container
counting = refl

close_count-IsReported_example : IsReported 1 9 tables (report, counted)
close_count-IsReported_example = close_count-IsReported 1 9 tables (report, counted) counting

abbrev anomaly : QueuedAnomaly
anomaly = record {
  id = 5;
  tid = some "BOX";
  container_id = some 1;
  detail = [];
  resolved = false;
  resolved_by = none;
  resolved_at = none;
}

abbrev queue : Queue
queue = record { db = tables.db; anomalies = anomaly ∷ [] }

abbrev decision : ResolveAnomaly
decision = record {
  resolved_by = "mlopez";
  note = some "went out unread";
  correct_to_status = some "DISPATCHED";
}

abbrev resolved_queue : Queue
resolved_queue = record {
  db = (correct_row box "DISPATCHED" "went out unread" "mlopez" 9 tables.db).1;
  anomalies =
      record anomaly {
        resolved = true;
        resolved_by = some "mlopez";
        resolved_at = some 9;
        detail =
            ("resolution_note", "went out unread")
            ∷ ("corrected_to", "DISPATCHED")
            ∷ ("corrected_from", "IN_STOCK")
            ∷ [];
      }
      ∷ [];
}

resolving : resolve 5 decision "otherwise" 9 queue ≡ ok resolved_queue
unfolding resolve require_unresolved anomaly_by_id put_right correct apply_manual_correction
    lock_container required check_target_status correct_row insert
resolving = refl

resolve-IsResolved_example : IsResolved 5 decision "otherwise" 9 queue resolved_queue
resolve-IsResolved_example =
    resolve-IsResolved 5 decision "otherwise" 9 queue resolved_queue resolving
