-- ===== src/Schema.antt =====
-- The tables of migrations/versions/0001_initial_schema.py (0004 adds two columns) that the
-- services below share. A table is the list of its rows in the order of the primary key.
use tasker_rfid.Prelude.{ℕ, String, Option, List, Bool}
use tasker_rfid.Prelude.Int.{ℤ}

pub record Container : Type 0 where
  pub container_id : ℕ
  pub tid : String
  pub kind : String
  pub parent_id : Option ℕ
  pub status : String
  pub reusable : Bool
  pub last_seen_at : Option ℕ
  pub last_portal : Option String

pub record ObservationRow : Type 0 where
  pub id : ℕ
  pub tid : String
  pub portal : String
  pub direction : Option String
  pub first_read : ℕ
  pub last_read : ℕ
  pub read_count : ℕ
  pub peak_rssi : Option ℤ
  pub processed : Bool

pub record DispatchSession : Type 0 where
  pub session_id : ℕ
  pub customer_id : Option String
  pub order_ref : Option String
  pub opened_at : ℕ
  pub closed_at : Option ℕ
  pub operator : Option String

pub record Movement : Type 0 where
  pub container_id : ℕ
  pub from_status : Option String
  pub to_status : String
  pub portal : Option String
  pub session_id : Option ℕ
  pub occurred_at : ℕ
  pub source : String
  pub reason : Option String
  pub operator : Option String

-- Why a decision was taken. The source formats a sentence for the log and for a person to read;
-- here each sentence is a constructor that holds the values put into it.
pub data Reason : Type 0 where
  unsaid arrived_into_stock already_in_stock : Reason
  returned_empty came_back_in just_dispatched : Reason
  read_at_exit_again never_booked_in no_open_session : Reason
  unrecognised_status : String → Reason
  exit_without_direction : Option String → Reason

-- The JSON objects that go into anomalies.detail, one constructor for each set of keys.
pub data Detail : Type 0 where
  unknown_tid_detail : (portal : String) (direction : Option String) → Detail
  decision_detail :
      (portal : String) (direction : Option String) (status : String) (reason : Reason) → Detail
  count_missing_detail : (cycle_id : ℕ) (last_portal : Option String) → Detail
  count_unexpected_detail : (cycle_id : ℕ) (status : String) → Detail
  short_pallet_detail : (declared_children children_read missing : ℕ) (portal : String) → Detail

pub record Anomaly : Type 0 where
  pub tid : String
  pub container_id : Option ℕ
  pub kind : String
  pub detail : Detail
  pub occurred_at : ℕ

pub record Db : Type 0 where
  pub containers : List Container
  pub observations : List ObservationRow
  pub dispatch_sessions : List DispatchSession
  pub movements : List Movement
  pub anomalies : List Anomaly
