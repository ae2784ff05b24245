-- ===== src/Sync/Tables.antt =====
-- src/tasker_rfid/services/sync/tables.py, and a row as the worker sees it: its key, the value of
-- the cursor column, the reference to its parent, and all else, which is only passed on.
use tasker_rfid.Prelude.{
  ℕ, String, Bool, true, false, Option, none, some, List, [], ◌∷◌, Eq, ◌==◌, if◌then◌else◌,
}

pub record SyncedTable : Type 0 where
  pub name : String
  pub by_id : Bool
  pub self_referencing : Bool

unfoldable pub cursor_column : SyncedTable → String
cursor_column table = if table.by_id then "id" else "updated_at"

abbrev pub by_updated_at : String → SyncedTable
by_updated_at name = record { name = name; by_id = false; self_referencing = false }

abbrev pub by_serial : String → SyncedTable
by_serial name = record { name = name; by_id = true; self_referencing = false }

abbrev pub synced_tables : List SyncedTable
synced_tables =
    by_updated_at "skus"
    ∷ by_updated_at "customers"
    ∷ record (by_updated_at "containers") { self_referencing = true }
    ∷ by_updated_at "container_contents"
    ∷ by_updated_at "dispatch_sessions"
    ∷ by_updated_at "cycle_counts"
    ∷ by_updated_at "cycle_count_items"
    ∷ by_serial "movements"
    ∷ by_updated_at "anomalies"
    ∷ by_updated_at "observations"
    ∷ by_serial "gate_events"
    ∷ by_serial "reads_raw"
    ∷ []

-- `position` is row[table.cursor_column]: an id, or a time in microseconds since the epoch.
pub record Row (K A : Type 0) : Type 0 where
  pub key : K
  pub position : ℕ
  pub parent_id : Option K
  pub rest : A

-- A row of sync_cursor.
pub record Cursor : Type 0 where
  pub last_id : ℕ
  pub last_updated_at : ℕ
  pub rows_synced : ℕ

-- NEVER_SYNCED
abbrev pub never_synced : ℕ
never_synced = 0

-- One table of the replica, with its row of sync_cursor. The order of its rows means nothing.
pub record Replica (K A : Type 0) : Type 0 where
  pub rows : List (Row K A)
  pub cursor : Option Cursor

module _ {K A : Type 0} ⦃e : Eq K⦄ where
  -- The row with a key, if there is one.
  unfoldable pub row_at : K → List (Row K A) → Option (Row K A)
  row_at k [] = none
  row_at k (r ∷ rs) = if r.key == k then some r else row_at k rs
