-- ===== src/Sync/Cycle.antt =====
-- `sync_table`, `run_once` and `run` of src/tasker_rfid/services/sync/service.py.
use tasker_rfid.Prelude.{
  ℕ, ◌+◌, ◌*◌, String, Bool, true, false, Option, none, some, List, [], ◌∷◌, ◌++◌, map, not, ◌&&◌,
  ltb, nat_eq, string_eq, Eq, ◌==◌, if◌then◌else◌, length, select, elem,
}
use tasker_rfid.Prelude.Results.{Result, ok, err}
use tasker_rfid.Sync.Tables.{SyncedTable, Row, Cursor, Replica, never_synced, synced_tables}
use tasker_rfid.Sync.Read.{read_batch}
use tasker_rfid.Sync.Write.{send_batch}

-- LocalDatabaseError, CloudDatabaseError, and the RuntimeError of a schema that lacks tables.
pub data Failure : Type 0 where
  local_failed cloud_failed : Failure
  missing_tables : List String → Failure

-- How the transaction of send_batch ends: it commits; a row came before one that it points at; it is
-- rolled back; or it commits and the answer is lost.
pub data Delivery : Type 0 where
  committed foreign_key_violation rolled_back unacknowledged : Delivery

-- What the two databases do while one table is copied.
pub record Weather : Type 0 where
  pub position_readable : Bool
  pub local_readable : Bool
  pub delivery : Delivery

pub record TableProgress : Type 0 where
  pub rows : ℕ
  pub caught_up : Bool

unfoldable pub cursor_value_of : SyncedTable → Option Cursor → ℕ
cursor_value_of table none = never_synced
cursor_value_of table (some c) = if table.by_id then c.last_id else c.last_updated_at

-- What is left in the replica, and what the caller gets.
abbrev pub Step : Type 0 → Type 0 → Type 0
Step K A = Replica K A × Result Failure TableProgress

-- The databases, by the names of the tables.
abbrev pub Locals : Type 0 → Type 0 → Type 0
Locals K A = String → List (Row K A)

abbrev pub Replicas : Type 0 → Type 0 → Type 0
Replicas K A = String → Replica K A

abbrev pub update : {K A : Type 0} → String → Replica K A → Replicas K A → Replicas K A
update name replica clouds other = if other == name then replica else clouds other

-- What happens around each table: whether a stop is asked for first, and the weather.
pub record Turn : Type 0 where
  pub stopping : Bool
  pub weather : Weather

module _ {K A : Type 0} ⦃e : Eq K⦄ (batch : ℕ) where
  unfoldable pub deliver : Delivery → SyncedTable → List (Row K A) → Replica K A → Step K A
  deliver committed table rows cloud = (
    send_batch table rows cloud,
    ok (record { rows = length rows; caught_up = ltb (length rows) batch }),
  )
  deliver foreign_key_violation table rows cloud =
      (cloud, ok (record { rows = 0; caught_up = true }))
  deliver rolled_back table rows cloud = (cloud, err cloud_failed)
  deliver unacknowledged table rows cloud = (send_batch table rows cloud, err cloud_failed)

  -- `if not rows`
  unfoldable pub send : Delivery → SyncedTable → List (Row K A) → Replica K A → Step K A
  unfolding deliver
  send delivery table [] cloud = (cloud, ok (record { rows = 0; caught_up = true }))
  send delivery table (r ∷ rs) cloud = deliver delivery table (r ∷ rs) cloud

  unfoldable pub sync_table : Weather → SyncedTable → List (Row K A) → Replica K A → Step K A
  unfolding cursor_value_of
  sync_table weather table local cloud =
      if not weather.position_readable
      then (cloud, err cloud_failed)
      else if not weather.local_readable
      then (cloud, err local_failed)
      else send weather.delivery table
          (read_batch batch table (cursor_value_of table cloud.cursor) local) cloud

  unfoldable pub run_once :
      (String → Turn)
      → List SyncedTable
      → Locals K A
      → Bool
      → Replicas K A
      → Replicas K A × Result Failure Bool
  run_once turns [] locals caught_up clouds = (clouds, ok caught_up)
  run_once turns (table ∷ tables) locals caught_up clouds =
      if (turns table.name).stopping
      then (clouds, ok caught_up)
      else (let (replica, outcome) =
            sync_table (turns table.name).weather table (locals table.name) (clouds table.name) in
          let clouds' = update table.name replica clouds in
          elim outcome [
            | err failure ↦ (clouds', err failure)
            | ok progress ↦ run_once turns tables locals (caught_up && progress.caught_up) clouds'
          ])

-- RETRY_INITIAL_S and RETRY_MAX_S, in microseconds.
abbrev pub retry_initial : ℕ
retry_initial = 2_000_000

abbrev pub retry_max : ℕ
retry_max = 60_000_000

-- expected - present; the source sorts the names for its message.
unfoldable pub missing_from : (present : List String) → List String
missing_from present =
    select (λ name. not (elem name present)) (map (λ t. t.name) synced_tables ++ "sync_cursor" ∷ [])

unfoldable pub check_cloud_schema : (present : List String) → Result Failure (Unit {0})
unfolding missing_from
check_cloud_schema present = elim (missing_from present) [
  | [] ↦ ok tt
  | t ∷ ts ↦ err (missing_tables (t ∷ ts))
]

-- The variables of the loop of `run`, without the times of its statistics.
pub record Loop : Type 0 where
  pub delay : ℕ
  pub announced_outage : Bool
  pub cycles : ℕ

-- One turn of the loop, by how it ended: the time slept, and what the loop has then.
unfoldable pub after_cycle : Result Failure Bool → Loop → ℕ × Loop
after_cycle (ok caught_up) l = (
  if caught_up then 5_000_000 else 0,
  record { delay = retry_initial; announced_outage = false; cycles = l.cycles + 1 },
)
after_cycle (err failure) l = (
  l.delay,
  record l {
    delay = if ltb retry_max (l.delay * 2) then retry_max else l.delay * 2;
    announced_outage = true;
  },
)

-- One turn of `run` for one table: what the databases do, and the local rows as they are then.
pub record TableTurn (K A : Type 0) : Type 0 where
  pub weather : Weather
  pub local : List (Row K A)

unfoldable pub cycles :
    {K A : Type 0} ⦃e : Eq K⦄
    → (batch : ℕ) → SyncedTable
    → List (TableTurn K A)
    → Replica K A
    → Replica K A
unfolding sync_table
cycles batch table [] cloud = cloud
cycles batch table (turn ∷ turns) cloud =
    cycles batch table turns (sync_table batch turn.weather table turn.local cloud).0
