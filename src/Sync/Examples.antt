-- ===== src/Sync/Examples.antt =====
-- Tables on which the theorems about the sync are applied.
use tasker_rfid.Prelude.{
  ℕ, String, ◌≡◌, refl, true, false, none, some, List, [], ◌∷◌, nat_eq, arith, All, string_eq,
}
use tasker_rfid.Prelude.Pages
use tasker_rfid.Sync.Tables.{SyncedTable, by_serial, synced_tables, Row, Replica, row_at}
use tasker_rfid.Sync.Read.{read_batch, next_page, order_by_position, insert_by_position}
use tasker_rfid.Sync.Write.{
  write_rows, send_batch, cursor_row, upsert, upsert_all, set_parent, set_parents,
}
use tasker_rfid.Sync.Cycle.{
  Weather, committed, rolled_back, unacknowledged, Replicas, cursor_value_of, deliver, send,
  sync_table, run_once, TableTurn, cycles,
}
use tasker_rfid.Sync.Serial.{position, IsSerial}
use tasker_rfid.Sync.Copies.{IsCopied, sync_table-IsCopied}
use tasker_rfid.Sync.Skipped.{is_behind, cycles-row_at-none}
use tasker_rfid.Sync.Rounds.{run_once-IsCopied}

abbrev movement : ℕ → Row ℕ String
movement n = record { key = n; position = n; parent_id = none; rest = "moved" }

abbrev movements : List (Row ℕ String)
movements = movement 2 ∷ movement 5 ∷ movement 6 ∷ []

movements-IsSerial : IsSerial movements
movements-IsSerial = record {
  rising = (omega arith, (omega arith, (omega arith, tt)));
  own = (refl, (refl, (refl, tt)));
}

abbrev fresh : Replica ℕ String
fresh = record { rows = []; cursor = none }

abbrev fine : Weather
fine = record { position_readable = true; local_readable = true; delivery = committed }

abbrev storm : Weather
storm = record { position_readable = true; local_readable = true; delivery = rolled_back }

abbrev unheard : Weather
unheard = record { position_readable = true; local_readable = true; delivery = unacknowledged }

fresh-IsCopied : IsCopied movements fresh
unfolding cursor_value_of
fresh-IsCopied = refl

sync_table-IsCopied_example :
    IsCopied movements (sync_table 2 unheard (by_serial "movements") movements fresh).0
sync_table-IsCopied_example =
    sync_table-IsCopied 2 "movements" movements movements-IsSerial unheard fresh fresh-IsCopied

-- The first two movements are there at first; the third comes while the first cycle fails.
abbrev earlier : List (Row ℕ String)
earlier = movement 2 ∷ movement 5 ∷ []

abbrev growing : List (TableTurn ℕ String)
growing =
    record { weather = storm; local = earlier }
    ∷ record { weather = unheard; local = movements }
    ∷ record { weather = fine; local = movements }
    ∷ []

-- A pallet and a box on it, in one batch.
abbrev containers : SyncedTable
containers = record { name = "containers"; by_id = false; self_referencing = true }

abbrev box : Row ℕ String
box = record { key = 1; position = 8; parent_id = some 2; rest = "BOX" }

abbrev pallet : Row ℕ String
pallet = record { key = 2; position = 9; parent_id = none; rest = "PALLET" }

-- Three rows, the last two stamped by one transaction.
abbrev tied : List (Row ℕ String)
tied =
    record { key = 1; position = 5; parent_id = none; rest = "BOX" }
    ∷ record { key = 2; position = 7; parent_id = none; rest = "PALLET" }
    ∷ record { key = 3; position = 7; parent_id = some 2; rest = "BOX" }
    ∷ []

-- The replica after the first cycle, with batches of two rows.
abbrev after_one : Replica ℕ String
after_one = (sync_table 2 fine containers tied fresh).0

is_absent : row_at 3 after_one.rows ≡ none
unfolding sync_table send deliver send_batch write_rows upsert_all upsert set_parents set_parent
    read_batch next_page order_by_position insert_by_position cursor_value_of row_at
is_absent = refl

-- Two more cycles, before the second of which the first row has been stamped again.
abbrev restamped : List (Row ℕ String)
restamped =
    record { key = 1; position = 9; parent_id = none; rest = "BOX" }
    ∷ record { key = 2; position = 7; parent_id = none; rest = "PALLET" }
    ∷ record { key = 3; position = 7; parent_id = some 2; rest = "BOX" }
    ∷ []

abbrev more : List (TableTurn ℕ String)
more = record { weather = fine; local = tied } ∷ record { weather = fine; local = restamped } ∷ []

are_behind :
    All
      (λ turn.
        All (λ r. is_behind 3 (cursor_value_of containers after_one.cursor) r ≡ true) turn.local)
      more
unfolding sync_table send deliver send_batch cursor_row read_batch next_page order_by_position
    insert_by_position cursor_value_of
are_behind = ((refl, (refl, (refl, tt))), ((refl, (refl, (refl, tt))), tt))

cycles-row_at-none_example : row_at 3 (cycles 2 containers more after_one).rows ≡ none
cycles-row_at-none_example = cycles-row_at-none 3 2 containers more after_one is_absent are_behind

abbrev clouds : Replicas ℕ String
clouds name = fresh

run_once-IsCopied_example : IsCopied movements (
    (run_once 2
        (λ _. record { stopping = false; weather = fine })
        synced_tables
        (λ _. movements)
        true
        clouds).0
      "movements")
run_once-IsCopied_example =
    run_once-IsCopied 2 (λ _. record { stopping = false; weather = fine }) (λ _. movements)
      "movements" clouds refl movements-IsSerial fresh-IsCopied
