-- ===== src/Debouncer/Examples.antt =====
-- A portal with a gate, on which the theorems about the debouncer are applied.
use tasker_rfid.Prelude.{
  String, Option, Bool-cases, inl, inr, ◌==◌, ℕ, ◌+◌, ◌≡◌, ◌⊎◌, refl, true, false, Option, none,
  some, List, [], ◌∷◌, map, arith, flat_map, string_eq, pair_eq,
}
use mathlib.Core.List.{Mem}
use tasker_rfid.Prelude.Int.{pos, negsuc, int_eq}
use tasker_rfid.Prelude.Dict.{lookup, insert}
use tasker_rfid.Retry.{rolled_back, unacknowledged, with_retry}
use tasker_rfid.Debouncer.Grouping.{
  Observation, start_group, add, starts_new_session, has_gone_quiet, to_observation,
  rejection_reason,
}
use tasker_rfid.Debouncer.Grouping.Summary.{Read, Summarises, onto, add_all, group-Summarises}
use tasker_rfid.Debouncer.Direction.{
  Crossing, beam_inner, beam_broken, crossings_from_events, direction_for_window, overlaps,
}
use tasker_rfid.Debouncer.Direction.Crossings.{Pass, events_of, crossing_of, crossings_from_passes}
use tasker_rfid.Debouncer.Direction.Windows.{IsNearest, direction_for_window-IsNearest}
use tasker_rfid.Debouncer.Service.{
  Settings, RawRead, Debouncer, absorb, absorb_rows, absorb_row, join, warn_if_future_dated,
  close_quiet_groups, is_finished, is_kept, finished,
}
use tasker_rfid.Debouncer.Service.Conservation.{rejected}
use tasker_rfid.Debouncer.Commit.{
  count_written, flush, Tables, load_cursor, fetch_reads, fetch_batch, commit, commit_action,
  nothing_left, resolve_all, round, write_round,
}
use tasker_rfid.Debouncer.Commit.Cursor.{Rising, IsSynced, Copied, commit_copies}
use tasker_rfid.Debouncer.Commit.Total.{HasTimeouts}
use tasker_rfid.Debouncer.Commit.Run.{Env, arrive, run}
use tasker_rfid.Debouncer.Commit.Run.Balance.{
  accounted, IsFlushed, reads_taken, reads_dropped, run-IsFlushed,
}
use tasker_rfid.Debouncer.Commit.Run.Ending.{run_total}
use tasker_rfid.Debouncer.Commit.Accounts.{Accounted, taken, round-Accounted}

abbrev settings : Settings
settings = record {
  quiet_period = 3_000_000;
  rssi_floor_dbm = negsuc 69;
  min_read_count = 2;
  portal_of = (pos 1, "ENTRANCE") ∷ [];
  gate_of_portal = [];
  gate_timeout = [];
}

abbrev read : ℕ → ℕ → RawRead
read id at = record {
  id = id;
  tid = "TAG";
  antenna_id = pos 1;
  rssi = some (negsuc 49);
  read_at = at;
}

abbrev reads : List RawRead
reads = read 4 1_000_000 ∷ read 5 1_200_000 ∷ read 6 9_000_000 ∷ []

abbrev fresh : Debouncer
fresh = record {
  open_groups = [];
  closed_this_round = [];
  cursor_id = 4;
  reads_consumed = 0;
  observations_written = 0;
  observations_rejected = 0;
  unmapped_antenna_reads = 0;
  future_dated_reads = 0;
  directions_resolved = 0;
  directions_unknown = 0;
}

abbrev tables : Tables
tables = record {
  reads_raw = reads;
  gate_events = [];
  observations = [];
  next_id = 1;
  cursor = some 4;
}

abbrev clock : ℕ → ℕ
clock id = 9_000_000

rising : Rising 0 tables.reads_raw
rising = (omega arith, (omega arith, (omega arith, tt)))

is_synced : IsSynced (fresh, tables)
unfolding load_cursor
is_synced = refl

abbrev one_batch : List (Observation × Option String)
one_batch = (to_observation (start_group "TAG" "ENTRANCE" 1 none 1), none) ∷ []

commit_copies_example : Copied one_batch 6 1 tables (
    with_retry nothing_left
      (commit_action one_batch 6)
      (rolled_back tt ∷ unacknowledged tt ∷ [])
      tables)
commit_copies_example = commit_copies one_batch 6 (rolled_back tt ∷ unacknowledged tt ∷ []) tables

abbrev first : Read
first = record { read_at = 10; rssi = none }

abbrev earlier : Read
earlier = record { read_at = 8; rssi = some (negsuc 49) }

group-Summarises_example :
    Summarises
      (onto (earlier ∷ []) (first ∷ []))
      (add_all (λ r. 5) (start_group "TAG" "ENTRANCE" 10 none 5) (earlier ∷ []))
group-Summarises_example = group-Summarises (λ r. 5) "TAG" "ENTRANCE" first (earlier ∷ [])

abbrev pass : Pass
pass = record {
  inner_first = true;
  inner_clears_first = true;
  broke = 10;
  followed = 12;
  cleared = 14;
  left = 16;
}

crossings_from_passes_example :
    crossings_from_events (flat_map events_of (pass ∷ pass ∷ [])) 5
    ≡ some (map (crossing_of 5) (pass ∷ pass ∷ []))
crossings_from_passes_example = crossings_from_passes 5 (pass ∷ pass ∷ [])

abbrev crossings : List Crossing
crossings = map (crossing_of 5) (pass ∷ [])

direction_for_window-IsNearest_example :
    ((direction_for_window 9 17 crossings 0 ≡ none)
      × ((x : Crossing) → Mem x crossings → overlaps 9 17 0 x ≡ false))
    ⊎ ((c : Crossing) × IsNearest 9 17 0 crossings c
        × (direction_for_window 9 17 crossings 0 ≡ c.direction))
direction_for_window-IsNearest_example = direction_for_window-IsNearest 9 17 0 crossings

-- One round over those tables.
abbrev or_else : Option (Debouncer × Tables) → Debouncer × Tables
or_else none = (fresh, tables)
or_else (some r) = r

abbrev after : Debouncer × Tables
after = or_else (round settings 9_000_000 20_000_000 clock (rolled_back tt ∷ []) (fresh, tables))

rounds :
    round settings 9_000_000 20_000_000 clock (rolled_back tt ∷ []) (fresh, tables) ≡ some after
unfolding round write_round commit resolve_all close_quiet_groups finished is_finished is_kept
    absorb absorb_rows absorb_row join fetch_reads has_gone_quiet rejection_reason
    starts_new_session add start_group to_observation warn_if_future_dated lookup insert
rounds = refl

round-Accounted_example :
    Accounted
      (fetch_reads fetch_batch 4 tables)
      (rejected settings false 20_000_000
        (taken settings 9_000_000 clock (fetch_reads fetch_batch 4 tables) fresh))
      (fresh, tables)
      after
round-Accounted_example =
    round-Accounted settings 9_000_000 20_000_000 clock (rolled_back tt ∷ []) fresh tables after
      rising is_synced (tt, tt) rounds

-- A portal with a gate.
abbrev gated : Settings
gated = record settings {
  gate_of_portal = ("EXIT", "GATE-EXIT") ∷ [];
  gate_timeout = ("EXIT", 3_000_000) ∷ [];
}

abbrev gated_tables : Tables
gated_tables = record tables {
  gate_events =
      record {
        gate_id = "GATE-EXIT";
        event = record { beam = beam_inner; state = beam_broken; occurred_at = 5 };
      }
      ∷ [];
}

has_timeouts : HasTimeouts gated
unfolding lookup
has_timeouts portal gate_id e = elim (Bool-cases ("EXIT" == portal)) [
  | inl f ↦ rw f (3_000_000, refl)
  | inr f ↦ cc (rw f at e)
]

-- Two rounds, the first of which is tried twice, and the flush.
abbrev env : Env
env = record {
  reads = [];
  gate_events = [];
  absorbed_at = 9_000_000;
  closed_at = 9_000_000;
  faults = rolled_back tt ∷ [];
}

abbrev stopped : Debouncer × Tables
stopped = or_else (run settings clock (env ∷ env ∷ []) 9_000_000 [] (fresh, tables))

runs : run settings clock (env ∷ env ∷ []) 9_000_000 [] (fresh, tables) ≡ some stopped
unfolding run arrive flush round write_round commit resolve_all close_quiet_groups finished
    is_finished is_kept absorb absorb_rows absorb_row join fetch_reads has_gone_quiet
    rejection_reason starts_new_session add start_group to_observation warn_if_future_dated lookup
    insert with_retry commit_action count_written
runs = refl

run-IsFlushed_example :
    IsFlushed settings clock
      (accounted (fresh, tables) + reads_taken settings clock (env ∷ env ∷ []) (fresh, tables))
      (reads_dropped settings clock (env ∷ env ∷ []) 9_000_000 (fresh, tables))
      stopped
run-IsFlushed_example =
    run-IsFlushed settings clock (env ∷ env ∷ []) 9_000_000 [] (fresh, tables) stopped is_synced
      ((tt, tt), ((tt, tt), tt)) tt runs

run_total_example :
    (r : Debouncer × Tables) × (run gated clock (env ∷ env ∷ []) 9_000_000 [] (fresh, gated_tables)
      ≡ some r)
run_total_example =
    run_total gated clock (env ∷ env ∷ []) 9_000_000 [] fresh gated_tables has_timeouts
      (tt, (tt, tt)) (inl refl, tt)
