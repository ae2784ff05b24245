-- ===== src/Debouncer/Commit/Run.antt =====
-- `run` of src/tasker_rfid/services/debouncer/service.py: rounds until a stop is asked for, and then the
-- flush. The rounds that there are, with what ingest stores before each, are an argument.
pub mod Balance
pub mod Ending
use tasker_rfid.Prelude.{ℕ, Option, none, some, List, [], ◌∷◌, ◌++◌}
use tasker_rfid.Retry.{Fault}
use tasker_rfid.Debouncer.Service.{Settings, RawRead, Debouncer}
use tasker_rfid.Debouncer.Commit.{Tables, GateEventRow, round, flush}

-- What happens from one round to the next, and in it.
pub record Env : Type 0 where
  pub reads : List RawRead
  pub gate_events : List GateEventRow
  pub absorbed_at : ℕ
  pub closed_at : ℕ
  pub faults : List (Fault (Unit {0}))

-- What ingest has stored by the time of the round.
unfoldable pub arrive : Env → Tables → Tables
arrive env t = record t {
  reads_raw = t.reads_raw ++ env.reads;
  gate_events = t.gate_events ++ env.gate_events;
}

module _ (settings : Settings) (utc_now : ℕ → ℕ) where
  abbrev pub one_round : Env → Debouncer × Tables → Option (Debouncer × Tables)
  one_round env (s, t) =
      round settings env.absorbed_at env.closed_at utc_now env.faults (s, arrive env t)

  unfoldable pub run :
      List Env
      → (flushed_at : ℕ) → List (Fault (Unit {0}))
      → Debouncer × Tables
      → Option (Debouncer × Tables)
  unfolding arrive
  run [] flushed_at faults state = flush settings flushed_at faults state
  run (env ∷ envs) flushed_at faults state = elim (one_round env state) [
    | none ↦ none
    | some state' ↦ run envs flushed_at faults state'
  ]
