-- ===== src/StateEngine/Service.antt =====
-- src/tasker_rfid/services/state_engine/service.py: handling one observation until it commits,
-- holding a pallet back, and one round of `run`.
pub mod Rounds
pub mod Retries
pub mod Running
use tasker_rfid.Prelude.{
  ℕ, ◌+◌, ◌-◌, Bool, true, false, Option, none, some, List, [], ◌∷◌, String, not, leb, nat_eq,
  string_eq, ◌==◌, if◌then◌else◌, holds, any, select,
}
use tasker_rfid.Prelude.Dict.{Dict, lookup, insert, pop}
use tasker_rfid.Schema.{Container, ObservationRow, Db}
use tasker_rfid.Retry.{Fault, with_retry}
use tasker_rfid.StateEngine.Store.{first}
use tasker_rfid.StateEngine.Engine.{Counters, Run, handle_action}

-- PALLET_SETTLE_S, in microseconds.
abbrev pub pallet_settle : ℕ
pallet_settle = 5_000_000

-- The `StateEngine` object and its database.
pub record Service : Type 0 where
  pub run : Run
  pub first_seen : Dict ℕ ℕ
  pub stopping : Bool

-- Between a failed attempt and the next one: what the failed one left in the counters, and what the
-- other services and the API commit in the meantime.
pub record Between : Type 0 where
  pub counters : Counters → Counters
  pub outside : Db → Db

-- What comes from outside while one observation is looked at: the two readings of the monotonic
-- clock, the attempts that fail, and whether a signal asks the service to stop.
pub record Tick : Type 0 where
  pub seen_at : ℕ
  pub now : ℕ
  pub faults : List (Fault Between)
  pub stop : Bool

abbrev pub leave_between : Between → Run → Run
leave_between left s = record { counters = left.counters s.counters; db = left.outside s.db }

unfoldable pub handle : List (Fault Between) → ObservationRow → Service → Service
handle faults o s =
    let done = with_retry leave_between (handle_action o) faults s.run in
    record s {
      run = record done {
        counters = record done.counters { processed = done.counters.processed + 1 };
      };
      first_seen = pop o.id s.first_seen;
    }

unfoldable pub container_id_for : String → Db → Option ℕ
container_id_for tid db = elim (first (select (λ c. c.tid == tid) db.containers)) [
  | none ↦ none
  | some c ↦ some c.container_id
]

unfoldable pub has_children : ℕ → Db → Bool
has_children container_id db = any (λ c. holds c.parent_id container_id) db.containers

-- `first_seen.setdefault(obs_id, time.monotonic())`, and the test against a second reading.
abbrev pub set_default : ℕ → ℕ → Dict ℕ ℕ → ℕ × Dict ℕ ℕ
set_default k v d = elim (lookup k d) [ some old ↦ (old, d) | none ↦ (v, insert k v d) ]

unfoldable pub is_settled : Tick → ℕ → Service → Bool × Service
unfolding lookup insert
is_settled tick obs_id s =
    let (since, first_seen) = set_default obs_id tick.seen_at s.first_seen in
    (leb (since + pallet_settle) tick.now, record s { first_seen = first_seen })

unfoldable pub should_wait : Tick → ObservationRow → Service → Bool × Service
unfolding is_settled container_id_for has_children
should_wait tick o s = elim (container_id_for o.tid s.run.db) [
  | none ↦ (false, s)
  | some container_id ↦
      if has_children container_id s.run.db
      then (let (settled, s') = is_settled tick o.id s in (not settled, s'))
      else (false, s)
]

-- The body of the `for` loop of `run`, and whether it handled the observation.
unfoldable pub visit : Tick → ObservationRow → Service → Service × Bool
visit tick o s =
    let (wait, s') = should_wait tick o s in
    if wait then (s', false) else (handle tick.faults o s', true)

-- One round over the observations that were fetched; a stop request ends it.
unfoldable pub round :
    (ObservationRow → Tick) → List ObservationRow → Service → Bool → Service × Bool
round env [] s handled_any = (s, handled_any)
round env (o ∷ os) s handled_any =
    if s.stopping
    then (s, handled_any)
    else (let (s', handled) = visit (env o) o s in
        round env os (record s' { stopping = if (env o).stop then true else s'.stopping })
          (if handled then true else handled_any))
