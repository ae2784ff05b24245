-- ===== src/Retry.antt =====
-- `with_retry`, which services/state_engine/service.py and services/debouncer/service.py both
-- have: a database action is repeated until it succeeds.
pub mod Delays
use tasker_rfid.Prelude.{ℕ, zero, suc, ◌*◌, List, [], ◌∷◌, ltb, if◌then◌else◌}

-- An attempt that ends in psycopg.Error. The transaction is rolled back, but what the action had
-- changed in memory stays; or the commit landed and only its answer was lost. `left` is what the
-- failed attempt leaves in memory, and what else happens before the next one.
pub data Fault (M : Type 0) : Type 0 where
  rolled_back : (left : M) → Fault M
  unacknowledged : (left : M) → Fault M

module _ {M S : Type 0} (leave : M → S → S) (action : S → S) where
  -- The loop, given how each attempt before the last one failed. `leave` is applied where the source
  -- logs the error and sleeps.
  unfoldable pub with_retry : List (Fault M) → S → S
  with_retry [] s = action s
  with_retry (rolled_back left ∷ faults) s = with_retry faults (leave left s)
  with_retry (unacknowledged left ∷ faults) s = with_retry faults (leave left (action s))

-- DB_RETRY_INITIAL_S and DB_RETRY_MAX_S, in microseconds.
abbrev pub db_retry_initial : ℕ
db_retry_initial = 1_000_000

abbrev pub db_retry_max : ℕ
db_retry_max = 30_000_000

-- The time slept after the nth failure, counted from 0.
unfoldable pub delay : ℕ → ℕ
delay zero = db_retry_initial
delay (suc n) = if ltb db_retry_max (delay n * 2) then db_retry_max else delay n * 2
