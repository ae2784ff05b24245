-- ===== src/Api/Counts.antt =====
-- src/tasker_rfid/services/api/routers/cycle_counts.py: a count of what stands on the floor. The
-- sets of the source are lists without repetitions, and the reasons in the details, which are fixed
-- texts, are left out.
pub mod Variance
use tasker_rfid.Prelude.{
  ℕ, ◌+◌, String, Bool, true, false, not, ◌&&◌, Option, none, some, List, [], ◌∷◌, ◌++◌, map,
  select, any, elem, length, nat_eq, string_eq, ◌==◌, if◌then◌else◌,
}
use tasker_rfid.Prelude.Results.{Result, ok, err, ◌>>=◌, ◌>>◌}
use tasker_rfid.Schema.{Container, Anomaly, count_missing_detail, count_unexpected_detail, Db}
use tasker_rfid.StateEngine.Transitions.{in_stock}
use tasker_rfid.StateEngine.Store.{first, lock_container, distinct, is_null}
use tasker_rfid.Api.{HttpException, CycleCount, CycleCountItem, Tables}

abbrev pub count_mismatch : String
count_mismatch = "COUNT_MISMATCH"

unfoldable pub require_open_count : ℕ → Tables → Result HttpException CycleCount
require_open_count cycle_id t = elim (first (select (λ c. c.cycle_id == cycle_id) t.cycle_counts)) [
  | none ↦ err (record { status_code = 404 })
  | some count ↦ if is_null count.finished_at then ok count else err (record { status_code = 409 })
]

unfoldable pub start_count :
    (operator notes : Option String) (cycle_id now : ℕ) → Tables → CycleCount × Tables
start_count operator notes cycle_id now t =
    let created : CycleCount = record {
      cycle_id = cycle_id;
      started_at = now;
      finished_at = none;
      operator = operator;
      notes = notes;
    } in
    (created, record t { cycle_counts = t.cycle_counts ++ created ∷ [] })

abbrev pub is_item : ℕ → String → CycleCountItem → Bool
is_item cycle_id tid i = i.cycle_id == cycle_id && i.tid == tid

-- INSERT … (TRUE) ON CONFLICT (cycle_id, tid) DO UPDATE SET found = TRUE
unfoldable pub found_item : ℕ → String → List CycleCountItem → List CycleCountItem
found_item cycle_id tid [] = record { cycle_id = cycle_id; tid = tid; found = true } ∷ []
found_item cycle_id tid (i ∷ items) =
    if is_item cycle_id tid i
    then record i { found = true } ∷ items
    else i ∷ found_item cycle_id tid items

abbrev pub found_in : ℕ → Tables → List CycleCountItem
found_in cycle_id t = select (λ i. i.cycle_id == cycle_id && i.found) t.cycle_count_items

-- With scanned_so_far.
unfoldable pub scan : ℕ → String → Tables → Result HttpException (ℕ × Tables)
unfolding require_open_count found_item
scan cycle_id tid t = do
  _ ← require_open_count cycle_id t
  let t' : Tables = record t { cycle_count_items = found_item cycle_id tid t.cycle_count_items }
  ok (length (found_in cycle_id t'), t')

unfoldable pub expected : Tables → List Container
expected t = select (λ c. c.status == in_stock) t.db.containers

unfoldable pub scanned_tids : ℕ → Tables → List String
unfolding distinct
scanned_tids cycle_id t = distinct (map (λ i. i.tid) (found_in cycle_id t))

unfoldable pub missing : ℕ → Tables → List Container
unfolding expected scanned_tids
missing cycle_id t = select (λ c. not (elem c.tid (scanned_tids cycle_id t))) (expected t)

-- scanned_tids - expected_tids; the source sorts them.
unfoldable pub unexpected_tids : ℕ → Tables → List String
unfolding expected scanned_tids
unexpected_tids cycle_id t =
    select (λ tid. not (elem tid (map (λ c. c.tid) (expected t)))) (scanned_tids cycle_id t)

-- INSERT … (FALSE) ON CONFLICT (cycle_id, tid) DO NOTHING
unfoldable pub missing_item : ℕ → String → List CycleCountItem → List CycleCountItem
missing_item cycle_id tid items =
    if any (is_item cycle_id tid) items
    then items
    else items ++ record { cycle_id = cycle_id; tid = tid; found = false } ∷ []

unfoldable pub missing_items : ℕ → List Container → List CycleCountItem → List CycleCountItem
unfolding missing_item
missing_items cycle_id [] items = items
missing_items cycle_id (c ∷ cs) items =
    missing_items cycle_id cs (missing_item cycle_id c.tid items)

unfoldable pub missing_anomaly : (cycle_id now : ℕ) → Container → Anomaly
missing_anomaly cycle_id now c = record {
  tid = c.tid;
  container_id = some c.container_id;
  kind = count_mismatch;
  detail = count_missing_detail cycle_id c.last_portal;
  occurred_at = now;
}

-- known or {"tid": tid, "status": "NOT REGISTERED"}
unfoldable pub unexpected_anomaly : (cycle_id now : ℕ) → Tables → String → Anomaly
unfolding lock_container
unexpected_anomaly cycle_id now t tid = elim (lock_container tid t.db) [
  | some c ↦ record {
    tid = tid;
    container_id = some c.container_id;
    kind = count_mismatch;
    detail = count_unexpected_detail cycle_id c.status;
    occurred_at = now;
  }
  | none ↦ record {
    tid = tid;
    container_id = none;
    kind = count_mismatch;
    detail = count_unexpected_detail cycle_id "NOT REGISTERED";
    occurred_at = now;
  }
]

abbrev pub finished : ℕ → ℕ → CycleCount → CycleCount
finished cycle_id now c = if c.cycle_id == cycle_id then record c { finished_at = some now } else c

-- `found` is the size of a set of TIDs, and these are unique.
pub record VarianceReport : Type 0 where
  pub expected : ℕ
  pub found : ℕ
  pub missing : List Container
  pub unexpected : List String
  pub anomalies_raised : ℕ

unfoldable pub close_count :
    (cycle_id now : ℕ) → Tables → Result HttpException (VarianceReport × Tables)
unfolding require_open_count expected scanned_tids missing unexpected_tids missing_items
    missing_anomaly unexpected_anomaly
close_count cycle_id now t = do
  _ ← require_open_count cycle_id t
  let lost = missing cycle_id t
  let strange = unexpected_tids cycle_id t
  ok (
    record {
      expected = length (expected t);
      found = length (select (λ c. elem c.tid (scanned_tids cycle_id t)) (expected t));
      missing = lost;
      unexpected = strange;
      anomalies_raised = length lost + length strange;
    },
    record t {
      db = record t.db {
        anomalies =
            (t.db.anomalies ++ map (missing_anomaly cycle_id now) lost)
            ++ map (unexpected_anomaly cycle_id now t) strange;
      };
      cycle_counts = map (finished cycle_id now) t.cycle_counts;
      cycle_count_items = missing_items cycle_id lost t.cycle_count_items;
    },
  )
