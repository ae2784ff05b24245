-- ===== src/StateEngine/Corrections.antt =====
-- src/tasker_rfid/services/state_engine/corrections.py: a person sets one container's status.
-- The text of an exception is left out; which exception it is, and the values in it, are kept.
pub mod Effects
use tasker_rfid.Prelude.{
  ℕ, String, Bool, true, false, Option, none, some, List, [], ◌∷◌, not, string_eq, ◌==◌,
  if◌then◌else◌, elem,
}
use tasker_rfid.Prelude.Results.{Result, ok, err, ◌>>=◌, ◌>>◌}
use tasker_rfid.Schema.{Container, Movement, Db}
use tasker_rfid.StateEngine.Transitions.{registered, in_stock, dispatched}
use tasker_rfid.StateEngine.Store.{lock_container, update_where, insert_movement}

abbrev pub valid_statuses : List String
valid_statuses = registered ∷ in_stock ∷ dispatched ∷ []

abbrev pub source_manual : String
source_manual = "MANUAL"

-- ContainerNotFound, and the two causes of CorrectionRefused.
pub data Refusal : Type 0 where
  container_not_found : (tid : String) → Refusal
  not_a_status : (to_status : String) → Refusal
  already_there : (to_status : String) → Refusal

pub record Correction : Type 0 where
  pub container_id : ℕ
  pub tid : String
  pub from_status : String
  pub to_status : String
  pub reason : String
  pub operator : String
  pub occurred_at : ℕ

unfoldable pub check_target_status : String → String → Result Refusal (Unit {0})
check_target_status current_status to_status =
    if not (elem to_status valid_statuses)
    then err (not_a_status to_status)
    else if current_status == to_status
    then err (already_there to_status)
    else ok tt

-- UPDATE_STATUS_SQL of this file: the status alone.
unfoldable pub set_status : String → ℕ → Db → Db
set_status status container_id db = record db {
  containers = update_where container_id (λ c. record c { status = status }) db.containers;
}

unfoldable pub manual_movement :
    (c : Container) (to_status reason operator : String) (now : ℕ) → Movement
manual_movement c to_status reason operator now = record {
  container_id = c.container_id;
  from_status = some c.status;
  to_status = to_status;
  portal = none;
  session_id = none;
  occurred_at = now;
  source = source_manual;
  reason = some reason;
  operator = some operator;
}

-- The row that was locked, or ContainerNotFound.
unfoldable pub required : String → Option Container → Result Refusal Container
required tid none = err (container_not_found tid)
required tid (some c) = ok c

-- What is written once the checks have passed, and what is reported back.
unfoldable pub correct_row :
    (c : Container) (to_status reason operator : String) (now : ℕ) → Db → Correction × Db
unfolding set_status
correct_row c to_status reason operator now db = (
  record {
    container_id = c.container_id;
    tid = c.tid;
    from_status = c.status;
    to_status = to_status;
    reason = reason;
    operator = operator;
    occurred_at = now;
  },
  insert_movement (manual_movement c to_status reason operator now)
      (set_status to_status c.container_id db),
)

-- `now` is datetime.now(timezone.utc). The caller commits.
unfoldable pub apply_manual_correction :
    (tid to_status reason operator : String) (now : ℕ) → Db → Result Refusal (Correction × Db)
apply_manual_correction tid to_status reason operator now db = do
  c ← required tid (lock_container tid db)
  check_target_status c.status to_status
  ok (correct_row c to_status reason operator now db)
