-- ===== src/Api/Queue.antt =====
-- src/tasker_rfid/services/api/routers/anomalies.py: a person deals with an anomaly, and may put the
-- container right in the same transaction. The values in a detail are texts here.
pub mod Resolving
use tasker_rfid.Prelude.{
  ℕ, String, Bool, true, false, Option, none, some, List, [], ◌∷◌, map, select, nat_eq, string_eq,
  ◌==◌, if◌then◌else◌,
}
use tasker_rfid.Prelude.Dict.{Dict, insert}
use tasker_rfid.Prelude.Results.{Result, ok, err, ◌>>=◌}
use tasker_rfid.Schema.{Db}
use tasker_rfid.StateEngine.Store.{first}
use tasker_rfid.StateEngine.Corrections.{Correction, apply_manual_correction}
use tasker_rfid.Api.{HttpException}
use tasker_rfid.Api.Containers.{status_of}

-- A row of the anomalies table as the queue sees it.
pub record QueuedAnomaly : Type 0 where
  pub id : ℕ
  pub tid : Option String
  pub container_id : Option ℕ
  pub detail : Dict String String
  pub resolved : Bool
  pub resolved_by : Option String
  pub resolved_at : Option ℕ

pub record Queue : Type 0 where
  pub db : Db
  pub anomalies : List QueuedAnomaly

pub record ResolveAnomaly : Type 0 where
  pub resolved_by : String
  pub note : Option String
  pub correct_to_status : Option String

-- Python's truth of an optional text or number.
abbrev pub given : Option String → Option String
given none = none
given (some s) = if s == "" then none else some s

abbrev pub given_id : Option ℕ → Option ℕ
given_id none = none
given_id (some id) = if id == 0 then none else some id

unfoldable pub anomaly_by_id : ℕ → Queue → Option QueuedAnomaly
anomaly_by_id anomaly_id q = first (select (λ a. a.id == anomaly_id) q.anomalies)

-- Neither missing nor resolved.
unfoldable pub require_unresolved : ℕ → Queue → Result HttpException QueuedAnomaly
unfolding anomaly_by_id
require_unresolved anomaly_id q = elim (anomaly_by_id anomaly_id q) [
  | none ↦ err (record { status_code = 404 })
  | some existing ↦ if existing.resolved then err (record { status_code = 409 }) else ok existing
]

abbrev pub noted : Option String → Dict String String → Dict String String
noted note detail = elim (given note) [ none ↦ detail | some n ↦ insert "resolution_note" n detail ]

abbrev pub reason_for : Option String → String → String
reason_for note otherwise = elim (given note) [ none ↦ otherwise | some n ↦ n ]

-- The correction, for an anomaly with a tag and a container. `otherwise` is the reason where there is
-- no note.
unfoldable pub correct :
    QueuedAnomaly
    → ResolveAnomaly
    → (to_status otherwise : String) (now : ℕ) → Db
    → Result HttpException (Correction × Db)
correct existing body to_status otherwise now db = elim (given existing.tid) [
  | none ↦ err (record { status_code = 422 })
  | some tid ↦ elim (given_id existing.container_id) [
    | none ↦ err (record { status_code = 422 })
    | some _ ↦
        elim (apply_manual_correction tid to_status (reason_for body.note otherwise)
          body.resolved_by now db) [ err why ↦ err (status_of why) | ok done ↦ ok done ]
  ]
]

abbrev pub corrected : Correction → Dict String String → Dict String String
corrected correction detail =
    insert "corrected_from" correction.from_status
      (insert "corrected_to" correction.to_status detail)

-- What the transaction has done before the anomaly itself is updated.
unfoldable pub put_right :
    QueuedAnomaly
    → ResolveAnomaly
    → (otherwise : String) (now : ℕ) → Db
    → Result HttpException (Dict String String × Db)
unfolding correct
put_right existing body otherwise now db = elim (given body.correct_to_status) [
  | none ↦ ok (noted body.note existing.detail, db)
  | some to_status ↦ do
    done ← correct existing body to_status otherwise now db
    ok (corrected done.0 (noted body.note existing.detail), done.1)
]

abbrev pub mark_resolved : ℕ → String → ℕ → Dict String String → QueuedAnomaly → QueuedAnomaly
mark_resolved anomaly_id by now detail a =
    if a.id == anomaly_id
    then record a {
      resolved = true;
      resolved_by = some by;
      resolved_at = some now;
      detail = detail;
    }
    else a

unfoldable pub resolve :
    ℕ → ResolveAnomaly → (otherwise : String) (now : ℕ) → Queue → Result HttpException Queue
unfolding require_unresolved put_right
resolve anomaly_id body otherwise now q = do
  existing ← require_unresolved anomaly_id q
  written ← put_right existing body otherwise now q.db
  ok (record {
    db = written.1;
    anomalies = map (mark_resolved anomaly_id body.resolved_by now written.0) q.anomalies;
  })
