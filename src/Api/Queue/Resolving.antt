-- ===== src/Api/Queue/Resolving.antt =====
-- A decision on an anomaly and the change that it implies do not come apart.
use mathlib.Core.Option
use tasker_rfid.Prelude.{
  ℕ, ◌≡◌, refl, sym, ap, subst, String, Bool, true, false, Option, none, some, List, [], ◌∷◌, map,
  select, nat_eq, string_eq, ◌==◌, if◌then◌else◌, not, arith,
}
use tasker_rfid.Prelude.Dict.{Dict}
use tasker_rfid.Prelude.Results.{Result, ok, err, ◌>>=◌, >>=-eq-ok, ok-injective, if-eq-ok_else}
use tasker_rfid.Schema.{Db}
use tasker_rfid.StateEngine.Store.{first}
use tasker_rfid.StateEngine.Corrections.{Correction, apply_manual_correction, Refusal}
use tasker_rfid.Api.{HttpException}
use tasker_rfid.Api.Containers.{status_of}
use tasker_rfid.Api.Queue.{
  QueuedAnomaly, Queue, ResolveAnomaly, given, given_id, anomaly_by_id, require_unresolved, noted,
  reason_for, correct, corrected, put_right, mark_resolved, resolve,
}

-- The row of an anomaly that has been dealt with.
abbrev pub resolved_row : String → ℕ → Dict String String → QueuedAnomaly → QueuedAnomaly
resolved_row by now detail a = record a {
  resolved = true;
  resolved_by = some by;
  resolved_at = some now;
  detail = detail;
}

-- The container that an anomaly names has been put right.
abbrev pub IsPutRight :
    QueuedAnomaly
    → ResolveAnomaly
    → String
    → ℕ
    → Db
    → Dict String String × Db
    → Option String
    → Type 0
IsPutRight existing body otherwise now db (detail, db') none =
    (detail ≡ noted body.note existing.detail) × (db' ≡ db)
IsPutRight existing body otherwise now db (detail, db') (some to_status) =
    (tid : String) × (correction : Correction) × (given existing.tid ≡ some tid)
    × (detail ≡ corrected correction (noted body.note existing.detail))
    × (apply_manual_correction tid to_status (reason_for body.note otherwise) body.resolved_by now
          db
        ≡ ok (correction, db'))

correct-apply :
    (existing : QueuedAnomaly) (body : ResolveAnomaly) (to_status otherwise : String) (now : ℕ)
    (db : Db) (done : Correction × Db)
    → correct existing body to_status otherwise now db ≡ ok done
    → (tid : String) × (given existing.tid ≡ some tid)
      × (apply_manual_correction tid to_status
            (reason_for body.note otherwise)
            body.resolved_by
            now
            db
          ≡ ok done)
unfolding correct
correct-apply existing body to_status otherwise now db done e =
    go (given existing.tid) refl (given_id existing.container_id) e
  where
    applied :
        (tid : String) (r : Result Refusal (Correction × Db))
        → (elim r as (λ _. Result HttpException (Correction × Db)) [
          | err why ↦ err (status_of why)
          | ok done ↦ ok done
        ])
          ≡ ok done
        → r ≡ ok done
    applied tid (err why) k = cc
    applied tid (ok d) k = ap ok (ok-injective k)

    go :
        (o : Option String)
        → given existing.tid ≡ o
        → (id : Option ℕ)
        → (elim o as (λ _. Result HttpException (Correction × Db)) [
          | none ↦ err (record { status_code = 422 })
          | some tid ↦ elim id as (λ _. Result HttpException (Correction × Db)) [
            | none ↦ err (record { status_code = 422 })
            | some _ ↦
                elim (apply_manual_correction tid to_status
                    (reason_for body.note otherwise)
                    body.resolved_by
                    now
                    db)
                  as (λ _. Result HttpException (Correction × Db)) [
                    | err why ↦ err (status_of why)
                    | ok done ↦ ok done
                  ]
          ]
        ])
          ≡ ok done
        → (tid : String) × (given existing.tid ≡ some tid)
          × (apply_manual_correction tid to_status
                (reason_for body.note otherwise)
                body.resolved_by
                now
                db
              ≡ ok done)
    go none h id k = cc
    go (some tid) h none k = cc
    go (some tid) h (some id) k = (tid, h, applied tid _ k)

put_right-IsPutRight :
    (existing : QueuedAnomaly) (body : ResolveAnomaly) (otherwise : String) (now : ℕ) (db : Db)
    (w : Dict String String × Db)
    → put_right existing body otherwise now db ≡ ok w
    → IsPutRight existing body otherwise now db w (given body.correct_to_status)
unfolding put_right
put_right-IsPutRight existing body otherwise now db w e = go (given body.correct_to_status) e
  where
    go :
        (o : Option String)
        → (elim o as (λ _. Result HttpException (Dict String String × Db)) [
          | none ↦ ok (noted body.note existing.detail, db)
          | some to_status ↦ correct existing body to_status otherwise now db >>= λ done.
              ok (corrected done.0 (noted body.note existing.detail), done.1)
        ])
          ≡ ok w
        → IsPutRight existing body otherwise now db w o
    go none k = (
      ap (λ (w : Dict String String × Db). w.0) (sym (ok-injective k)),
      ap (λ (w : Dict String String × Db). w.1) (sym (ok-injective k)),
    )
    go (some to_status) k =
        let (done, applied, k') =
          >>=-eq-ok (correct existing body to_status otherwise now db)
            (λ (done : Correction × Db).
              ok (corrected done.0 (noted body.note existing.detail), done.1))
            k in
        subst
          (λ (w : Dict String String × Db).
            IsPutRight existing body otherwise now db w (some to_status))
          (ok-injective k')
          (let (tid, named, same) =
              correct-apply existing body to_status otherwise now db done applied in
            (tid, done.0, named, refl, same))

-- The row that is looked up, in the tables before and after.
unresolved_row :
    (anomaly_id : ℕ) (q : Queue) (existing : QueuedAnomaly)
    → require_unresolved anomaly_id q ≡ ok existing
    → (anomaly_by_id anomaly_id q ≡ some existing) × (existing.resolved ≡ false)
unfolding require_unresolved
unresolved_row anomaly_id q existing e = go (anomaly_by_id anomaly_id q) e
  where
    go :
        (o : Option QueuedAnomaly)
        → (elim o as (λ _. Result HttpException QueuedAnomaly) [
          | none ↦ err (record { status_code = 404 })
          | some a ↦ if a.resolved then err (record { status_code = 409 }) else ok a
        ])
          ≡ ok existing
        → (o ≡ some existing) × (existing.resolved ≡ false)
    go none k = cc
    go (some a) k =
        let (still, k') = if-eq-ok_else a.resolved (record { status_code = 409 }) k in
        (
          ap some (ok-injective k'),
          subst (λ (b : QueuedAnomaly). b.resolved ≡ false) (ok-injective k') still,
        )

marked_row :
    (anomaly_id : ℕ) (by : String) (now : ℕ) (detail : Dict String String)
    (rows : List QueuedAnomaly) (a : QueuedAnomaly)
    → first (select (λ a. a.id == anomaly_id) rows) ≡ some a
    → first (select (λ a. a.id == anomaly_id) (map (mark_resolved anomaly_id by now detail) rows))
      ≡ some (resolved_row by now detail a)
marked_row anomaly_id by now detail [] a e = cc
marked_row anomaly_id by now detail (x ∷ xs) a e =
    step (x.id == anomaly_id) refl _ _ e (marked_row anomaly_id by now detail xs a)
  where
    step :
        (b : Bool)
        → (x.id == anomaly_id) ≡ b
        → (l l' : List QueuedAnomaly) → first (if b then x ∷ l else l) ≡ some a
        → (first l ≡ some a → first l' ≡ some (resolved_row by now detail a))
        → first (
            if (if b then resolved_row by now detail x else x).id == anomaly_id
            then (if b then resolved_row by now detail x else x) ∷ l'
            else l')
          ≡ some (resolved_row by now detail a)
    step true h l l' e later = rw h (ap (Option.map (resolved_row by now detail)) e)
    step false h l l' e later = rw h (later e)

-- The anomalies with another id.
abbrev pub others : ℕ → List QueuedAnomaly → List QueuedAnomaly
others anomaly_id = select (λ a. not (a.id == anomaly_id))

ids_kept :
    (anomaly_id : ℕ) (by : String) (now : ℕ) (detail : Dict String String)
    (rows : List QueuedAnomaly)
    → map (λ a. a.id) (map (mark_resolved anomaly_id by now detail) rows) ≡ map (λ a. a.id) rows
ids_kept anomaly_id by now detail [] = refl
ids_kept anomaly_id by now detail (x ∷ xs) = ground (arith, ids_kept anomaly_id by now detail xs)

-- The rows of the other anomalies are not touched, nor are rows added or taken away.
others_kept :
    (anomaly_id : ℕ) (by : String) (now : ℕ) (detail : Dict String String)
    (rows : List QueuedAnomaly)
    → others anomaly_id (map (mark_resolved anomaly_id by now detail) rows) ≡ others anomaly_id rows
others_kept anomaly_id by now detail [] = refl
others_kept anomaly_id by now detail (x ∷ xs) =
    ground (arith, others_kept anomaly_id by now detail xs)

-- What a request that succeeds has done. `detail` is the anomaly's detail afterwards.
pub record IsResolved (anomaly_id : ℕ) (body : ResolveAnomaly) (otherwise : String) (now : ℕ)
    (q q' : Queue) : Type 0 where
  pub before : QueuedAnomaly
  pub found : anomaly_by_id anomaly_id q ≡ some before
  pub unresolved : before.resolved ≡ false
  pub detail : Dict String String
  pub there : anomaly_by_id anomaly_id q' ≡ some (resolved_row body.resolved_by now detail before)
  pub kept : others anomaly_id q'.anomalies ≡ others anomaly_id q.anomalies
  pub same_rows : map (λ a. a.id) q'.anomalies ≡ map (λ a. a.id) q.anomalies
  pub put_right :
      IsPutRight before body otherwise now q.db (detail, q'.db) (given body.correct_to_status)

-- If an anomaly is resolved, then it was there and not resolved before, and afterwards it is resolved
-- by that person at that time, with its other columns but the detail as they were; no other anomaly
-- has changed, come or gone; and in the same step its container has been corrected if that was asked
-- for, which the detail then records, and if not, the tables are as before and the detail has at most
-- the note added.
pub resolve-IsResolved :
    (anomaly_id : ℕ) (body : ResolveAnomaly) (otherwise : String) (now : ℕ) (q q' : Queue)
    → resolve anomaly_id body otherwise now q ≡ ok q'
    → IsResolved anomaly_id body otherwise now q q'
unfolding resolve anomaly_by_id
resolve-IsResolved anomaly_id body otherwise now q q' e =
    let (existing, found, e') = >>=-eq-ok (require_unresolved anomaly_id q) _ e in
    let (w, written, e'') = >>=-eq-ok (put_right existing body otherwise now q.db) _ e' in
    let (there, still) = unresolved_row anomaly_id q existing found in
    subst (IsResolved anomaly_id body otherwise now q) (ok-injective e'') (record {
      before = existing;
      found = there;
      unresolved = still;
      detail = w.0;
      there = marked_row anomaly_id body.resolved_by now w.0 q.anomalies existing there;
      kept = others_kept anomaly_id body.resolved_by now w.0 q.anomalies;
      same_rows = ids_kept anomaly_id body.resolved_by now w.0 q.anomalies;
      put_right = put_right-IsPutRight existing body otherwise now q.db w written;
    })

-- An anomaly that has been resolved is not resolved again, whatever is asked for.
pub resolve_once :
    (anomaly_id : ℕ) (body body' : ResolveAnomaly) (otherwise otherwise' : String) (now later : ℕ)
    (q q' : Queue)
    → resolve anomaly_id body otherwise now q ≡ ok q'
    → resolve anomaly_id body' otherwise' later q' ≡ err (record { status_code = 409 })
unfolding resolve require_unresolved
resolve_once anomaly_id body body' otherwise otherwise' now later q q' e =
    let done = resolve-IsResolved anomaly_id body otherwise now q q' e in
    rw (resolve, refused _ done.there refl)
  where
    refused :
        (a : QueuedAnomaly)
        → anomaly_by_id anomaly_id q' ≡ some a
        → a.resolved ≡ true
        → require_unresolved anomaly_id q' ≡ err (record { status_code = 409 })
    refused a there done = rw (require_unresolved, there, done)
