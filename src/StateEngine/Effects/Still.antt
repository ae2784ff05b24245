-- ===== src/StateEngine/Effects/Still.antt =====
-- Every way through `handle` of state_engine/service.py that moves nothing: an unknown tag, a refused
-- read, a read with nothing to do, and a dispatch with no open session.
use tasker_rfid.Prelude.{
  String, ◌≡◌, ◌⊎◌, refl, sym, ap, ◌∙◌, Option, none, some, List, [], ◌∷◌, ◌++◌, map, nat_eq, ◌==◌,
  if◌then◌else◌, inl, inr, true,
}
use tasker_rfid.Schema.{Container, ObservationRow, Anomaly, Db, unknown_tid_detail}
use tasker_rfid.StateEngine.Transitions.{dispatched, unknown_tid}
use tasker_rfid.StateEngine.Store.{insert_anomaly, mark_processed, lock_container, open_session}
use tasker_rfid.StateEngine.Engine.{Run, record_anomaly, anomaly_of, handle_action}
use tasker_rfid.StateEngine.Effects.{decision_for}
use tasker_rfid.StateEngine.Effects.Processed.{handle_action-marked}
use tasker_rfid.StateEngine.Effects.Repeat.{
  glimpsed, Stayed, complaint, unattributed, handle_action-Stayed, handle_action-unattributed,
}

-- Where and when the container that has the tag was seen, if one has it.
abbrev pub glimpsed_if : ObservationRow → Option Container → Container → Container
glimpsed_if o none d = d
glimpsed_if o (some c) d = glimpsed o c d

-- What a person is told about a container that stays, by what the decision moves to.
abbrev pub told_of : ObservationRow → Container → Option String → List Anomaly
told_of o c none = complaint o c (decision_for o c)
told_of o c (some to) = unattributed o c

-- What a person is told: at most one anomaly.
abbrev pub told : ObservationRow → Option Container → List Anomaly
told o none =
    record {
      tid = o.tid;
      container_id = none;
      kind = unknown_tid;
      detail = unknown_tid_detail o.portal o.direction;
      occurred_at = o.last_read;
    }
    ∷ []
told o (some c) = told_of o c (decision_for o c).to_status

-- Nothing is to be moved: the container is unknown, or the decision moves nothing, or it is a
-- dispatch and no session is open.
abbrev pub MovesNothing : ObservationRow → Db → Option Container → Type 0
MovesNothing o db none = Unit
MovesNothing o db (some c) =
    ((decision_for o c).to_status ≡ none)
    ⊎ (((decision_for o c).to_status ≡ some dispatched) × (open_session db ≡ none))

-- All five tables after a read that moved nothing.
pub record Still (o : ObservationRow) (found : Option Container) (before after : Db) : Type 0 where
  pub stock : after.containers ≡ map (glimpsed_if o found) before.containers
  pub ledger : after.movements ≡ before.movements
  pub sessions : after.dispatch_sessions ≡ before.dispatch_sessions
  pub anomalies : after.anomalies ≡ before.anomalies ++ told o found
  pub observations :
      after.observations
      ≡ map (λ p. if p.id == o.id then record p { processed = true } else p) before.observations

map-same : (cs : List Container) → cs ≡ map (λ d. d) cs
map-same [] = refl
map-same (c ∷ cs) = ap (λ (l : List Container). c ∷ l) (map-same cs)

Still-of :
    (o : ObservationRow) (s : Run) (c : Container) (raised : List Anomaly)
    → Stayed o c raised s.db (handle_action o s).db
    → raised ≡ told o (some c)
    → Still o (some c) s.db (handle_action o s).db
Still-of o s c raised stay same = record {
  stock = stay.stock;
  ledger = stay.ledger;
  sessions = stay.sessions;
  anomalies = stay.anomalies ∙ ap (λ (l : List Anomaly). s.db.anomalies ++ l) same;
  observations = handle_action-marked o s;
}

unknown-Still :
    (o : ObservationRow) (s : Run)
    → lock_container o.tid s.db ≡ none
    → Still o none s.db (handle_action o s).db
unfolding handle_action record_anomaly insert_anomaly mark_processed anomaly_of
unknown-Still o s e =
    rw (e, handle_action)
      (record {
        stock = map-same s.db.containers;
        ledger = refl;
        sessions = refl;
        anomalies = refl;
        observations = refl;
      })

-- If nothing is to be moved, because no container has the tag, or the decision for the one that has
-- it moves nothing, or the decision is to dispatch and no session is open, then no status, parent or
-- other column of any container changes but where and when that one was seen; no movement is written
-- and no session changes; one anomaly is added that says why, or none where there was nothing to do;
-- and only this observation is marked.
pub handle_action-Still :
    (o : ObservationRow) (s : Run)
    → MovesNothing o s.db (lock_container o.tid s.db)
    → Still o (lock_container o.tid s.db) s.db (handle_action o s).db
handle_action-Still o s h = go (lock_container o.tid s.db) refl h
  where
    go :
        (found : Option Container)
        → lock_container o.tid s.db ≡ found
        → MovesNothing o s.db found
        → Still o found s.db (handle_action o s).db
    go none e h = unknown-Still o s e
    go (some c) e (inl f) =
        Still-of o s c (complaint o c (decision_for o c)) (handle_action-Stayed o s c e f)
          (ap (told_of o c) (sym f))
    go (some c) e (inr (f, closed)) =
        Still-of o s c (unattributed o c) (handle_action-unattributed o s c e f closed)
          (ap (told_of o c) (sym f))
