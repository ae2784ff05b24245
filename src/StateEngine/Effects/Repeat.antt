-- ===== src/StateEngine/Effects/Repeat.antt =====
-- Reads that must change nothing (SPEC.md 2.3): refused reads, no-ops, and the second read of a
-- container that the first has moved.
use mathlib.Core.Option
use mathlib.Core.List.{append-nil}
use tasker_rfid.Prelude.{
  ℕ, String, ◌≡◌, refl, sym, ap, ◌∙◌, Bool, true, false, Option, none, some, List, [], ◌∷◌, ◌++◌,
  map, arith, nat_eq, string_eq, ◌==◌, Bool-cases, inl, inr, eq_iff, select, elem, if◌then◌else◌,
}
use tasker_rfid.Schema.{
  Reason, Container, ObservationRow, Anomaly, Detail, Db, decision_detail, no_open_session,
}
use tasker_rfid.StateEngine.Transitions.{Decision, dispatched, no_session}
use tasker_rfid.StateEngine.Store.{
  first, seen, update_where, touch_container, insert_anomaly, mark_processed, lock_container,
  open_session, container_tree,
}
use tasker_rfid.StateEngine.Engine.{
  Run, record_anomaly, anomaly_of, touch_and_mark, refuse, move_in_session, apply_decision,
  handle_action,
}
use tasker_rfid.StateEngine.Tree.{arrived, ids}
use tasker_rfid.StateEngine.Effects.{
  decision_for, session_for, handle_action-known, handle_action-in_session,
}

-- A row after `c` was seen at a portal, and nothing else: written out, so that no status, parent or
-- other column can change.
abbrev pub glimpsed : ObservationRow → Container → Container → Container
glimpsed o c d = record {
  container_id = d.container_id;
  tid = d.tid;
  kind = d.kind;
  parent_id = d.parent_id;
  status = d.status;
  reusable = d.reusable;
  last_seen_at = if d.container_id == c.container_id then some o.last_read else d.last_seen_at;
  last_portal = if d.container_id == c.container_id then some o.portal else d.last_portal;
}

-- Nothing moved: the container was seen at the portal, and these anomalies were raised.
pub record Stayed (o : ObservationRow) (c : Container) (raised : List Anomaly) (before after : Db)
    : Type 0 where
  pub stock : after.containers ≡ map (glimpsed o c) before.containers
  pub ledger : after.movements ≡ before.movements
  pub sessions : after.dispatch_sessions ≡ before.dispatch_sessions
  pub anomalies : after.anomalies ≡ before.anomalies ++ raised

-- The anomaly that a decision asks for, if any.
abbrev pub complaint : ObservationRow → Container → Decision → List Anomaly
complaint o c d = elim d.anomaly [
  | none ↦ []
  | some kind ↦
      anomaly_of o (some c.container_id) kind
        (decision_detail o.portal o.direction c.status d.reason)
      ∷ []
]

abbrev pub unattributed : ObservationRow → Container → List Anomaly
unattributed o c =
    anomaly_of o (some c.container_id) no_session
      (decision_detail o.portal o.direction c.status no_open_session)
    ∷ []

touched :
    (o : ObservationRow) (c : Container) (cs : List Container)
    → update_where c.container_id (seen o.last_read o.portal) cs ≡ map (glimpsed o c) cs
touched o c [] = refl
touched o c (d ∷ ds) = ground (arith, touched o c ds)

refuse-Stayed :
    (o : ObservationRow) (c : Container) (kind : String) (detail : Detail) (s : Run)
    → Stayed o c
        (anomaly_of o (some c.container_id) kind detail ∷ [])
        s.db
        (refuse o c kind detail s).db
unfolding refuse record_anomaly insert_anomaly touch_and_mark touch_container mark_processed
refuse-Stayed o c kind detail s = record {
  stock = touched o c s.db.containers;
  ledger = refl;
  sessions = refl;
  anomalies = refl;
}

touch_and_mark-Stayed :
    (o : ObservationRow) (c : Container) (s : Run) → Stayed o c [] s.db (touch_and_mark o c s).db
unfolding touch_and_mark touch_container mark_processed
touch_and_mark-Stayed o c s = record {
  stock = touched o c s.db.containers;
  ledger = refl;
  sessions = refl;
  anomalies = sym (append-nil s.db.anomalies);
}

apply_fields-Stayed :
    (o : ObservationRow) (c : Container) (s : Run) (anomaly to_status : Option String)
    (reason : Reason) (detach : Bool)
    → to_status ≡ none
    → let d : Decision = record {
      to_status = to_status;
      anomaly = anomaly;
      reason = reason;
      detach_children = detach;
    } in
      Stayed o c (complaint o c d) s.db (apply_decision o c d s).db
unfolding apply_decision
apply_fields-Stayed o c s (some kind) to_status reason detach e = refuse-Stayed o c kind _ s
apply_fields-Stayed o c s none none reason detach e = touch_and_mark-Stayed o c _
apply_fields-Stayed o c s none (some to) reason detach e = cc

apply_decision-Stayed :
    (o : ObservationRow) (c : Container) (d : Decision) (s : Run)
    → d.to_status ≡ none
    → Stayed o c (complaint o c d) s.db (apply_decision o c d s).db
apply_decision-Stayed o c d s =
    apply_fields-Stayed o c s d.anomaly d.to_status d.reason d.detach_children

-- If the decision moves nothing, then nothing changes in the containers but where and when this one
-- was seen, no movement is written, and the anomaly that the decision names, if any, is recorded.
pub handle_action-Stayed :
    (o : ObservationRow) (s : Run) (c : Container)
    → lock_container o.tid s.db ≡ some c
    → (decision_for o c).to_status ≡ none
    → Stayed o c (complaint o c (decision_for o c)) s.db (handle_action o s).db
handle_action-Stayed o s c locked e =
    rw (handle_action-known o s c locked) (apply_decision-Stayed o c (decision_for o c) s e)

-- If the decision is to dispatch and no session is open, then nothing changes in the containers
-- but where and when this one was seen, no movement is written, and a NO_SESSION anomaly is recorded.
pub handle_action-unattributed :
    (o : ObservationRow) (s : Run) (c : Container)
    → lock_container o.tid s.db ≡ some c
    → (decision_for o c).to_status ≡ some dispatched
    → open_session s.db ≡ none
    → Stayed o c (unattributed o c) s.db (handle_action o s).db
unfolding move_in_session
handle_action-unattributed o s c locked d e =
    rw (handle_action-in_session o s c locked dispatched d, e, move_in_session)
      (refuse-Stayed o c _ _ s)

-- What the lookup by TID finds in the table after each row is changed, the TIDs kept.
first-select-map :
    (f : Container → Container) (tid : String) (cs : List Container)
    → ((c : Container) → (f c).tid ≡ c.tid)
    → first (select (λ c. c.tid == tid) (map f cs))
      ≡ Option.map f (first (select (λ c. c.tid == tid) cs))
first-select-map f tid [] keep = refl
first-select-map f tid (c ∷ cs) keep = elim (Bool-cases (c.tid == tid)) [
  | inl e ↦ let k : ((f c).tid == tid) ≡ true = rw (keep c) e in rw (k, e)
  | inr e ↦
      let k : ((f c).tid == tid) ≡ false = rw (keep c) e in
      rw (k, e) (first-select-map f tid cs keep)
]

pub lock_container-map :
    (f : Container → Container) (tid : String) (a b : Db) {c : Container}
    → ((c : Container) → (f c).tid ≡ c.tid)
    → b.containers ≡ map f a.containers
    → lock_container tid a ≡ some c
    → lock_container tid b ≡ some (f c)
unfolding lock_container
lock_container-map f tid a b keep e locked =
    ap (λ (cs : List Container). first (select (λ c. c.tid == tid) cs)) e
    ∙ first-select-map f tid a.containers keep
    ∙ ap (Option.map f) locked

-- The container that the lookup finds is a row of its own tree.
elem-first-select :
    (tid : String) (c : Container) (cs rest : List Container)
    → first (select (λ x. x.tid == tid) cs) ≡ some c
    → elem c.container_id (ids (select (λ x. x.container_id == c.container_id) cs ++ rest)) ≡ true
elem-first-select tid c [] rest e = cc
elem-first-select tid c (x ∷ xs) rest e = ground (arith, elem-first-select tid c xs rest)

module _ (o : ObservationRow) (s : Run) (c : Container)
    (locked : lock_container o.tid s.db ≡ some c) where
  pub arrived-root :
      (to portal : String) (session_id : Option ℕ) (at : ℕ)
      → (arrived to portal session_id at (container_tree c.container_id s.db) c).status ≡ to
  unfolding container_tree lock_container
  arrived-root to portal session_id at = rw (elem-first-select o.tid c s.db.containers _ locked)

pub session_for-none :
    (db : Db) (to : String)
    → session_for db to ≡ none
    → (to ≡ dispatched) × (open_session db ≡ none)
session_for-none db to e = ground (arith, eq_iff to dispatched)
