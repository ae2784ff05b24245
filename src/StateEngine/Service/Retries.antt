-- ===== src/StateEngine/Service/Retries.antt =====
-- with_retry around the transaction of `handle` in state_engine/service.py: an attempt whose commit
-- landed while its answer was lost is repeated, and the repetition finds nothing to move.
use tasker_rfid.Prelude.{
  ◌≡◌, sym, ap, ◌∙◌, subst, false, Option, none, some, List, [], ◌∷◌, All, string_eq, ◌==◌, select,
  inl, inr,
}
use tasker_rfid.Schema.{Container, ObservationRow, Db}
use tasker_rfid.Retry.{Fault, rolled_back, unacknowledged, with_retry}
use tasker_rfid.StateEngine.Store.{first, open_in, lock_container}
use tasker_rfid.StateEngine.Engine.{Run, handle_action}
use tasker_rfid.StateEngine.Tree.{Keyed}
use tasker_rfid.StateEngine.Effects.{decision_for}
use tasker_rfid.StateEngine.Effects.Still.{MovesNothing, handle_action-Still}
use tasker_rfid.StateEngine.Effects.Again.{MovesNothing-again, MovesNothing-after}
use tasker_rfid.StateEngine.Service.{Between, leave_between}

-- The others touch no container, session or movement: they may add observations, and raise or resolve
-- anomalies.
pub record IsCalm (left : Between) : Type 0 where
  pub stock : (db : Db) → (left.outside db).containers ≡ db.containers
  pub sessions : (db : Db) → (left.outside db).dispatch_sessions ≡ db.dispatch_sessions
  pub ledger : (db : Db) → (left.outside db).movements ≡ db.movements

abbrev pub IsCalmFault : Fault Between → Type 0
IsCalmFault (rolled_back left) = IsCalm left
IsCalmFault (unacknowledged left) = IsCalm left

abbrev Idle : ObservationRow → Db → Type 0
Idle o db = MovesNothing o db (lock_container o.tid db)

-- What is to be moved depends on the containers and the sessions.
Idle-same :
    (o : ObservationRow) (a b : Db)
    → b.containers ≡ a.containers
    → b.dispatch_sessions ≡ a.dispatch_sessions
    → Idle o a
    → Idle o b
unfolding lock_container
Idle-same o a b stock sessions h =
    subst
      (λ (cs : List Container).
        MovesNothing o (record b { containers = cs }) (first (select (λ c. c.tid == o.tid) cs)))
      (sym stock) (go (lock_container o.tid a) h)
  where
    go :
        (found : Option Container)
        → MovesNothing o a found
        → MovesNothing o (record b { containers = a.containers }) found
    go none h = tt
    go (some c) (inl f) = inl f
    go (some c) (inr (f, closed)) = inr (f, ap open_in sessions ∙ closed)

leave_between-Idle :
    (o : ObservationRow) (left : Between) (s : Run)
    → IsCalm left
    → Idle o s.db
    → Idle o (leave_between left s).db
leave_between-Idle o left s calm =
    Idle-same o s.db (left.outside s.db) (calm.stock s.db) (calm.sessions s.db)

-- From where nothing is to be moved, no number of attempts writes a movement.
with_retry-Idle :
    (o : ObservationRow) (faults : List (Fault Between)) (s : Run)
    → All IsCalmFault faults
    → Idle o s.db
    → (with_retry leave_between (handle_action o) faults s).db.movements ≡ s.db.movements
unfolding with_retry
with_retry-Idle o [] s calm idle = (handle_action-Still o s idle).ledger
with_retry-Idle o (rolled_back left ∷ faults) s calm idle =
    with_retry-Idle o faults (leave_between left s) calm.1 (leave_between-Idle o left s calm.0 idle)
    ∙ calm.0.ledger s.db
with_retry-Idle o (unacknowledged left ∷ faults) s calm idle =
    let landed = handle_action o s in
    with_retry-Idle o faults (leave_between left landed) calm.1
      (leave_between-Idle o left landed calm.0 (MovesNothing-again o s idle))
    ∙ calm.0.ledger landed.db
    ∙ (handle_action-Still o s idle).ledger

-- If the transaction of `handle` commits but its answer is lost, so that with_retry repeats it, then
-- however many further attempts fail, are rolled back or land, the movements in the end are those of
-- that one transaction: none is written twice. This is for reads that are no return of a reusable
-- container, and while what the others commit in between touches no container, session or movement.
pub with_retry_once :
    (o : ObservationRow) (left : Between) (faults : List (Fault Between)) (s : Run)
    → Keyed s.db.containers
    → ((c : Container)
        → lock_container o.tid s.db ≡ some c
        → (decision_for o c).detach_children ≡ false)
    → All IsCalmFault (unacknowledged left ∷ faults)
    → (with_retry leave_between (handle_action o) (unacknowledged left ∷ faults) s).db.movements
      ≡ (handle_action o s).db.movements
unfolding with_retry
with_retry_once o left faults s keyed no_return calm =
    let landed = handle_action o s in
    with_retry-Idle o faults (leave_between left landed) calm.1
      (leave_between-Idle o left landed calm.0 (MovesNothing-after o s keyed no_return))
    ∙ calm.0.ledger landed.db
