-- ===== src/StateEngine/Service/Rounds.antt =====
-- What retries, waiting and rounds keep.
use tasker_rfid.Prelude.{
  ℕ, ◌+◌, ◌≤◌, ◌≡◌, sym, Bool, true, false, some, List, [], ◌∷◌, arith, subst, if_ind, All, nat_eq,
  if◌then◌else◌,
}
use tasker_rfid.Prelude.Dict.{lookup}
use tasker_rfid.Schema.{ObservationRow, Db}
use tasker_rfid.Retry.{Fault, rolled_back, unacknowledged, with_retry}
use tasker_rfid.StateEngine.Engine.{Run, handle_action}
use tasker_rfid.StateEngine.Rule.{Rule, handle_action-keeps}
use tasker_rfid.StateEngine.Ledger.{IsLedger, IsLedger-rule}
use tasker_rfid.StateEngine.Sessions.{AllAttributed, AllAttributed-rule}
use tasker_rfid.StateEngine.Service.{
  Service, Tick, Between, leave_between, handle, should_wait, visit, round, pallet_settle,
}

-- What the others commit between a failed attempt and the next one keeps a property.
abbrev pub Leaves : (Db → Type 0) → Fault Between → Type 0
Leaves P (rolled_back left) = (db : Db) → P db → P (left.outside db)
Leaves P (unacknowledged left) = (db : Db) → P db → P (left.outside db)

module _ {P : Db → Type 0} (rule : Rule P) where
  with_retry-keeps :
      (o : ObservationRow) (faults : List (Fault Between)) (s : Run)
      → All (Leaves P) faults
      → P s.db
      → P (with_retry leave_between (handle_action o) faults s).db
  unfolding with_retry
  with_retry-keeps o [] s kept p = handle_action-keeps rule o s p
  with_retry-keeps o (rolled_back left ∷ faults) s kept p =
      with_retry-keeps o faults _ kept.1 (kept.0 s.db p)
  with_retry-keeps o (unacknowledged left ∷ faults) s kept p =
      with_retry-keeps o faults _ kept.1 (kept.0 _ (handle_action-keeps rule o s p))

  should_wait-run :
      (tick : Tick) (o : ObservationRow) (s : Service) → (should_wait tick o s).1.run ≡ s.run
  unfolding should_wait
  should_wait-run tick o s = ground arith

  visit-keeps :
      (tick : Tick) (o : ObservationRow) (s : Service)
      → All (Leaves P) tick.faults
      → P s.run.db
      → P (visit tick o s).0.run.db
  unfolding visit handle
  visit-keeps tick o s kept p =
      let q = subst (λ (r : Run). P r.db) (sym (should_wait-run tick o s)) p in
      if_ind (λ (r : Service × Bool). P r.0.run.db) (should_wait tick o s).0 (λ _. q)
        (λ _. with_retry-keeps o tick.faults (should_wait tick o s).1.run kept q)

  pub round-keeps :
      (env : ObservationRow → Tick) (os : List ObservationRow) (s : Service) (handled_any : Bool)
      → ((o : ObservationRow) → All (Leaves P) (env o).faults)
      → P s.run.db
      → P (round env os s handled_any).0.run.db
  unfolding round
  round-keeps env [] s handled_any kept p = p
  round-keeps env (o ∷ os) s handled_any kept p =
      let (s', handled) = visit (env o) o s in
      if_ind (λ (r : Service × Bool). P r.0.run.db) s.stopping (λ _. p)
        (λ _.
          round-keeps env os (record s' { stopping = if (env o).stop then true else s'.stopping })
            (if handled then true else handled_any) kept (visit-keeps (env o) o s (kept o) p))

-- After a round over any observations, whatever attempts fail and whichever pallets are held back,
-- every container still stands at the status of its last movement, and every portal movement to
-- DISPATCHED still names a session, if this was so before the round and what the others commit
-- between two attempts keeps both.
pub round_keeps :
    (env : ObservationRow → Tick) (os : List ObservationRow) (s : Service)
    → ((o : ObservationRow) → All (Leaves IsLedger) (env o).faults)
    → ((o : ObservationRow) → All (Leaves AllAttributed) (env o).faults)
    → IsLedger s.run.db
    → AllAttributed s.run.db
    → IsLedger (round env os s false).0.run.db × AllAttributed (round env os s false).0.run.db
round_keeps env os s keeps_ledger keeps_attributed ledger attributed = (
  round-keeps IsLedger-rule env os s false keeps_ledger ledger,
  round-keeps AllAttributed-rule env os s false keeps_attributed attributed,
)

-- A pallet that was first seen five seconds ago is not held back any longer.
pub settled-should_wait :
    (tick : Tick) (o : ObservationRow) (s : Service) (since : ℕ)
    → lookup o.id s.first_seen ≡ some since
    → since + pallet_settle ≤ tick.now
    → (should_wait tick o s).0 ≡ false
unfolding should_wait
settled-should_wait tick o s since e h = ground arith
