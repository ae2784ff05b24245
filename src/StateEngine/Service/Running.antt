-- ===== src/StateEngine/Service/Running.antt =====
-- `run` of src/tasker_rfid/services/state_engine/service.py: rounds until a stop is asked for. What the
-- other services commit between two rounds is a function on the tables.
use tasker_rfid.Prelude.{ℕ, Bool, true, false, List, [], ◌∷◌, All, All-imp, if_ind, if◌then◌else◌}
use tasker_rfid.Schema.{ObservationRow, Db}
use tasker_rfid.StateEngine.Store.{fetch_observations}
use tasker_rfid.StateEngine.Rule.{Rule}
use tasker_rfid.StateEngine.Ledger.{IsLedger, IsLedger-rule}
use tasker_rfid.StateEngine.Sessions.{AllAttributed, AllAttributed-rule}
use tasker_rfid.StateEngine.Service.{Service, Tick, round}
use tasker_rfid.StateEngine.Service.Rounds.{Leaves, round-keeps}

-- FETCH_BATCH
abbrev pub fetch_batch : ℕ
fetch_batch = 500

-- What happens before a round, in it, and whether a stop is asked for while the service sleeps.
pub record Turn : Type 0 where
  pub outside : Db → Db
  pub env : ObservationRow → Tick
  pub stop : Bool

unfoldable pub one_round : Turn → Service → Service
one_round turn s =
    let db = turn.outside s.run.db in
    let s' =
      (round turn.env (fetch_observations fetch_batch db)
        (record s { run = record s.run { db = db } }) false).0 in
    record s' { stopping = if turn.stop then true else s'.stopping }

unfoldable pub run : List Turn → Service → Service
unfolding one_round
run [] s = s
run (turn ∷ turns) s = let rest = run turns (one_round turn s) in if s.stopping then s else rest

-- What the others commit before the round, and between two attempts in it, keeps a property.
abbrev pub Harmless : (Db → Type 0) → Turn → Type 0
Harmless P turn =
    ((db : Db) → P db → P (turn.outside db))
    × ((o : ObservationRow) → All (Leaves P) (turn.env o).faults)

module _ {P : Db → Type 0} (rule : Rule P) where
  run-keeps :
      (turns : List Turn) (s : Service)
      → All (Harmless P) turns
      → P s.run.db
      → P (run turns s).run.db
  unfolding run one_round
  run-keeps [] s kept p = p
  run-keeps (turn ∷ turns) s kept p =
      if_ind (λ (r : Service). P r.run.db) s.stopping (λ _. p)
        (λ _.
          run-keeps turns (one_round turn s) kept.1
            (round-keeps rule turn.env _ _ false kept.0.1 (kept.0.0 s.run.db p)))

-- The other services leave the ledger and the attribution of dispatches as they should be.
abbrev pub IsHarmless : Turn → Type 0
IsHarmless turn = Harmless IsLedger turn × Harmless AllAttributed turn

-- If every container stands at the status of its last movement, and every portal movement to
-- DISPATCHED names a session, and what the other services commit between the rounds, and between two
-- attempts in a round, keeps both, then both still hold after the state engine has run any number of rounds, whatever is read, whichever
-- attempts fail, whichever pallets are held back, and whenever it is stopped.
pub run_keeps :
    (turns : List Turn) (s : Service)
    → All IsHarmless turns
    → IsLedger s.run.db
    → AllAttributed s.run.db
    → IsLedger (run turns s).run.db × AllAttributed (run turns s).run.db
run_keeps turns s harmless ledger attributed = (
  run-keeps IsLedger-rule turns s (All-imp _ _ turns (λ turn h. h.0) harmless) ledger,
  run-keeps AllAttributed-rule turns s (All-imp _ _ turns (λ turn h. h.1) harmless) attributed,
)
