-- ===== src/Sync/Growing.antt =====
-- Tables read by id while rows are still added to them: between two cycles of `run` of
-- src/tasker_rfid/services/sync/service.py the other services go on inserting. All that is relied on
-- is that a row appears with a higher id than the rows that are there.
use tasker_rfid.Prelude.{
  ℕ, ◌+◌, ◌-◌, ◌≤◌, ◌≡◌, List, [], ◌∷◌, ◌++◌, nat_eq, length, last_at, if◌then◌else◌,
}
use tasker_rfid.Prelude.Pages
use tasker_rfid.Sync.Tables.{Row, Replica}
use tasker_rfid.Sync.Cycle.{TableTurn}
use tasker_rfid.Sync.Serial.{position, IsSerial}
use tasker_rfid.Sync.Copies.{delivers, last_id_of, IsCopied}

module _ {A : Type 0} where
  abbrev pub highest_id : List (Row ℕ A) → ℕ
  highest_id = last_at position 0

  -- From cycle to cycle rows are added at the end, and none is changed or taken away.
  abbrev pub Grows : List (Row ℕ A) → List (TableTurn ℕ A) → Type 0
  Grows local [] = Unit
  Grows local (turn ∷ turns) =
      ((new : List (Row ℕ A)) × (turn.local ≡ local ++ new))
      × IsSerial turn.local
      × Grows turn.local turns

  -- The local table at the last cycle.
  abbrev pub local_after : List (Row ℕ A) → List (TableTurn ℕ A) → List (Row ℕ A)
  local_after local [] = local
  local_after local (turn ∷ turns) = local_after turn.local turns

  -- How many rows the replica lacks: what is added waits in a queue, and a cycle that delivers takes
  -- up to a batch from it.
  abbrev pub lag : (batch waiting known : ℕ) → List (TableTurn ℕ A) → ℕ
  lag batch waiting known [] = waiting
  lag batch waiting known (turn ∷ turns) =
      let arrived = waiting + (length turn.local - known) in
      lag batch (if delivers turn.weather then arrived - batch else arrived) (length turn.local)
        turns

  -- The replica holds what its cursor has passed, and no id that the cursor has passed is missing in
  -- the local table because it comes later.
  pub record IsFollowing (local : List (Row ℕ A)) (cloud : Replica ℕ A) : Type 0 where
    pub serial : IsSerial local
    pub copied : IsCopied local cloud
    pub bounded : last_id_of cloud ≤ highest_id local

  abbrev waiting_of : List (Row ℕ A) → Replica ℕ A → ℕ
  waiting_of local cloud = length (Pages.ahead position (last_id_of cloud) local)
