-- ===== src/Sync/Rounds.antt =====
-- `run_once` and the delays of `run` of src/tasker_rfid/services/sync/service.py.
use tasker_rfid.Prelude.{
  ℕ, ◌≤◌, ◌≡◌, refl, sym, subst, String, Bool, true, false, ◌&&◌, List, [], ◌∷◌, nat_eq, string_eq,
  Eq, ◌==◌, ◌⊎◌, inl, inr, Bool-cases, if_ind, All, All-imp, elem, arith, eq_iff,
}
use tasker_rfid.Prelude.Results.{Result, ok, err}
use tasker_rfid.Sync.Tables.{SyncedTable, by_serial, synced_tables, Replica}
use tasker_rfid.Sync.Cycle.{
  Failure, Step, Turn, Locals, Replicas, update, sync_table, run_once, Loop, after_cycle,
  retry_initial, retry_max,
}
use tasker_rfid.Sync.Serial.{IsSerial}
use tasker_rfid.Sync.Copies.{IsCopied, sync_table-IsCopied}

module _ {K A : Type 0} ⦃e : Eq K⦄ (batch : ℕ) (turns : String → Turn) (locals : Locals K A)
    (name : String) (Good : Replica K A → Type 0) where
  -- What the copy of one table keeps, a whole cycle keeps: the other tables are not touched.
  abbrev Keeps : SyncedTable → Type 0
  Keeps table =
      (name == table.name) ≡ true
      → (cloud : Replica K A) → Good cloud
      → Good (sync_table batch (turns table.name).weather table (locals name) cloud).0

  -- The end of one turn, whatever came out of the table's copy.
  turn-keeps :
      (table : SyncedTable) (clouds : Replicas K A) (s : Step K A)
      (rest : Bool → Replicas K A × Result Failure Bool)
      → Good (update table.name s.0 clouds name)
      → ((b : Bool) → Good ((rest b).0 name))
      → Good (
          (elim s.1 as (λ _. Replicas K A × Result Failure Bool) [
            | err failure ↦ (update table.name s.0 clouds, err failure)
            | ok progress ↦ rest progress.caught_up
          ]).0
            name)
  turn-keeps table clouds (cloud, err failure) rest g r = g
  turn-keeps table clouds (cloud, ok progress) rest g r = r progress.caught_up

  updated :
      (table : SyncedTable) (clouds : Replicas K A)
      → Keeps table
      → Good (clouds name)
      → Good (
          update table.name
            (sync_table batch
              (turns table.name).weather
              table
              (locals table.name)
              (clouds table.name)).0
            clouds
            name)
  updated table clouds k g = elim (Bool-cases (name == table.name)) [
    | inl h ↦
        let same = (eq_iff name table.name).0 h in
        rw h (
          subst
            (λ n. Good (sync_table batch (turns table.name).weather table (locals n) (clouds n)).0)
            same (k h (clouds name) g))
    | inr h ↦ rw h g
  ]

  run_once-keeps :
      (tables : List SyncedTable) (caught_up : Bool) (clouds : Replicas K A)
      → All Keeps tables
      → Good (clouds name)
      → Good ((run_once batch turns tables locals caught_up clouds).0 name)
  unfolding run_once
  run_once-keeps [] caught_up clouds h g = g
  run_once-keeps (table ∷ tables) caught_up clouds h g =
      let s =
        sync_table batch (turns table.name).weather table (locals table.name) (clouds table.name) in
      let kept = updated table clouds h.0 g in
      if_ind (λ (s : Replicas K A × Result Failure Bool). Good (s.0 name))
        (turns table.name).stopping (λ _. g)
        (λ _.
          turn-keeps table clouds s
            (λ b.
              run_once batch turns tables locals (caught_up && b) (update table.name s.0 clouds))
            kept (λ b. run_once-keeps tables (caught_up && b) _ h.1 kept))

-- The tables that are read by id.
abbrev pub serial_names : List String
serial_names = "movements" ∷ "gate_events" ∷ "reads_raw" ∷ []

serial_cases :
    (P : String → Type 0) (name : String)
    → elem name serial_names ≡ true
    → P "movements"
    → P "gate_events"
    → P "reads_raw"
    → P name
serial_cases P name member m g r = elim (Bool-cases ("movements" == name)) [
  | inl h ↦ subst P ((eq_iff "movements" name).0 h) m
  | inr h ↦ elim (Bool-cases ("gate_events" == name)) [
    | inl k ↦ subst P ((eq_iff "gate_events" name).0 k) g
    | inr k ↦ subst P ((eq_iff "reads_raw" name).0 (ground (arith, member, h, k))) r
  ]
]

module _ {A : Type 0} (batch : ℕ) (turns : String → Turn) (locals : Locals ℕ A) where
  abbrev IsOwnOrOther : String → SyncedTable → Type 0
  IsOwnOrOther name table = ((name == table.name) ≡ false) ⊎ (table ≡ by_serial name)

  All-Keeps :
      (name : String) (tables : List SyncedTable)
      → IsSerial (locals name)
      → All (IsOwnOrOther name) tables
      → All (Keeps batch turns locals name (IsCopied (locals name))) tables
  All-Keeps name tables h = All-imp (IsOwnOrOther name) _ tables (λ table o. keeps table o)
    where
      keeps :
          (table : SyncedTable)
          → IsOwnOrOther name table
          → Keeps batch turns locals name (IsCopied (locals name)) table
      keeps table (inl different) same cloud g = ground (arith, same, different)
      keeps table (inr own) same cloud g =
          subst
            (λ t.
              IsCopied (locals name)
                (sync_table batch (turns t.name).weather t (locals name) cloud).0)
            (sym own) (sync_table-IsCopied batch name (locals name) h (turns name).weather cloud g)

  own_or_other :
      (name : String) → elem name serial_names ≡ true → All (IsOwnOrOther name) synced_tables
  own_or_other name member =
      serial_cases (λ n. All (IsOwnOrOther n) synced_tables) name member
        (
          inl refl,
          (
            inl refl,
            (
              inl refl,
              (
                inl refl,
                (
                  inl refl,
                  (
                    inl refl,
                    (inl refl, (inr refl, (inl refl, (inl refl, (inl refl, (inl refl, tt)))))),
                  ),
                ),
              ),
            ),
          ),
        )
        (
          inl refl,
          (
            inl refl,
            (
              inl refl,
              (
                inl refl,
                (
                  inl refl,
                  (
                    inl refl,
                    (inl refl, (inl refl, (inl refl, (inl refl, (inr refl, (inl refl, tt)))))),
                  ),
                ),
              ),
            ),
          ),
        )
        (
          inl refl,
          (
            inl refl,
            (
              inl refl,
              (
                inl refl,
                (
                  inl refl,
                  (
                    inl refl,
                    (inl refl, (inl refl, (inl refl, (inl refl, (inl refl, (inr refl, tt)))))),
                  ),
                ),
              ),
            ),
          ),
        )

  -- In a whole cycle over the tables, stopped early or not and whatever fails in it, each table that
  -- is read by id, and whose replica holds exactly the rows up to its cursor, still has such a
  -- replica afterwards.
  pub run_once-IsCopied :
      (name : String) (clouds : Replicas ℕ A)
      → elem name serial_names ≡ true
      → IsSerial (locals name)
      → IsCopied (locals name) (clouds name)
      → IsCopied (locals name) ((run_once batch turns synced_tables locals true clouds).0 name)
  run_once-IsCopied name clouds member h g =
      run_once-keeps batch turns locals name (IsCopied (locals name)) synced_tables true clouds
        (All-Keeps name synced_tables h (own_or_other name member)) g

-- The wait after a cycle that failed is what it was before the cycle, it then doubles up to a minute,
-- and a cycle that succeeds puts it back to two seconds: it always lies between the two.
pub after_cycle-bounds :
    (outcome : Result Failure Bool) (l : Loop)
    → retry_initial ≤ l.delay
    → l.delay ≤ retry_max
    → (retry_initial ≤ (after_cycle outcome l).1.delay)
      × ((after_cycle outcome l).1.delay ≤ retry_max)
      × ((after_cycle outcome l).0 ≤ retry_max)
unfolding after_cycle
after_cycle-bounds (ok true) l low high = ground (arith, low, high)
after_cycle-bounds (ok false) l low high = ground (arith, low, high)
after_cycle-bounds (err failure) l low high = ground (arith, low, high)
