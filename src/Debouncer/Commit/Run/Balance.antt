-- ===== src/Debouncer/Commit/Run/Balance.antt =====
-- No read is lost between the start of the debouncer and its end.
use tasker_rfid.Prelude.{
  ℕ, ◌+◌, ◌≡◌, refl, ◌∙◌, true, false, not, none, some, List, [], ◌∷◌, arith, length, select, All,
  Option-cases, inl, inr,
}
use tasker_rfid.Retry.{Fault}
use tasker_rfid.Debouncer.Service.{Settings, RawRead, Debouncer, close_quiet_groups, is_finished}
use tasker_rfid.Debouncer.Service.Conservation.{
  Groups, reads_in, reads_of, reads_held, rejected, close_quiet_groups-conserves,
}
use tasker_rfid.Debouncer.Commit.{Tables, fetch_reads, fetch_batch, flush, load_cursor}
use tasker_rfid.Debouncer.Commit.Cursor.{IsRolledBack, IsSynced}
use tasker_rfid.Debouncer.Commit.Written.{reads_written, commit-Written}
use tasker_rfid.Debouncer.Commit.Accounts.{taken, round-Balanced, unmapped-close}
use tasker_rfid.Debouncer.Commit.Run.{Env, arrive, one_round, run}

-- What a state accounts for.
abbrev pub accounted : Debouncer × Tables → ℕ
accounted (s, t) = reads_written t.observations + reads_held s + s.unmapped_antenna_reads

module _ (settings : Settings) (utc_now : ℕ → ℕ) where
  -- The reads that a round takes in.
  abbrev pub batch_of : Env → Debouncer × Tables → List RawRead
  batch_of env (s, t) = fetch_reads fetch_batch s.cursor_id (arrive env t)

  -- The reads in the observations that the filters reject in a round.
  abbrev pub dropped_in : Env → Debouncer × Tables → ℕ
  dropped_in env (s, t) = reads_of (
      rejected settings false env.closed_at
        (taken settings env.absorbed_at utc_now (batch_of env (s, t)) s))

  -- The same, over a whole run.
  unfoldable pub reads_taken : List Env → Debouncer × Tables → ℕ
  reads_taken [] state = 0
  reads_taken (env ∷ envs) state = elim (one_round settings utc_now env state) [
    | none ↦ 0
    | some state' ↦ length (batch_of env state) + reads_taken envs state'
  ]

  unfoldable pub reads_dropped : List Env → (flushed_at : ℕ) → Debouncer × Tables → ℕ
  reads_dropped [] flushed_at state = reads_of (rejected settings true flushed_at state.0)
  reads_dropped (env ∷ envs) flushed_at state = elim (one_round settings utc_now env state) [
    | none ↦ 0
    | some state' ↦ dropped_in env state + reads_dropped envs flushed_at state'
  ]

  none_left :
      (now : ℕ) (groups : Groups)
      → reads_in (select (λ g. not (is_finished settings true now g)) groups) ≡ 0
  unfolding is_finished
  none_left now [] = refl
  none_left now ((key, group) ∷ groups) = none_left now groups

  -- A forced close keeps no group open.
  held-forced :
      (now : ℕ) (s : Debouncer) → reads_held (close_quiet_groups settings true now s).1 ≡ 0
  unfolding close_quiet_groups
  held-forced now s = omega (arith, none_left now s.open_groups)

  -- What is left when the service has stopped: nothing is in memory, and `n` reads are in the
  -- observations that were written, in `dropped` reads that the filters rejected, or unmapped.
  pub record IsFlushed (n dropped : ℕ) (r : Debouncer × Tables) : Type 0 where
    pub none_held : reads_held r.0 ≡ 0
    pub balance : reads_written r.1.observations + dropped + r.0.unmapped_antenna_reads ≡ n

  flush-IsFlushed :
      (flushed_at : ℕ) (faults : List (Fault (Unit {0}))) (state r : Debouncer × Tables)
      → All IsRolledBack faults
      → flush settings flushed_at faults state ≡ some r
      → IsFlushed (accounted state) (reads_of (rejected settings true flushed_at state.0)) r
  unfolding flush
  flush-IsFlushed flushed_at faults (s, t) r calm e =
      let closed = close_quiet_groups settings true flushed_at s in
      let w = commit-Written settings faults calm closed.1 t closed.0 closed.1.cursor_id e in
      record {
        none_held = w.held ∙ held-forced flushed_at s;
        balance = omega (
          arith,
          w.written,
          w.unmapped,
          unmapped-close settings true flushed_at s,
          held-forced flushed_at s,
          close_quiet_groups-conserves settings true flushed_at s,
        );
      }

  abbrev IsCalm : Env → Type 0
  IsCalm env = All IsRolledBack env.faults

  -- If the stored cursor is the one in memory at the start, and failed attempts are rolled back, then
  -- however many rounds the debouncer runs, whatever reads and events arrive meanwhile, and whenever
  -- it stops: when `run` has ended, no read is left in memory, and those in the observations written,
  -- those in observations that the filters rejected, and those counted as unmapped are together
  -- exactly those that there were at the start and those that the rounds have taken from reads_raw.
  pub run-IsFlushed :
      (envs : List Env) (flushed_at : ℕ) (faults : List (Fault (Unit {0})))
      (state r : Debouncer × Tables)
      → IsSynced state
      → All IsCalm envs
      → All IsRolledBack faults
      → run settings utc_now envs flushed_at faults state ≡ some r
      → IsFlushed (accounted state + reads_taken envs state) (reads_dropped envs flushed_at state) r
  unfolding run reads_taken reads_dropped arrive load_cursor
  run-IsFlushed [] flushed_at faults state r synced calm quiet e =
      let f = flush-IsFlushed flushed_at faults state r quiet e in
      record { none_held = f.none_held; balance = omega (arith, f.balance) }
  run-IsFlushed (env ∷ envs) flushed_at faults (s, t) r synced calm quiet e =
      elim (Option-cases (one_round settings utc_now env (s, t))) [
        | inl f ↦ cc (rw (f, run) at e)
        | inr (state', f) ↦
            let b =
              round-Balanced settings env.absorbed_at env.closed_at utc_now env.faults s
                (arrive env t) state' synced calm.0 f in
            let rest =
              run-IsFlushed envs flushed_at faults state' r b.synced calm.1 quiet
                (rw (f, run) at e) in
            record {
              none_held = rest.none_held;
              balance = rw (f, reads_taken, reads_dropped) (omega (arith, rest.balance, b.balance));
            }
      ]
