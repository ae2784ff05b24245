-- ===== src/Debouncer/Commit/Accounts.antt =====
-- One round of the debouncer, from reads_raw to observations.
use tasker_rfid.Prelude.{
  ℕ, ◌+◌, ◌≡◌, refl, sym, ◌∙◌, Bool, false, some, List, [], ◌∷◌, ◌++◌, arith, nat_eq, if◌then◌else◌,
  length, All,
}
use tasker_rfid.Retry.{Fault}
use tasker_rfid.Debouncer.Grouping.{Observation}
use tasker_rfid.Debouncer.Service.{
  Settings, RawRead, Debouncer, absorb, absorb_row, absorb_rows, join, warn_if_future_dated,
  close_quiet_groups,
}
use tasker_rfid.Debouncer.Service.Conservation.{
  reads_of, reads_held, rejected, absorb_rows-conserves, close_quiet_groups-conserves,
}
use tasker_rfid.Debouncer.Commit.{Tables, fetch_reads, fetch_batch, highest_id, round, is_empty}
use tasker_rfid.Debouncer.Commit.Cursor.{Rising, passed, passed-fetched, IsRolledBack, IsSynced}
use tasker_rfid.Debouncer.Commit.Written.{reads_written, Finished, write_round-Finished}

-- What a round leaves, from the `rows` that it takes and the observations that it rejects.
pub record Accounted (rows : List RawRead) (dropped : List Observation)
    (before after : Debouncer × Tables) : Type 0 where
  pub synced : IsSynced after
  pub consumed :
      passed after.0.cursor_id after.1.reads_raw
      ≡ passed before.0.cursor_id before.1.reads_raw ++ rows
  pub balance :
      reads_written after.1.observations
        + reads_of dropped
        + reads_held after.0
        + after.0.unmapped_antenna_reads
      ≡ reads_written before.1.observations
        + reads_held before.0
        + before.0.unmapped_antenna_reads
        + length rows

module _ (settings : Settings) (absorbed_at : ℕ) (utc_now : ℕ → ℕ) where
  -- The state after the reads are taken in, which a round without reads skips.
  abbrev pub taken : List RawRead → Debouncer → Debouncer
  taken rows s = if is_empty rows then s else absorb settings absorbed_at utc_now rows s

  taken-conserves :
      (rows : List RawRead) (s : Debouncer)
      → reads_held (taken rows s) + (taken rows s).unmapped_antenna_reads
        ≡ reads_held s + s.unmapped_antenna_reads + length rows
  unfolding absorb
  taken-conserves [] s = omega arith
  taken-conserves (x ∷ rows) s = absorb_rows-conserves settings absorbed_at utc_now (x ∷ rows) s

  cursor-absorb_rows :
      (rows : List RawRead) (s : Debouncer)
      → (absorb_rows settings absorbed_at utc_now rows s).cursor_id ≡ s.cursor_id
  unfolding absorb_rows absorb_row join warn_if_future_dated
  cursor-absorb_rows [] s = refl
  cursor-absorb_rows (x ∷ rows) s =
      cursor-absorb_rows rows (absorb_row settings absorbed_at utc_now x s) ∙ ground arith

  cursor-taken : (rows : List RawRead) (s : Debouncer) → (taken rows s).cursor_id ≡ s.cursor_id
  unfolding absorb
  cursor-taken [] s = refl
  cursor-taken (x ∷ rows) s = cursor-absorb_rows (x ∷ rows) s

consumed_lem :
    (batch c : ℕ) (t : Tables) {kept : ℕ} {reads_raw : List RawRead}
    → Rising 0 t.reads_raw
    → kept ≡ highest_id c (fetch_reads batch c t)
    → reads_raw ≡ t.reads_raw
    → passed kept reads_raw ≡ passed c t.reads_raw ++ fetch_reads batch c t
unfolding fetch_reads
consumed_lem batch c t rising kept same =
    rw (kept, same) (passed-fetched 0 c batch t.reads_raw rising)

pub unmapped-close :
    (settings : Settings) (force : Bool) (closed_at : ℕ) (s : Debouncer)
    → (close_quiet_groups settings force closed_at s).1.unmapped_antenna_reads
      ≡ s.unmapped_antenna_reads
unfolding close_quiet_groups
unmapped-close settings force closed_at s = refl

-- The part of `Accounted` that does not look at the ids.
pub record Balanced (rows : ℕ) (dropped : List Observation) (before after : Debouncer × Tables)
    : Type 0 where
  pub synced : IsSynced after
  pub balance :
      reads_written after.1.observations
        + reads_of dropped
        + reads_held after.0
        + after.0.unmapped_antenna_reads
      ≡ reads_written before.1.observations
        + reads_held before.0
        + before.0.unmapped_antenna_reads
        + rows

module _ (settings : Settings) (absorbed_at closed_at : ℕ) (utc_now : ℕ → ℕ)
    (faults : List (Fault (Unit {0}))) (s : Debouncer) (t : Tables) (r : Debouncer × Tables)
    (synced : IsSynced (s, t)) (calm : All IsRolledBack faults)
    (e : round settings absorbed_at closed_at utc_now faults (s, t) ≡ some r) where
  abbrev rows_of : List RawRead
  rows_of = fetch_reads fetch_batch s.cursor_id t

  abbrev after_taking : Debouncer
  after_taking = taken settings absorbed_at utc_now rows_of s

  round-Finished :
      Finished
        (close_quiet_groups settings false closed_at after_taking).0
        (highest_id s.cursor_id rows_of)
        (close_quiet_groups settings false closed_at after_taking).1
        t
        r
  unfolding round close_quiet_groups
  round-Finished =
      write_round-Finished settings faults calm (highest_id s.cursor_id rows_of) _ t _ s.cursor_id r
        (cursor-taken settings absorbed_at utc_now rows_of s) synced e

  pub round-Balanced :
      Balanced (length rows_of) (rejected settings false closed_at after_taking) (s, t) r
  round-Balanced =
      let f = round-Finished in
      record {
        synced = f.stored ∙ sym f.kept;
        balance = omega (
          arith,
          f.written,
          f.held,
          f.unmapped,
          unmapped-close settings false closed_at after_taking,
          taken-conserves settings absorbed_at utc_now rows_of s,
          close_quiet_groups-conserves settings false closed_at after_taking,
        );
      }

-- If the ids of reads_raw go up, the stored cursor is the one in memory, and failed attempts are
-- rolled back, then after a round the stored cursor is again the one in memory, it has passed
-- exactly the reads that it had passed before and those of the batch, and every read of the batch
-- is in an observation written, in one rejected, in an open group, or counted as unmapped.
pub round-Accounted :
    (settings : Settings) (absorbed_at closed_at : ℕ) (utc_now : ℕ → ℕ)
    (faults : List (Fault (Unit {0}))) (s : Debouncer) (t : Tables) (r : Debouncer × Tables)
    → Rising 0 t.reads_raw
    → IsSynced (s, t)
    → All IsRolledBack faults
    → round settings absorbed_at closed_at utc_now faults (s, t) ≡ some r
    → let rows = fetch_reads fetch_batch s.cursor_id t in
      Accounted rows
        (rejected settings false closed_at (taken settings absorbed_at utc_now rows s))
        (s, t)
        r
round-Accounted settings absorbed_at closed_at utc_now faults s t r rising synced calm e =
    let f = round-Finished settings absorbed_at closed_at utc_now faults s t r synced calm e in
    let b = round-Balanced settings absorbed_at closed_at utc_now faults s t r synced calm e in
    record {
      synced = b.synced;
      consumed = consumed_lem fetch_batch s.cursor_id t rising f.kept f.same_reads;
      balance = b.balance;
    }
