-- ===== src/Api/Health/Backlog.antt =====
-- The queue of the health report against the reads that the debouncer has before it.
use tasker_rfid.Prelude.{
  ℕ, ◌+◌, ◌≤◌, ◌≡◌, refl, Option, none, some, List, [], ◌∷◌, map, arith, length, ltb, if◌then◌else◌,
  ◌≢◌, Bool-cases, inl, inr,
}
use tasker_rfid.Prelude.Int.{pos, ◌≤ℤ◌}
use tasker_rfid.Prelude.Pages.{Rising, ahead, ahead-Rising}
use tasker_rfid.Schema.{ObservationRow}
use tasker_rfid.Api.Health.{RawRead, max_of, minus, or_zero, queue_depth}

abbrev top : List RawRead → ℕ
top reads = or_zero (max_of (map (λ r. r.id) reads))

or_zero-max :
    (o : Option ℕ) (n : ℕ)
    → or_zero (elim o [ none ↦ some n | some m ↦ some (if ltb m n then n else m) ])
      ≡ (if ltb (or_zero o) n then n else or_zero o)
or_zero-max none n = ground arith
or_zero-max (some m) n = ground arith

top_cons :
    (r : RawRead) (reads : List RawRead) → (r.id ≤ top (r ∷ reads)) × (top reads ≤ top (r ∷ reads))
unfolding max_of
top_cons r reads = ground (arith, or_zero-max (max_of (map (λ x. x.id) reads)) r.id)

-- Ids that go up from `low` leave that much room below the highest.
rows-le :
    (low : ℕ) (reads : List RawRead)
    → Rising (λ r. r.id) low reads
    → length reads ≢ 0
    → length reads + low ≤ top reads
rows-le low [] h n = absurd (n refl)
rows-le low (r ∷ []) h n = omega (arith, top_cons r [], h.0)
rows-le low (r ∷ q ∷ reads) h n =
    omega (arith, top_cons r (q ∷ reads), h.0, rows-le r.id (q ∷ reads) h.1 (λ e. omega (arith, e)))

top-ahead : (c : ℕ) (reads : List RawRead) → top (ahead (λ r. r.id) c reads) ≤ top reads
top-ahead c [] = omega arith
top-ahead c (r ∷ reads) = elim (Bool-cases (ltb c r.id)) [
  | inl e ↦ rw e (both r (ahead (λ x. x.id) c reads) reads (top-ahead c reads))
  | inr e ↦ rw e (omega (arith, top-ahead c reads, top_cons r reads))
]
  where
    both : (r : RawRead) (xs ys : List RawRead) → top xs ≤ top ys → top (r ∷ xs) ≤ top (r ∷ ys)
    both r xs ys h =
        unfold max_of in
        ground (
          arith,
          or_zero-max (max_of (map (λ x. x.id) xs)) r.id,
          or_zero-max (max_of (map (λ x. x.id) ys)) r.id,
        )

-- If the ids of reads_raw go up and some read is ahead of the debouncer's cursor, then the depth that
-- the health report gives for the debouncer is at least the number of the reads that are ahead of it.
pub queue_depth-ahead :
    (low c : ℕ) (reads : List RawRead) (observations : List ObservationRow)
    → Rising (λ r. r.id) low reads
    → length (ahead (λ r. r.id) c reads) ≢ 0
    → pos (length (ahead (λ r. r.id) c reads))
      ≤ℤ (queue_depth reads (c ∷ []) observations).reads_awaiting_debounce
unfolding queue_depth max_of minus
queue_depth-ahead low c reads observations h n =
    let room = rows-le c (ahead (λ r. r.id) c reads) (ahead-Rising (λ r. r.id) low c reads h) n in
    ground (arith, room, top-ahead c reads)
