-- ===== src/Ingest/Service/Loop.antt =====
-- `writer_loop` of src/tasker_rfid/services/ingest/service.py: what is acknowledged is kept.
use mathlib.Core.List.{append_assoc, append-nil, map-append}
use tasker_rfid.Prelude.{
  ℕ, ◌+◌, ◌≡◌, refl, sym, ap, ◌∙◌, subst, String, true, false, none, List, [], ◌∷◌, ◌++◌, map, leb,
  not, if_ind, length, All, All-append, All-imp, flat_map, any, arith,
}
use tasker_rfid.Ingest.Validation.{Library, ReadRow, GateEvent}
use tasker_rfid.Prelude.Results.{Result, ok, err}
use tasker_rfid.Ingest.Service.{
  Ingest, Message, Decoded, Batch, empty_batch, Verdict, ack_of, validate_batch, Attempt, Written,
  written, gave_up, still_trying, write_batch, Turn, Exit, goes_on, ends, has_rows, acknowledge,
  write_and_acknowledge, turn, writer_loop,
}
use tasker_rfid.Ingest.Service.Writes.{times, copies_of, IsCopiedTimes, write_batch-copies}
use tasker_rfid.Ingest.Service.Batches.{
  IsKept, IsKept-append, IsKept-append_left, is_fail, verdict_of, IsSplit, validate_from-IsSplit,
  validate_from_fails,
}

module _ (library : Library) (prefix : String) {Bytes : Type 0} (loads : Bytes → Decoded) where
  -- What the broker has been told since, and what the tables have got.
  pub record IsTold (done : List (Message Bytes)) (s s' : Ingest) : Type 0 where
    pub acks : s'.acks ≡ s.acks ++ map ack_of done
    pub kept :
        All (λ m. IsKept s'.reads_raw s'.gate_events (verdict_of library prefix loads m)) done
    pub reads_raw : (xs : List ReadRow) × (s'.reads_raw ≡ s.reads_raw ++ xs)
    pub gate_events : (xs : List GateEvent) × (s'.gate_events ≡ s.gate_events ++ xs)

  untold : (s : Ingest) → IsTold [] s s
  untold s = record {
    acks = sym (append-nil s.acks);
    kept = tt;
    reads_raw = ([], sym (append-nil s.reads_raw));
    gate_events = ([], sym (append-nil s.gate_events));
  }

  -- What the tables have kept, they keep.
  IsKept-grown :
      (s s' : Ingest) (xs : List ReadRow) (ys : List GateEvent)
      → s'.reads_raw ≡ s.reads_raw ++ xs
      → s'.gate_events ≡ s.gate_events ++ ys
      → (v : Verdict) → IsKept s.reads_raw s.gate_events v
      → IsKept s'.reads_raw s'.gate_events v
  IsKept-grown s s' xs ys e f v k =
      subst (λ (l : List ReadRow). IsKept l s'.gate_events v) (sym e)
        (subst (λ (l : List GateEvent). IsKept (s.reads_raw ++ xs) l v) (sym f)
          (IsKept-append s.reads_raw xs s.gate_events ys v k))

  IsTold-append :
      (d1 d2 : List (Message Bytes)) (s s1 s2 : Ingest)
      → IsTold d1 s s1
      → IsTold d2 s1 s2
      → IsTold (d1 ++ d2) s s2
  IsTold-append d1 d2 s s1 s2 h k = record {
    acks =
        k.acks
        ∙ ap (λ (l : List (ℕ × ℕ)). l ++ map ack_of d2) h.acks
        ∙ append_assoc s.acks (map ack_of d1) (map ack_of d2)
        ∙ ap (λ (l : List (ℕ × ℕ)). s.acks ++ l) (sym (map-append ack_of d1 d2));
    kept =
        All-append _ d1 d2
          (All-imp _ _ d1
            (λ m.
              IsKept-grown s1 s2 k.reads_raw.0 k.gate_events.0 k.reads_raw.1 k.gate_events.1
                (verdict_of library prefix loads m))
            h.kept)
          k.kept;
    reads_raw = (
      h.reads_raw.0 ++ k.reads_raw.0,
      k.reads_raw.1
          ∙ ap (λ (l : List ReadRow). l ++ k.reads_raw.0) h.reads_raw.1
          ∙ append_assoc s.reads_raw _ _,
    );
    gate_events = (
      h.gate_events.0 ++ k.gate_events.0,
      k.gate_events.1
          ∙ ap (λ (l : List GateEvent). l ++ k.gate_events.0) h.gate_events.1
          ∙ append_assoc s.gate_events _ _,
    );
  }

  -- A turn that goes on has told the broker of its whole batch; one that ends the loop, of nothing.
  abbrev TurnTold : List (Message Bytes) → Ingest → Exit × Ingest → Type 0
  TurnTold ms s (goes_on, s') = IsTold ms s s'
  TurnTold ms s (ends, s') = IsTold [] s s'

  module _ (ms : List (Message Bytes)) (b : Batch)
      (h : IsSplit library prefix loads ms empty_batch b) where
    acknowledged :
        (s s' : Ingest) (xs : List ReadRow) (ys : List GateEvent)
        → s'.reads_raw ≡ s.reads_raw ++ (b.reads ++ xs)
        → s'.gate_events ≡ s.gate_events ++ (b.events ++ ys)
        → s'.acks ≡ s.acks
        → IsTold ms s (acknowledge b s')
    acknowledged s s' xs ys e f g = record {
      acks =
          ap (λ (l : List (ℕ × ℕ)). l ++ b.acks) g ∙ ap (λ (l : List (ℕ × ℕ)). s.acks ++ l) h.acks;
      kept =
          All-imp _ _ ms
            (λ m k.
              subst
                (λ (l : List ReadRow). IsKept l s'.gate_events (verdict_of library prefix loads m))
                (sym e)
                (subst
                  (λ (l : List GateEvent).
                    IsKept (s.reads_raw ++ (b.reads ++ xs)) l (verdict_of library prefix loads m))
                  (sym f)
                  (IsKept-append_left s.reads_raw (b.reads ++ xs) s.gate_events (b.events ++ ys)
                    (verdict_of library prefix loads m)
                    (IsKept-append b.reads xs b.events ys (verdict_of library prefix loads m) k))))
            h.kept;
      reads_raw = (b.reads ++ xs, e);
      gate_events = (b.events ++ ys, f);
    }

    ended : (n : ℕ) (s s' : Ingest) → IsCopiedTimes b.reads b.events n s s' → IsTold [] s s'
    ended n s s' k = record {
      acks = k.acks ∙ sym (append-nil s.acks);
      kept = tt;
      reads_raw = (times n b.reads, k.reads_raw);
      gate_events = (times n b.events, k.gate_events);
    }

    after_write :
        (lost : ℕ) (outcome : Written) (s s' : Ingest)
        → IsCopiedTimes b.reads b.events (copies_of outcome lost) s s'
        → TurnTold ms s (elim outcome [
          | written ↦ (goes_on, acknowledge b s')
          | gave_up ↦ (ends, s')
          | still_trying ↦ (ends, s')
        ])
    after_write lost written s s' k =
        acknowledged s s' (times lost b.reads) (times lost b.events) k.reads_raw k.gate_events
          k.acks
    after_write lost gave_up s s' k = ended lost s s' k
    after_write lost still_trying s s' k = ended lost s s' k

    write_and_acknowledge-TurnTold :
        (attempts : List Attempt) (s : Ingest) → TurnTold ms s (write_and_acknowledge b attempts s)
    unfolding write_and_acknowledge
    write_and_acknowledge-TurnTold attempts s =
        if_ind (TurnTold ms s) (has_rows b)
          (λ _.
            let (lost, _, k) = write_batch-copies b.reads b.events attempts none s in
            after_write lost (write_batch b.reads b.events attempts none s).0 s
              (write_batch b.reads b.events attempts none s).1 k)
          (λ e.
            acknowledged s s [] [] (nothing_read b.reads b.events s.reads_raw e)
              (nothing_seen b.reads b.events s.gate_events e) refl)
      where
        nothing_read :
            (rs : List ReadRow) (es : List GateEvent) (l : List ReadRow)
            → not (leb (length rs + length es) 0) ≡ false
            → l ≡ l ++ (rs ++ [])
        nothing_read [] es l e = sym (append-nil l)
        nothing_read (r ∷ rs) es l e = ground (arith, e)

        nothing_seen :
            (rs : List ReadRow) (es : List GateEvent) (l : List GateEvent)
            → not (leb (length rs + length es) 0) ≡ false
            → l ≡ l ++ (es ++ [])
        nothing_seen rs [] l e = sym (append-nil l)
        nothing_seen rs (x ∷ es) l e = ground (arith, e)

  turn-TurnTold : (t : Turn Bytes) (s : Ingest) → TurnTold t.batch s (turn library prefix loads t s)
  unfolding turn validate_batch
  turn-TurnTold t s = go (validate_batch library prefix loads t.batch) refl
    where
      counted :
          (n : ℕ) (ms : List (Message Bytes)) (r : Exit × Ingest)
          → TurnTold ms (record s { rejected = n }) r
          → TurnTold ms s r
      counted n ms (goes_on, s') h = record {
        acks = h.acks;
        kept = h.kept;
        reads_raw = h.reads_raw;
        gate_events = h.gate_events;
      }
      counted n ms (ends, s') h = record {
        acks = h.acks;
        kept = h.kept;
        reads_raw = h.reads_raw;
        gate_events = h.gate_events;
      }

      go :
          (o : Result Batch Batch)
          → validate_batch library prefix loads t.batch ≡ o
          → TurnTold t.batch s (elim o as (λ _. Exit × Ingest) [
            | err b ↦ (
              ends,
              record s {
                rejected = s.rejected + b.rejected;
                writer_failed = true;
                stopping = true;
              },
            )
            | ok b ↦
                write_and_acknowledge b t.attempts (record s { rejected = s.rejected + b.rejected })
          ])
      go (err b) e = record {
        acks = sym (append-nil s.acks);
        kept = tt;
        reads_raw = ([], sym (append-nil s.reads_raw));
        gate_events = ([], sym (append-nil s.gate_events));
      }
      go (ok b) e = counted _ t.batch _ (
          write_and_acknowledge-TurnTold t.batch b
            (validate_from-IsSplit library prefix loads t.batch empty_batch b e) t.attempts _)

  -- Whatever the queue brings and however the transactions end, the broker is told of the first
  -- messages that came, in their order, and of no others; each of them that can become a row is in its
  -- table; and the tables have lost nothing.
  pub writer_loop-IsTold :
      (ts : List (Turn Bytes)) (s : Ingest)
      → (done : List (Message Bytes)) × (left : List (Message Bytes)) × (flat_map
            (λ (t : Turn Bytes). t.batch)
            ts
          ≡ done ++ left)
        × IsTold done s (writer_loop library prefix loads ts s)
  unfolding writer_loop
  writer_loop-IsTold [] s = ([], [], refl, untold s)
  writer_loop-IsTold (t ∷ ts) s =
      go (turn library prefix loads t s).0 (turn library prefix loads t s).1 (turn-TurnTold t s)
        (λ s'. writer_loop-IsTold ts s')
    where
      go :
          (exit : Exit) (s' : Ingest)
          → TurnTold t.batch s (exit, s')
          → ((s1 : Ingest)
              → (done : List (Message Bytes)) × (left : List (Message Bytes)) × (flat_map
                    (λ (t : Turn Bytes). t.batch)
                    ts
                  ≡ done ++ left)
                × IsTold done s1 (writer_loop library prefix loads ts s1))
          → (done : List (Message Bytes)) × (left : List (Message Bytes)) × (flat_map
                (λ (t : Turn Bytes). t.batch)
                (t ∷ ts)
              ≡ done ++ left)
            × IsTold done s (elim exit as (λ _. Ingest) [
              | ends ↦ s'
              | goes_on ↦ writer_loop library prefix loads ts s'
            ])
      go ends s' h later = ([], _, refl, h)
      go goes_on s' h later =
          let (done, left, e, k) = later s' in
          (
            t.batch ++ done,
            left,
            ap (λ (l : List (Message Bytes)). t.batch ++ l) e
                ∙ sym (append_assoc t.batch done left),
            IsTold-append t.batch done s s' _ h k,
          )

  -- If `json.loads` raises, on one message of a batch, anything but JSONDecodeError and
  -- UnicodeDecodeError, then the service ends with a failure: nothing of the batch is written or
  -- acknowledged, and nothing after it is looked at; only the count of rejections may have gone up.
  pub writer_loop_fails :
      (t : Turn Bytes) (ts : List (Turn Bytes)) (s : Ingest)
      → any (λ m. is_fail (verdict_of library prefix loads m)) t.batch ≡ true
      → (n : ℕ) × (writer_loop library prefix loads (t ∷ ts) s
          ≡ record s { rejected = s.rejected + n; writer_failed = true; stopping = true })
  unfolding writer_loop turn validate_batch
  writer_loop_fails t ts s h =
      let (b, e) = validate_from_fails library prefix loads t.batch empty_batch h in
      (b.rejected, ap ended e)
    where
      ended : Result Batch Batch → Ingest
      ended o =
          let (exit, s') = elim o as (λ _. Exit × Ingest) [
            | err b ↦ (
              ends,
              record s {
                rejected = s.rejected + b.rejected;
                writer_failed = true;
                stopping = true;
              },
            )
            | ok b ↦
                write_and_acknowledge b t.attempts (record s { rejected = s.rejected + b.rejected })
          ] in
          elim exit [ ends ↦ s' | goes_on ↦ writer_loop library prefix loads ts s' ]
