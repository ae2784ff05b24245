-- ===== src/Ingest/Service/Batches.antt =====
-- `validate_batch` of src/tasker_rfid/services/ingest/service.py: what becomes of each message.
use mathlib.Core.List.{
  append_assoc, append-nil, Mem, mem-append_left, mem-append_right, mem-cons_self,
}
use tasker_rfid.Prelude.{
  ℕ, ◌+◌, ◌≡◌, refl, sym, ap, ◌∙◌, subst, String, Bool, true, false, ◌||◌, List, [], ◌∷◌, ◌++◌, map,
  length, length-append, All, any, arith,
}
use tasker_rfid.Ingest.Validation.{Library, ReadRow, GateEvent}
use tasker_rfid.Prelude.Results.{Result, ok, err, ok-injective}
use tasker_rfid.Ingest.Service.{
  Message, Decoded, Batch, empty_batch, Verdict, read, gate, reject, fail, verdict, ack_of, add,
  validate_from, validate_batch,
}

-- The message has become a row of the two tables, or it can become none.
abbrev pub IsKept : List ReadRow → List GateEvent → Verdict → Type 0
IsKept reads events (read row) = Mem row reads
IsKept reads events (gate event) = Mem event events
IsKept reads events reject = Unit
IsKept reads events fail = ⊥

-- Tables that only grow keep what they have kept.
pub IsKept-append :
    (reads more : List ReadRow) (events more' : List GateEvent) (v : Verdict)
    → IsKept reads events v
    → IsKept (reads ++ more) (events ++ more') v
IsKept-append reads more events more' (read row) k = mem-append_left more k
IsKept-append reads more events more' (gate event) k = mem-append_left more' k
IsKept-append reads more events more' reject k = tt
IsKept-append reads more events more' fail k = k

pub IsKept-append_left :
    (reads more : List ReadRow) (events more' : List GateEvent) (v : Verdict)
    → IsKept more more' v
    → IsKept (reads ++ more) (events ++ more') v
IsKept-append_left reads more events more' (read row) k = mem-append_right reads k
IsKept-append_left reads more events more' (gate event) k = mem-append_right events k
IsKept-append_left reads more events more' reject k = tt
IsKept-append_left reads more events more' fail k = k

abbrev pub is_fail : Verdict → Bool
is_fail (read row) = false
is_fail (gate event) = false
is_fail reject = false
is_fail fail = true

module _ (library : Library) (prefix : String) {Bytes : Type 0} (loads : Bytes → Decoded) where
  abbrev pub verdict_of : Message Bytes → Verdict
  unfolding verdict
  verdict_of = verdict library prefix loads

  -- What a batch holds, after the messages.
  pub record IsSplit (ms : List (Message Bytes)) (b b' : Batch) : Type 0 where
    pub acks : b'.acks ≡ b.acks ++ map ack_of ms
    pub counted :
        length b'.reads + length b'.events + b'.rejected
        ≡ length b.reads + length b.events + b.rejected + length ms
    pub reads : (xs : List ReadRow) × (b'.reads ≡ b.reads ++ xs)
    pub events : (xs : List GateEvent) × (b'.events ≡ b.events ++ xs)
    pub kept : All (λ m. IsKept b'.reads b'.events (verdict_of m)) ms

  same_batch : (b b' : Batch) → ◌≡◌ {A = Result Batch Batch} (ok b) (ok b') → b ≡ b'
  same_batch b b' e = ok-injective e

  abbrev new_reads : Verdict → List ReadRow
  new_reads (read row) = row ∷ []
  new_reads (gate event) = []
  new_reads reject = []
  new_reads fail = []

  abbrev new_events : Verdict → List GateEvent
  new_events (read row) = []
  new_events (gate event) = event ∷ []
  new_events reject = []
  new_events fail = []

  -- What one message adds.
  record IsAdded (v : Verdict) (b b' : Batch) : Type 0 where
    pub acks : b'.acks ≡ b.acks
    pub counted :
        length b'.reads + length b'.events + b'.rejected
        ≡ length b.reads + length b.events + b.rejected + 1
    pub reads : b'.reads ≡ b.reads ++ new_reads v
    pub events : b'.events ≡ b.events ++ new_events v
    pub kept : IsKept (new_reads v) (new_events v) v

  read-IsAdded : (row : ReadRow) (b : Batch) → IsAdded (read row) b (add (read row) b)
  unfolding add
  read-IsAdded row b = record {
    acks = refl;
    counted = omega (arith, length-append b.reads (row ∷ []));
    reads = refl;
    events = sym (append-nil b.events);
    kept = mem-cons_self;
  }

  gate-IsAdded : (event : GateEvent) (b : Batch) → IsAdded (gate event) b (add (gate event) b)
  unfolding add
  gate-IsAdded event b = record {
    acks = refl;
    counted = omega (arith, length-append b.events (event ∷ []));
    reads = sym (append-nil b.reads);
    events = refl;
    kept = mem-cons_self;
  }

  reject-IsAdded : (b : Batch) → IsAdded reject b (add reject b)
  unfolding add
  reject-IsAdded b = record {
    acks = refl;
    counted = omega arith;
    reads = sym (append-nil b.reads);
    events = sym (append-nil b.events);
    kept = tt;
  }

  grow :
      (m : Message Bytes) (ms : List (Message Bytes)) (v : Verdict) (b b1 b' : Batch)
      → verdict_of m ≡ v
      → IsAdded v (record b { acks = b.acks ++ ack_of m ∷ [] }) b1
      → IsSplit ms b1 b'
      → IsSplit (m ∷ ms) b b'
  grow m ms v b b1 b' e one rest = record {
    acks =
        rest.acks
        ∙ ap (λ (l : List (ℕ × ℕ)). l ++ map ack_of ms) one.acks
        ∙ append_assoc b.acks (ack_of m ∷ []) (map ack_of ms);
    counted = omega (arith, rest.counted, one.counted);
    reads = (
      new_reads v ++ rest.reads.0,
      rest.reads.1
          ∙ ap (λ (l : List ReadRow). l ++ rest.reads.0) one.reads
          ∙ append_assoc b.reads _ _,
    );
    events = (
      new_events v ++ rest.events.0,
      rest.events.1
          ∙ ap (λ (l : List GateEvent). l ++ rest.events.0) one.events
          ∙ append_assoc b.events _ _,
    );
    kept = (
      subst (IsKept b'.reads b'.events) (sym e) (
          subst (λ (l : List ReadRow). IsKept l b'.events v) (sym rest.reads.1)
            (subst (λ (l : List GateEvent). IsKept (b1.reads ++ rest.reads.0) l v)
              (sym rest.events.1)
              (IsKept-append b1.reads rest.reads.0 b1.events rest.events.0 v (
                subst (λ (l : List ReadRow). IsKept l b1.events v) (sym one.reads)
                  (subst (λ (l : List GateEvent). IsKept (b.reads ++ new_reads v) l v)
                    (sym one.events)
                    (IsKept-append_left b.reads (new_reads v) b.events (new_events v) v
                      one.kept)))))),
      rest.kept,
    );
  }

  pub validate_from-IsSplit :
      (ms : List (Message Bytes)) (b b' : Batch)
      → validate_from library prefix loads ms b ≡ ok b'
      → IsSplit ms b b'
  unfolding validate_from
  validate_from-IsSplit [] b b' e = subst (IsSplit [] b) (same_batch b b' e) (record {
    acks = sym (append-nil b.acks);
    counted = omega arith;
    reads = ([], sym (append-nil b.reads));
    events = ([], sym (append-nil b.events));
    kept = tt;
  })
  validate_from-IsSplit (m ∷ ms) b b' e =
      go (verdict_of m) refl e (λ b1. validate_from-IsSplit ms b1 b')
    where
      go :
          (v : Verdict)
          → verdict_of m ≡ v
          → (elim v as (λ _. Result Batch Batch) [
            | fail ↦ err (record b { acks = b.acks ++ ack_of m ∷ [] })
            | read row ↦
                validate_from library prefix loads ms
                  (add (read row) (record b { acks = b.acks ++ ack_of m ∷ [] }))
            | gate event ↦
                validate_from library prefix loads ms
                  (add (gate event) (record b { acks = b.acks ++ ack_of m ∷ [] }))
            | reject ↦
                validate_from library prefix loads ms
                  (add reject (record b { acks = b.acks ++ ack_of m ∷ [] }))
          ])
            ≡ ok b'
          → ((b1 : Batch) → validate_from library prefix loads ms b1 ≡ ok b' → IsSplit ms b1 b')
          → IsSplit (m ∷ ms) b b'
      go (read row) e k rest = grow m ms _ b _ b' e (read-IsAdded row _) (rest _ k)
      go (gate event) e k rest = grow m ms _ b _ b' e (gate-IsAdded event _) (rest _ k)
      go reject e k rest = grow m ms _ b _ b' e (reject-IsAdded _) (rest _ k)
      go fail e k rest = cc

  -- If no exception leaves it, validate_batch acknowledges every message of the batch, in order; each is
  -- a read, a gate event or a rejection, exactly one of them; and each that can become a row is one.
  pub validate_batch-IsSplit :
      (ms : List (Message Bytes)) (b : Batch)
      → validate_batch library prefix loads ms ≡ ok b
      → (b.acks ≡ map ack_of ms)
        × (length b.reads + length b.events + b.rejected ≡ length ms)
        × All (λ m. IsKept b.reads b.events (verdict_of m)) ms
  unfolding validate_batch
  validate_batch-IsSplit ms b e =
      let h = validate_from-IsSplit ms empty_batch b e in (h.acks, omega (arith, h.counted), h.kept)

  pub validate_from_fails :
      (ms : List (Message Bytes)) (b : Batch)
      → any (λ m. is_fail (verdict_of m)) ms ≡ true
      → (b' : Batch) × (validate_from library prefix loads ms b ≡ err b')
  unfolding validate_from
  validate_from_fails [] b h = cc
  validate_from_fails (m ∷ ms) b h = go (verdict_of m) h (λ b1. validate_from_fails ms b1)
    where
      go :
          (v : Verdict)
          → is_fail v || any (λ m. is_fail (verdict_of m)) ms ≡ true
          → ((b1 : Batch)
              → any (λ m. is_fail (verdict_of m)) ms ≡ true
              → (b' : Batch) × (validate_from library prefix loads ms b1 ≡ err b'))
          → (b' : Batch) × ((elim v as (λ _. Result Batch Batch) [
            | fail ↦ err (record b { acks = b.acks ++ ack_of m ∷ [] })
            | read row ↦
                validate_from library prefix loads ms
                  (add (read row) (record b { acks = b.acks ++ ack_of m ∷ [] }))
            | gate event ↦
                validate_from library prefix loads ms
                  (add (gate event) (record b { acks = b.acks ++ ack_of m ∷ [] }))
            | reject ↦
                validate_from library prefix loads ms
                  (add reject (record b { acks = b.acks ++ ack_of m ∷ [] }))
          ])
              ≡ err b')
      go (read row) h rest = rest _ h
      go (gate event) h rest = rest _ h
      go reject h rest = rest _ h
      go fail h rest = (_, refl)
