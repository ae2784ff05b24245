-- ===== src/Ingest/Service/Writes.antt =====
-- `write_batch` of src/tasker_rfid/services/ingest/service.py.
use tasker_rfid.Prelude.{
  ℕ, zero, suc, ◌≤◌, ◌≡◌, refl, sym, ap, ◌∙◌, Bool, true, false, Option, List, [], ◌∷◌, ◌++◌, leb,
  if◌then◌else◌, if_ind, length, All, any, select, arith,
}
use mathlib.Core.List.{append_assoc, append-nil}
use tasker_rfid.Ingest.Validation.{ReadRow, GateEvent}
use tasker_rfid.Ingest.Service.{
  Ingest, Fate, committed, refused, unacknowledged, Attempt, Written, written, gave_up,
  still_trying, deadline, after_error, insert_rows, count_rows, write_batch,
}

abbrev pub times : {A : Type 0} → ℕ → List A → List A
times zero xs = []
times (suc n) xs = xs ++ times n xs

times_one_more :
    {A : Type 0} (n : ℕ) (old xs : List A) → (old ++ xs) ++ times n xs ≡ old ++ times (suc n) xs
times_one_more n old xs = append_assoc old xs (times n xs)

-- Whether the commit landed and its answer was lost.
abbrev pub is_lost : Attempt → Bool
is_lost a = elim a.fate [ committed ↦ false | refused ↦ false | unacknowledged ↦ true ]

abbrev pub is_committed : Attempt → Bool
is_committed a = elim a.fate [ committed ↦ true | refused ↦ false | unacknowledged ↦ false ]

-- One copy for the commit that is answered.
abbrev pub copies_of : Written → ℕ → ℕ
copies_of written lost = suc lost
copies_of gave_up lost = lost
copies_of still_trying lost = lost

module _ (rows : List ReadRow) (events : List GateEvent) where
  -- The rows stand in both tables the same number of times.
  pub record IsCopiedTimes (n : ℕ) (s s' : Ingest) : Type 0 where
    pub reads_raw : s'.reads_raw ≡ s.reads_raw ++ times n rows
    pub gate_events : s'.gate_events ≡ s.gate_events ++ times n events
    pub acks : s'.acks ≡ s.acks

  again :
      (n : ℕ) (s s' : Ingest)
      → IsCopiedTimes n (insert_rows rows events s) s'
      → IsCopiedTimes (suc n) s s'
  unfolding insert_rows
  again n s s' h = record {
    reads_raw = h.reads_raw ∙ times_one_more n s.reads_raw rows;
    gate_events = h.gate_events ∙ times_one_more n s.gate_events events;
    acks = h.acks;
  }

  none_yet : (s : Ingest) → IsCopiedTimes 0 s s
  none_yet s = record {
    reads_raw = sym (append-nil s.reads_raw);
    gate_events = sym (append-nil s.gate_events);
    acks = refl;
  }

  once : (s : Ingest) → IsCopiedTimes 1 s (count_rows rows events (insert_rows rows events s))
  unfolding insert_rows
  once s = record {
    reads_raw = ap (λ (xs : List ReadRow). s.reads_raw ++ xs) (sym (append-nil rows));
    gate_events = ap (λ (xs : List GateEvent). s.gate_events ++ xs) (sym (append-nil events));
    acks = refl;
  }

  -- What one turn of the loop makes of the turns after it.
  after_error_ind {κ} :
      (P : Written × Ingest → Type κ) (a : Attempt) (at : Option ℕ) (s : Ingest)
      (again : Option ℕ → Ingest → Written × Ingest)
      → (a.stop ≡ true → P (gave_up, s))
      → ((at' : Option ℕ) → P (again at' s))
      → P (after_error a at s again)
  after_error_ind P a at s again stopped more =
      if_ind P a.stop (λ e. if_ind P (leb (deadline at a.now) a.now) (λ _. stopped e) (λ _. more _))
        (λ _. more at)

  abbrev Outcome : ℕ → Ingest → Written × Ingest → Type 0
  Outcome most s r = (lost : ℕ) × (lost ≤ most) × IsCopiedTimes (copies_of r.0 lost) s r.1

  lost_one :
      (most : ℕ) (s : Ingest) (r : Written × Ingest)
      → Outcome most (insert_rows rows events s) r
      → Outcome (suc most) s r
  lost_one most s (written, s') (lost, le, h) =
      (suc lost, omega (arith, le), again (suc lost) s s' h)
  lost_one most s (gave_up, s') (lost, le, h) = (suc lost, omega (arith, le), again lost s s' h)
  lost_one most s (still_trying, s') (lost, le, h) =
      (suc lost, omega (arith, le), again lost s s' h)

  -- Whatever happens to the attempts, both tables get the whole batch the same number of times: once
  -- for each commit whose answer was lost, and once more if write_batch succeeds; and nothing is
  -- acknowledged by it.
  pub write_batch-copies :
      (attempts : List Attempt) (gave_up_at : Option ℕ) (s : Ingest)
      → (lost : ℕ) × (lost ≤ length (select is_lost attempts))
        × IsCopiedTimes
            (copies_of (write_batch rows events attempts gave_up_at s).0 lost)
            s
            (write_batch rows events attempts gave_up_at s).1
  unfolding write_batch
  write_batch-copies [] at s = (0, omega arith, none_yet s)
  write_batch-copies (a ∷ attempts) at s = go a.fate a.stop a.now (write_batch-copies attempts)
    where
      go :
          (f : Fate) (stop : Bool) (now : ℕ)
          → ((at : Option ℕ) (s : Ingest)
              → Outcome
                  (length (select is_lost attempts))
                  s
                  (write_batch rows events attempts at s))
          → Outcome
              (length (select is_lost (record { fate = f; stop = stop; now = now } ∷ attempts)))
              s
              (write_batch rows events
                (record { fate = f; stop = stop; now = now } ∷ attempts)
                at
                s)
      go committed stop now later = (0, omega arith, once s)
      go refused stop now later =
          after_error_ind (Outcome _ s) (record { fate = refused; stop = stop; now = now }) at s
            (write_batch rows events attempts) (λ _. (0, omega arith, none_yet s))
            (λ at'. later at' s)
      go unacknowledged stop now later =
          after_error_ind (Outcome _ s) (record { fate = unacknowledged; stop = stop; now = now })
            at (insert_rows rows events s) (write_batch rows events attempts)
            (λ _. lost_one _ s (gave_up, insert_rows rows events s) (0, omega arith, none_yet _))
            (λ at'. lost_one _ s _ (later at' (insert_rows rows events s)))

  -- As long as nobody asks the service to stop, one transaction that commits is enough for
  -- write_batch to succeed, whatever failed before it; and without one, it does not give up.
  pub write_batch_persists :
      (attempts : List Attempt) (gave_up_at : Option ℕ) (s : Ingest)
      → All (λ a. a.stop ≡ false) attempts
      → (write_batch rows events attempts gave_up_at s).0
        ≡ (if any is_committed attempts then written else still_trying)
  unfolding write_batch
  write_batch_persists [] at s h = refl
  write_batch_persists (a ∷ attempts) at s h =
      go a.fate a.stop a.now h.0 (λ at s. write_batch_persists attempts at s h.1)
    where
      go :
          (f : Fate) (stop : Bool) (now : ℕ)
          → stop ≡ false
          → ((at : Option ℕ) (s : Ingest)
              → (write_batch rows events attempts at s).0
                ≡ (if any is_committed attempts then written else still_trying))
          → (write_batch rows events
              (record { fate = f; stop = stop; now = now } ∷ attempts)
              at
              s).0
            ≡ (if any is_committed (record { fate = f; stop = stop; now = now } ∷ attempts)
                then written
                else still_trying)
      go committed stop now e later = refl
      go refused stop now e later = rw e (later at s)
      go unacknowledged stop now e later = rw e (later at (insert_rows rows events s))
