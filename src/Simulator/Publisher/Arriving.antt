-- ===== src/Simulator/Publisher/Arriving.antt =====
-- A simulated run, from the simulator's reads and beam events to the rows that ingest would write.
use Prim.Native.String as NativeString
use package.text.Mathlib.Text.{starts_with}
use package.text.Mathlib.TextPositions.{starts_with-append}
use tasker_rfid.Prelude.{
  ℕ, suc, ◌+◌, ◌≡◌, refl, ap, ◌∙◌, String, Bool, true, false, some, List, [], ◌∷◌, ◌++◌, map, arith,
  All, All-map, All-append, All-imp,
}
use tasker_rfid.Prelude.Sums.{total, total-map, total-append, total-eq_of_All, total-zero}
use tasker_rfid.Prelude.Results.{Result, ok}
use tasker_rfid.Ingest.Validation.{Payload, Library, aware, ReadRow, GateEvent}
use tasker_rfid.Ingest.Service.{
  Decoded, loaded, Verdict, Batch, empty_batch, add, ack_of, verdict, validate_from, validate_batch,
}
use tasker_rfid.Ingest.Service as Service
use tasker_rfid.Simulator.{sort_at}
use tasker_rfid.Simulator.Sorting.{sort_at-total, sort_at-All}
use tasker_rfid.Simulator.Reads.{Read}
use tasker_rfid.Simulator.Publisher.{
  qos_at_least_once, Message, topic_under, read_to_payload, gate_event_to_payload, read_messages,
  gate_messages, timeline,
}
use tasker_rfid.Simulator.Publisher.Delivered.{
  row_of, IsSendable, IsSendableEvent, parse_read_back, parse_gate_back,
}

-- A message as the broker hands it on, with a number of its own.
unfoldable pub arrive : {Bytes : Type 0} → ℕ → Message Bytes → Service.Message Bytes
arrive mid m = record { topic = m.topic; payload = m.payload; mid = mid; qos = qos_at_least_once }

unfoldable pub deliver : {Bytes : Type 0} → ℕ → List (Message Bytes) → List (Service.Message Bytes)
unfolding arrive
deliver mid [] = []
deliver mid (m ∷ ms) = arrive mid m ∷ deliver (suc mid) ms

abbrev in_reads : (ReadRow → ℕ) → Verdict → ℕ
in_reads f (Verdict.read row) = f row
in_reads f _ = 0

abbrev in_events : (GateEvent → ℕ) → Verdict → ℕ
in_events g (Verdict.gate e) = g e
in_events g _ = 0

abbrev is_taken : Verdict → Bool
is_taken (Verdict.read row) = true
is_taken (Verdict.gate e) = true
is_taken _ = false

-- A batch that has grown by what some verdicts say, and by nothing else.
record Grown {A : Type 0} (of : A → Verdict) (ms : List A) (b b' : Batch) : Type 0 where
  rejects : b'.rejected ≡ b.rejected
  rows : (f : ReadRow → ℕ) → total f b'.reads ≡ total f b.reads + total (λ m. in_reads f (of m)) ms
  beams :
      (g : GateEvent → ℕ)
      → total g b'.events ≡ total g b.events + total (λ m. in_events g (of m)) ms

module _ (library : Library) (prefix : String) {Bytes : Type 0} (loads : Bytes → Decoded) where
  reading : Message Bytes → Verdict
  reading m = verdict library prefix loads (arrive 0 m)

  any_number :
      (mid : ℕ) (m : Message Bytes) → verdict library prefix loads (arrive mid m) ≡ reading m
  unfolding reading verdict arrive
  any_number mid m = refl

  -- The rest of a run can be taken from any batch on.
  abbrev IsTaken : ℕ → List (Message Bytes) → Batch → Type 0
  IsTaken mid ms b =
      (b' : Batch) × (validate_from library prefix loads (deliver mid ms) b ≡ ok b')
      × Grown reading ms b b'

  abbrev acknowledged : ℕ → Message Bytes → Batch → Batch
  acknowledged mid m b = record b { acks = b.acks ++ ack_of (arrive mid m) ∷ [] }

  one_more :
      (mid : ℕ) (m : Message Bytes) (ms : List (Message Bytes)) (b : Batch) (v : Verdict)
      → reading m ≡ v
      → is_taken v ≡ true
      → ((b1 : Batch) → IsTaken (suc mid) ms b1)
      → IsTaken mid (m ∷ ms) b
  unfolding validate_from deliver add arrive
  one_more mid m ms b (Verdict.read row) e t rest =
      let (b', done, grown) = rest (record b {
        reads = b.reads ++ row ∷ [];
        acks = b.acks ++ (mid, qos_at_least_once) ∷ [];
      }) in
      (
        b',
        rw (validate_from, any_number mid m ∙ e) done,
        record {
          rejects = grown.rejects;
          rows = λ f. rw e (omega (arith, grown.rows f, total-append f b.reads (row ∷ [])));
          beams = λ g. rw e (omega (arith, grown.beams g));
        },
      )
  one_more mid m ms b (Verdict.gate event) e t rest =
      let (b', done, grown) = rest (record b {
        events = b.events ++ event ∷ [];
        acks = b.acks ++ (mid, qos_at_least_once) ∷ [];
      }) in
      (
        b',
        rw (validate_from, any_number mid m ∙ e) done,
        record {
          rejects = grown.rejects;
          rows = λ f. rw e (omega (arith, grown.rows f));
          beams = λ g. rw e (omega (arith, grown.beams g, total-append g b.events (event ∷ [])));
        },
      )
  one_more mid m ms b Verdict.reject e t rest = cc
  one_more mid m ms b Verdict.fail e t rest = cc

  validate_from-IsTaken :
      (mid : ℕ) (ms : List (Message Bytes)) (b : Batch)
      → All (λ m. is_taken (reading m) ≡ true) ms
      → IsTaken mid ms b
  unfolding validate_from deliver
  validate_from-IsTaken mid [] b h =
      (b, refl, record { rejects = refl; rows = λ f. omega arith; beams = λ g. omega arith })
  validate_from-IsTaken mid (m ∷ ms) b h =
      one_more mid m ms b (reading m) refl h.0 (λ b1. validate_from-IsTaken (suc mid) ms b1 h.1)

-- The run became the rows of these reads and these events, each as often as it was sent, and
-- nothing was rejected.
pub record IsDelivered (reads : List Read) (gates : List GateEvent) (r : Result Batch Batch)
    : Type 0 where
  pub batch : Batch
  pub returns : r ≡ ok batch
  pub none_rejected : batch.rejected ≡ 0
  pub rows : (f : ReadRow → ℕ) → total f batch.reads ≡ total f (map row_of reads)
  pub events : (g : GateEvent → ℕ) → total g batch.events ≡ total g gates

-- An event of a gate whose topic is not one of the reads'.
abbrev pub IsApart : Library → (reads_base gates_base : String) → GateEvent → Type 0
IsApart library reads_base gates_base e =
    IsSendableEvent library e
    × (starts_with (topic_under gates_base e.gate_id) (NativeString.◌++◌ reads_base "/") ≡ false)

module _ (library : Library) {Bytes : Type 0} (dumps : Payload → Bytes) (loads : Bytes → Decoded)
    (isoformat : ℕ → String) (reads_base gates_base : String)
    (loads_back : (p : Payload) → loads (dumps p) ≡ loaded p)
    (reads_back : (at : ℕ) → library.fromisoformat (isoformat at) ≡ some (aware at)) where
  abbrev prefix : String
  prefix = NativeString.◌++◌ reads_base "/"

  abbrev read_message : Read → Message Bytes
  read_message r = record {
    topic = topic_under reads_base r.reader_id;
    payload = read_to_payload dumps isoformat r;
    at = r.read_at;
  }

  abbrev gate_message : GateEvent → Message Bytes
  gate_message e = record {
    topic = topic_under gates_base e.gate_id;
    payload = gate_event_to_payload dumps isoformat e;
    at = e.occurred_at;
  }

  read_verdict :
      (r : Read)
      → IsSendable library r
      → reading library prefix loads (read_message r) ≡ Verdict.read (row_of r)
  unfolding reading verdict arrive read_to_payload
  read_verdict r h =
      rw
        (
          loads_back _,
          verdict,
          starts_with-append prefix r.reader_id,
          parse_read_back library isoformat reads_back r h,
        )
        refl

  gate_verdict :
      (e : GateEvent)
      → IsApart library reads_base gates_base e
      → reading library prefix loads (gate_message e) ≡ Verdict.gate e
  unfolding reading verdict arrive gate_event_to_payload
  gate_verdict e h =
      rw (loads_back _, verdict, h.1, parse_gate_back library isoformat reads_back e h.0) refl

  abbrev of : Message Bytes → Verdict
  of = reading library prefix loads

  abbrev unsorted : List Read → List GateEvent → List (Message Bytes)
  unsorted reads gates = map read_message reads ++ map gate_message gates

  -- Whatever the verdicts of a run are weighed by.
  run_total :
      (w : Verdict → ℕ) (reads : List Read) (gates : List GateEvent)
      → All (IsSendable library) reads
      → All (IsApart library reads_base gates_base) gates
      → total (λ m. w (of m)) (sort_at (λ m. m.at) (unsorted reads gates))
        ≡ total (λ r. w (Verdict.read (row_of r))) reads + total (λ e. w (Verdict.gate e)) gates
  run_total w reads gates clean apart = omega (
    arith,
    sort_at-total (λ m. m.at) (λ m. w (of m)) (unsorted reads gates),
    total-append (λ m. w (of m)) (map read_message reads) (map gate_message gates),
    total-map (λ m. w (of m)) read_message reads,
    total-map (λ m. w (of m)) gate_message gates,
    total-eq_of_All (λ r. w (of (read_message r))) (λ r. w (Verdict.read (row_of r))) reads
        (All-imp _ _ reads (λ r h. ap w (read_verdict r h)) clean),
    total-eq_of_All (λ e. w (of (gate_message e))) (λ e. w (Verdict.gate e)) gates
        (All-imp _ _ gates (λ e h. ap w (gate_verdict e h)) apart),
  )

  all_taken :
      (reads : List Read) (gates : List GateEvent)
      → All (IsSendable library) reads
      → All (IsApart library reads_base gates_base) gates
      → All (λ m. is_taken (of m) ≡ true) (sort_at (λ m. m.at) (unsorted reads gates))
  all_taken reads gates clean apart =
      sort_at-All (λ m. m.at) _ (unsorted reads gates)
        (All-append (λ m. is_taken (of m) ≡ true) (map read_message reads) (map gate_message gates)
          (All-map _ read_message reads
            (All-imp _ _ reads (λ r h. ap is_taken (read_verdict r h)) clean))
          (All-map _ gate_message gates
            (All-imp _ _ gates (λ e h. ap is_taken (gate_verdict e h)) apart)))

  -- If the texts of the reads and events are plain, the numbers fit their columns, no gate's topic
  -- is below the topic of the reads, and JSON and ISO times read back as they were written, then
  -- the ingest service turns the published run into exactly the rows of the reads and the beam
  -- events that were simulated, each as often, whatever the order, and rejects nothing.
  pub timeline-IsDelivered :
      (mid : ℕ) (reads : List Read) (gates : List GateEvent)
      → All (IsSendable library) reads
      → All (IsApart library reads_base gates_base) gates
      → IsDelivered reads gates (
          validate_batch library prefix loads
            (deliver mid (timeline dumps isoformat reads gates reads_base gates_base)))
  unfolding validate_batch timeline read_messages gate_messages
  timeline-IsDelivered mid reads gates clean apart =
      let (b, done, grown) =
        validate_from-IsTaken library prefix loads mid (sort_at (λ m. m.at) (unsorted reads gates))
          empty_batch (all_taken reads gates clean apart) in
      record {
        batch = b;
        returns = done;
        none_rejected = grown.rejects;
        rows = λ f. omega (
          arith,
          grown.rows f,
          run_total (in_reads f) reads gates clean apart,
          total-map f row_of reads,
          total-zero gates,
        );
        events = λ g. omega (
          arith,
          grown.beams g,
          run_total (in_events g) reads gates clean apart,
          total-zero reads,
        );
      }
