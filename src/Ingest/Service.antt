-- ===== src/Ingest/Service.antt =====
-- src/tasker_rfid/services/ingest/service.py: from a batch of MQTT messages to rows that are
-- committed, and only then to acknowledgements. The MQTT client, the queue and the database are what
-- happens from outside: the batches that the queue gives, and how each transaction ends. `json.loads`
-- is the argument `loads`.
pub mod Writes
pub mod Batches
pub mod Loop
use text.Mathlib.Text.{starts_with}
use tasker_rfid.Prelude.{
  ℕ, ◌+◌, String, Bool, true, false, Option, none, some, List, [], ◌∷◌, ◌++◌, map, not, ◌&&◌, ◌||◌,
  leb, ltb, if◌then◌else◌, length, All,
}
use tasker_rfid.Prelude.Results.{Result, ok, err}
use tasker_rfid.Retry.{db_retry_initial, db_retry_max}
use tasker_rfid.Ingest.Validation.{
  Payload, Library, ReadRow, GateEvent, parse_read, parse_gate_event,
}

-- SHUTDOWN_DB_GRACE_S, in microseconds.
abbrev pub shutdown_db_grace : ℕ
shutdown_db_grace = 20_000_000

-- What `json.loads` does: it returns; it raises JSONDecodeError or UnicodeDecodeError; or it raises
-- something else, such as the ValueError for a number of more than 4300 digits.
pub data Decoded : Type 0 where
  loaded : Payload → Decoded
  not_json raised : Decoded

pub record Message (Bytes : Type 0) : Type 0 where
  pub topic : String
  pub payload : Bytes
  pub mid : ℕ
  pub qos : ℕ

-- The tables that the service writes, its counters, and what the broker has been told.
pub record Ingest : Type 0 where
  pub reads_raw : List ReadRow
  pub gate_events : List GateEvent
  pub inserted : ℕ
  pub gate_events_inserted : ℕ
  pub rejected : ℕ
  pub acks : List (ℕ × ℕ)
  pub stopping : Bool
  pub writer_failed : Bool

-- What validate_batch returns, as far as it has got.
pub record Batch : Type 0 where
  pub reads : List ReadRow
  pub events : List GateEvent
  pub acks : List (ℕ × ℕ)
  pub rejected : ℕ

abbrev pub empty_batch : Batch
empty_batch = record { reads = []; events = []; acks = []; rejected = 0 }

-- What one message is.
pub data Verdict : Type 0 where
  read : ReadRow → Verdict
  gate : GateEvent → Verdict
  reject fail : Verdict

abbrev pub ack_of : {Bytes : Type 0} → Message Bytes → ℕ × ℕ
ack_of m = (m.mid, m.qos)

-- The loop's body.
unfoldable pub add : Verdict → Batch → Batch
add (read row) b = record b { reads = b.reads ++ row ∷ [] }
add (gate event) b = record b { events = b.events ++ event ∷ [] }
add reject b = record b { rejected = b.rejected + 1 }
add fail b = b

module _ (library : Library) (read_topic_prefix : String) {Bytes : Type 0}
    (loads : Bytes → Decoded) where
  unfoldable pub verdict : Message Bytes → Verdict
  verdict m = elim (loads m.payload) [
    | not_json ↦ reject
    | raised ↦ fail
    | loaded payload ↦
        if starts_with m.topic read_topic_prefix
        then elim (parse_read library payload) [ ok r ↦ read r.0 | err _ ↦ reject ]
        else elim (parse_gate_event library payload) [ ok r ↦ gate r.0 | err _ ↦ reject ]
  ]

  -- The loop; an exception that leaves it leaves what was rejected before it counted.
  unfoldable pub validate_from : List (Message Bytes) → Batch → Result Batch Batch
  unfolding verdict add
  validate_from [] b = ok b
  validate_from (m ∷ ms) b =
      let b' = record b { acks = b.acks ++ ack_of m ∷ [] } in
      elim (verdict m) [ fail ↦ err b' | v ↦ validate_from ms (add v b') ]

  unfoldable pub validate_batch : List (Message Bytes) → Result Batch Batch
  unfolding validate_from
  validate_batch ms = validate_from ms empty_batch

-- How a transaction ends: it commits, the database refuses it or cannot be reached, or it commits and
-- the answer is lost. In the last two cases psycopg.Error is raised.
pub data Fate : Type 0 where
  committed refused unacknowledged : Fate

-- One turn of the loop of write_batch: how the transaction ends, and what the loop sees after a failure.
pub record Attempt : Type 0 where
  pub fate : Fate
  pub stop : Bool
  pub now : ℕ

-- How write_batch ends. It is still trying where the attempts that are known run out.
pub data Written : Type 0 where
  written gave_up still_trying : Written

unfoldable pub insert_rows : List ReadRow → List GateEvent → Ingest → Ingest
insert_rows rows events s = record s {
  reads_raw = s.reads_raw ++ rows;
  gate_events = s.gate_events ++ events;
}

abbrev pub count_rows : List ReadRow → List GateEvent → Ingest → Ingest
count_rows rows events s = record s {
  inserted = s.inserted + length rows;
  gate_events_inserted = s.gate_events_inserted + length events;
}

-- gave_up_at or time.monotonic() + SHUTDOWN_DB_GRACE_S
abbrev pub deadline : Option ℕ → ℕ → ℕ
deadline none now = now + shutdown_db_grace
deadline (some at) now = at

-- The rest of `except psycopg.Error`, given what the loop goes on with.
abbrev pub after_error :
    Attempt → Option ℕ → Ingest → (Option ℕ → Ingest → Written × Ingest) → Written × Ingest
after_error a gave_up_at s again =
    if a.stop
    then (if leb (deadline gave_up_at a.now) a.now
        then (gave_up, s)
        else again (some (deadline gave_up_at a.now)) s)
    else again gave_up_at s

unfoldable pub write_batch :
    List ReadRow → List GateEvent → List Attempt → Option ℕ → Ingest → Written × Ingest
unfolding insert_rows
write_batch rows events [] gave_up_at s = (still_trying, s)
write_batch rows events (a ∷ attempts) gave_up_at s = elim a.fate [
  | committed ↦ (written, count_rows rows events (insert_rows rows events s))
  | refused ↦ after_error a gave_up_at s (write_batch rows events attempts)
  | unacknowledged ↦
      after_error a gave_up_at (insert_rows rows events s) (write_batch rows events attempts)
]

abbrev pub has_rows : Batch → Bool
has_rows b = not (leb (length b.reads + length b.events) 0)

-- What comes to one turn of writer_loop: the batch that the queue gives, and the attempts to write it.
pub record Turn (Bytes : Type 0) : Type 0 where
  pub batch : List (Message Bytes)
  pub attempts : List Attempt

-- How a turn leaves the loop.
pub data Exit : Type 0 where
  goes_on ends : Exit

abbrev pub acknowledge : Batch → Ingest → Ingest
acknowledge b s = record s { acks = s.acks ++ b.acks }

unfoldable pub write_and_acknowledge : Batch → List Attempt → Ingest → Exit × Ingest
unfolding write_batch
write_and_acknowledge b attempts s =
    if has_rows b
    then (let (outcome, s') = write_batch b.reads b.events attempts none s in
        elim outcome [
          | written ↦ (goes_on, acknowledge b s')
          | gave_up ↦ (ends, s')
          | still_trying ↦ (ends, s')
        ])
    else (goes_on, acknowledge b s)

-- A batch, from the queue to the acknowledgements. An exception ends the service.
module _ (library : Library) (read_topic_prefix : String) {Bytes : Type 0}
    (loads : Bytes → Decoded) where
  unfoldable pub turn : Turn Bytes → Ingest → Exit × Ingest
  unfolding validate_batch write_and_acknowledge
  turn t s = elim (validate_batch library read_topic_prefix loads t.batch) [
    | err b ↦ (
      ends,
      record s { rejected = s.rejected + b.rejected; writer_failed = true; stopping = true },
    )
    | ok b ↦ write_and_acknowledge b t.attempts (record s { rejected = s.rejected + b.rejected })
  ]

  unfoldable pub writer_loop : List (Turn Bytes) → Ingest → Ingest
  unfolding turn
  writer_loop [] s = s
  writer_loop (t ∷ ts) s =
      let (exit, s') = turn t s in elim exit [ ends ↦ s' | goes_on ↦ writer_loop ts s' ]
