-- ===== src/Simulator/Publisher.antt =====
-- src/tasker_rfid/services/simulator/publisher.py: the messages. `json.dumps` and `isoformat` are
-- parameters. Connecting to the broker and pacing the messages by the clock are left out.
pub mod Delivered
pub mod Arriving
use Prim.Native.String as NativeString
use tasker_rfid.Prelude.{ℕ, suc, String, Bool, Option, none, some, List, [], ◌∷◌, ◌++◌, map}
use tasker_rfid.Prelude.Int.{ℤ}
use tasker_rfid.Ingest.Validation.{Value, null, whole, text, Payload, object, GateEvent}
use tasker_rfid.Ingest.Service as Service
use tasker_rfid.Simulator.{sort_at}
use tasker_rfid.Simulator.Reads.{Read}

abbrev pub qos_at_least_once : ℕ
qos_at_least_once = 1

pub record Message (Bytes : Type 0) : Type 0 where
  pub topic : String
  pub payload : Bytes
  pub at : ℕ

-- null for None
abbrev pub optional : Option String → Value
optional none = null
optional (some s) = text s

-- f"{topic_base}/…"
abbrev pub topic_under : String → String → String
topic_under topic_base id = NativeString.◌++◌ (NativeString.◌++◌ topic_base "/") id

module _ {Bytes : Type 0} (dumps : Payload → Bytes) (isoformat : ℕ → String) where
  unfoldable pub read_to_payload : Read → Bytes
  read_to_payload r = dumps (
      object (
        ("tid", text r.tid)
        ∷ ("epc", optional r.epc)
        ∷ ("reader_id", text r.reader_id)
        ∷ ("antenna_id", whole r.antenna_id)
        ∷ ("rssi", whole r.rssi)
        ∷ ("read_at", text (isoformat r.read_at))
        ∷ []))

  unfoldable pub gate_event_to_payload : GateEvent → Bytes
  gate_event_to_payload e = dumps (
      object (
        ("gate_id", text e.gate_id)
        ∷ ("beam", text e.beam)
        ∷ ("state", text e.state)
        ∷ ("occurred_at", text (isoformat e.occurred_at))
        ∷ []))

  unfoldable pub read_messages : List Read → (topic_base : String) → List (Message Bytes)
  unfolding read_to_payload
  read_messages reads topic_base =
      map
        (λ r. record {
          topic = topic_under topic_base r.reader_id;
          payload = read_to_payload r;
          at = r.read_at;
        })
        reads

  unfoldable pub gate_messages : List GateEvent → (topic_base : String) → List (Message Bytes)
  unfolding gate_event_to_payload
  gate_messages events topic_base =
      map
        (λ e. record {
          topic = topic_under topic_base e.gate_id;
          payload = gate_event_to_payload e;
          at = e.occurred_at;
        })
        events

  -- The messages of main(), on one timeline.
  unfoldable pub timeline :
      List Read → List GateEvent → (reads_base gates_base : String) → List (Message Bytes)
  unfolding read_messages gate_messages
  timeline reads gates reads_base gates_base =
      sort_at (λ m. m.at) (read_messages reads reads_base ++ gate_messages gates gates_base)
