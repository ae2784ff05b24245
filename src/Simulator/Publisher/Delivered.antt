-- ===== src/Simulator/Publisher/Delivered.antt =====
-- What the simulator publishes, as the ingest service reads it.
use tasker_rfid.Prelude.{
  ℕ, ◌≡◌, ◌≢◌, refl, String, true, Option, none, some, List, [], ◌∷◌, arith, elem, string_eq,
  eq_iff,
}
use tasker_rfid.Prelude.Int.{ℤ}
use tasker_rfid.Prelude.Dict.{Dict, lookup}
use tasker_rfid.Prelude.Results.{ok}
use tasker_rfid.Ingest.Validation.{
  Value, whole, text, object, Library, aware, ReadRow, GateEvent, beams, beam_states, get, require,
  smallint, optional_smallint, text_of, optional_text, timestamp, one_of, parse_read,
  parse_gate_event,
}
use tasker_rfid.Ingest.Validation.Rows.{FitsSmallint}
use tasker_rfid.Simulator.Reads.{Read}
use tasker_rfid.Simulator.Publisher.{optional}

-- The row of reads_raw that a read is meant to become.
abbrev pub row_of : Read → ReadRow
row_of r = record {
  tid = r.tid;
  epc = r.epc;
  reader_id = r.reader_id;
  antenna_id = r.antenna_id;
  rssi = some r.rssi;
  read_at = r.read_at;
}

-- A text that is not blank and has no white space around it.
abbrev pub IsPlain : Library → String → Type 0
IsPlain library s = (library.strip s ≡ s) × (s ≢ "")

abbrev pub IsPlainOption : Library → Option String → Type 0
IsPlainOption library none = Unit
IsPlainOption library (some s) = IsPlain library s

pub record IsSendable (library : Library) (r : Read) : Type 0 where
  pub tid : IsPlain library r.tid
  pub epc : IsPlainOption library r.epc
  pub reader_id : IsPlain library r.reader_id
  pub antenna_id : FitsSmallint r.antenna_id
  pub rssi : FitsSmallint r.rssi

-- A word of a fixed list, written in capitals.
abbrev pub IsWord : Library → List String → String → Type 0
IsWord library words s = IsPlain library s × (library.upper s ≡ s) × (elem s words ≡ true)

pub record IsSendableEvent (library : Library) (e : GateEvent) : Type 0 where
  pub gate_id : IsPlain library e.gate_id
  pub beam : IsWord library beams e.beam
  pub state : IsWord library beam_states e.state

module _ (library : Library) where
  text_plain : (field s : String) → IsPlain library s → text_of library field (text s) ≡ ok s
  unfolding text_of
  text_plain field s (same, some_left) = rw same (ground (arith, eq_iff s ""))

  optional_plain :
      (field : String) (o : Option String)
      → IsPlainOption library o
      → optional_text library field (optional o) ≡ ok o
  unfolding optional_text
  optional_plain field none h = refl
  optional_plain field (some s) (same, some_left) = rw same (ground (arith, eq_iff s ""))

  smallint_fits : (field : String) (n : ℤ) → FitsSmallint n → smallint field (whole n) ≡ ok n
  unfolding smallint
  smallint_fits field n h = ground arith

  one_of_word :
      (field : String) (words : List String) (s : String)
      → IsWord library words s
      → one_of library field words (text s) ≡ ok s
  unfolding one_of
  one_of_word field words s (plain, same, there) =
      rw (text_plain field s plain, one_of, same, there) refl

  module _ (isoformat : ℕ → String)
      (reads_back : (at : ℕ) → library.fromisoformat (isoformat at) ≡ some (aware at)) where
    stamp_back :
        (field : String) (at : ℕ) → timestamp library field (text (isoformat at)) ≡ ok (at, [])
    unfolding timestamp
    stamp_back field at = rw (reads_back at, timestamp) refl

    abbrev fields_of : Read → Dict String Value
    fields_of r =
        ("tid", text r.tid)
        ∷ ("epc", optional r.epc)
        ∷ ("reader_id", text r.reader_id)
        ∷ ("antenna_id", whole r.antenna_id)
        ∷ ("rssi", whole r.rssi)
        ∷ ("read_at", text (isoformat r.read_at))
        ∷ []

    pub parse_read_back :
        (r : Read)
        → IsSendable library r
        → parse_read library (object (fields_of r)) ≡ ok (row_of r, [])
    unfolding parse_read require get lookup optional_smallint
    parse_read_back r h =
        rw
          (
            parse_read,
            stamp_back "read_at" r.read_at,
            text_plain "tid" r.tid h.tid,
            optional_plain "epc" r.epc h.epc,
            text_plain "reader_id" r.reader_id h.reader_id,
            smallint_fits "antenna_id" r.antenna_id h.antenna_id,
            smallint_fits "rssi" r.rssi h.rssi,
          )
          refl

    abbrev gate_fields_of : GateEvent → Dict String Value
    gate_fields_of e =
        ("gate_id", text e.gate_id)
        ∷ ("beam", text e.beam)
        ∷ ("state", text e.state)
        ∷ ("occurred_at", text (isoformat e.occurred_at))
        ∷ []

    pub parse_gate_back :
        (e : GateEvent)
        → IsSendableEvent library e
        → parse_gate_event library (object (gate_fields_of e)) ≡ ok (e, [])
    unfolding parse_gate_event require get lookup
    parse_gate_back e h =
        rw
          (
            parse_gate_event,
            stamp_back "occurred_at" e.occurred_at,
            text_plain "gate_id" e.gate_id h.gate_id,
            one_of_word "beam" beams e.beam h.beam,
            one_of_word "state" beam_states e.state h.state,
          )
          refl
