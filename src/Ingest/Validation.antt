-- ===== src/Ingest/Validation.antt =====
-- src/tasker_rfid/services/ingest/validation.py: a decoded payload becomes a row, or is rejected.
-- The text of InvalidRead is left out; which check failed, and the values in it, are kept. The
-- methods of `str` and `datetime` that the file calls are the fields of `Library`.
pub mod Rows
pub mod Acceptance
pub mod Gates
use tasker_rfid.Prelude.{
  ℕ, String, Bool, true, false, Option, none, some, List, [], ◌∷◌, not, ◌&&◌, string_eq, ◌==◌,
  if◌then◌else◌, elem, select,
}
use tasker_rfid.Prelude.Int.{ℤ, pos, negsuc, ltb_ℤ}
use tasker_rfid.Prelude.Dict.{Dict, lookup}
use tasker_rfid.Prelude.Results.{Result, ok, err, ◌>>=◌}
use tasker_rfid.Debouncer.Direction.{beam_inner, beam_outer, beam_broken, beam_clear}

-- What `json.loads` returns inside an object; a list, an object or a fraction only has its type's
-- name looked at.
pub data Value : Type 0 where
  null : Value
  boolean : Bool → Value
  whole : ℤ → Value
  text : String → Value
  other : (type_name : String) → Value

pub data Payload : Type 0 where
  object : Dict String Value → Payload
  not_an_object : (type_name : String) → Payload

-- A datetime, in microseconds: without a timezone, or an instant.
pub data Parsed : Type 0 where
  naive aware : ℕ → Parsed

-- `fromisoformat` is `none` where it raises ValueError.
pub record Library : Type 0 where
  pub strip : String → String
  pub upper : String → String
  pub fromisoformat : String → Option Parsed

pub data InvalidRead : Type 0 where
  payload_not_object : (type_name : String) → InvalidRead
  missing_fields : List String → InvalidRead
  not_text not_text_or_null : (field : String) → Value → InvalidRead
  is_blank : (field : String) → InvalidRead
  not_whole : (field : String) → Value → InvalidRead
  outside_column : (field : String) → ℤ → InvalidRead
  not_timestamp_text : (field : String) → InvalidRead
  not_iso : (field value : String) → InvalidRead
  not_allowed : (field : String) (allowed : List String) (value : String) → InvalidRead

-- The one warning: a timestamp without a timezone is stored as UTC.
pub data Warning : Type 0 where
  no_timezone : (field value : String) → Warning

abbrev pub smallint_min : ℤ
smallint_min = negsuc 32767

abbrev pub smallint_max : ℤ
smallint_max = pos 32767

abbrev pub required_fields : List String
required_fields = "tid" ∷ "reader_id" ∷ "antenna_id" ∷ "read_at" ∷ []

abbrev pub gate_required_fields : List String
gate_required_fields = "gate_id" ∷ "beam" ∷ "state" ∷ "occurred_at" ∷ []

abbrev pub beams : List String
beams = beam_inner ∷ beam_outer ∷ []

abbrev pub beam_states : List String
beam_states = beam_broken ∷ beam_clear ∷ []

-- The `RawRead` of this file, before it has a key.
pub record ReadRow : Type 0 where
  pub tid : String
  pub epc : Option String
  pub reader_id : String
  pub antenna_id : ℤ
  pub rssi : Option ℤ
  pub read_at : ℕ

pub record GateEvent : Type 0 where
  pub gate_id : String
  pub beam : String
  pub state : String
  pub occurred_at : ℕ

-- payload.get(field): a missing key and a null are both None.
abbrev pub value_of : Option Value → Value
value_of none = null
value_of (some v) = v

unfoldable pub get : Dict String Value → String → Value
unfolding lookup
get payload field = value_of (lookup field payload)

abbrev pub is_present : Dict String Value → String → Bool
is_present payload field = elim (lookup field payload) [ none ↦ false | some _ ↦ true ]

-- `if missing: raise`
unfoldable pub require : List String → Result InvalidRead (Unit {0})
require [] = ok tt
require (field ∷ fields) = err (missing_fields (field ∷ fields))

unfoldable pub smallint : (field : String) → Value → Result InvalidRead ℤ
smallint field (whole n) =
    if not (ltb_ℤ n smallint_min) && not (ltb_ℤ smallint_max n)
    then ok n
    else err (outside_column field n)
smallint field v = err (not_whole field v)

unfoldable pub optional_smallint : (field : String) → Value → Result InvalidRead (Option ℤ)
unfolding smallint
optional_smallint field null = ok none
optional_smallint field v = do n ← smallint field v; ok (some n)

module _ (library : Library) where
  unfoldable pub text_of : (field : String) → Value → Result InvalidRead String
  text_of field (text s) =
      if library.strip s == "" then err (is_blank field) else ok (library.strip s)
  text_of field v = err (not_text field v)

  -- `value or None`
  unfoldable pub optional_text : (field : String) → Value → Result InvalidRead (Option String)
  optional_text field null = ok none
  optional_text field (text s) = ok (if library.strip s == "" then none else some (library.strip s))
  optional_text field v = err (not_text_or_null field v)

  -- The instant, and the warning if the timezone is assumed.
  unfoldable pub timestamp : (field : String) → Value → Result InvalidRead (ℕ × List Warning)
  timestamp field (text s) = elim (library.fromisoformat s) [
    | none ↦ err (not_iso field s)
    | some (naive at) ↦ ok (at, no_timezone field s ∷ [])
    | some (aware at) ↦ ok (at, [])
  ]
  timestamp field v = err (not_timestamp_text field)

  unfoldable pub one_of :
      (field : String) (allowed : List String) → Value → Result InvalidRead String
  one_of field allowed v = do
    s ← text_of field v
    if elem (library.upper s) allowed
        then ok (library.upper s)
        else err (not_allowed field allowed (library.upper s))

  unfoldable pub parse_read : Payload → Result InvalidRead (ReadRow × List Warning)
  parse_read (not_an_object type_name) = err (payload_not_object type_name)
  parse_read (object payload) = do
    _ ← require (select (λ f. not (is_present payload f)) required_fields)
    stamped ← timestamp "read_at" (get payload "read_at")
    tid ← text_of "tid" (get payload "tid")
    epc ← optional_text "epc" (get payload "epc")
    reader_id ← text_of "reader_id" (get payload "reader_id")
    antenna_id ← smallint "antenna_id" (get payload "antenna_id")
    rssi ← optional_smallint "rssi" (get payload "rssi")
    ok (
      record {
        tid = tid;
        epc = epc;
        reader_id = reader_id;
        antenna_id = antenna_id;
        rssi = rssi;
        read_at = stamped.0;
      },
      stamped.1,
    )

  unfoldable pub parse_gate_event : Payload → Result InvalidRead (GateEvent × List Warning)
  parse_gate_event (not_an_object type_name) = err (payload_not_object type_name)
  parse_gate_event (object payload) = do
    _ ← require (select (λ f. not (is_present payload f)) gate_required_fields)
    stamped ← timestamp "occurred_at" (get payload "occurred_at")
    gate_id ← text_of "gate_id" (get payload "gate_id")
    beam ← one_of "beam" beams (get payload "beam")
    state ← one_of "state" beam_states (get payload "state")
    ok (
      record { gate_id = gate_id; beam = beam; state = state; occurred_at = stamped.0 },
      stamped.1,
    )
