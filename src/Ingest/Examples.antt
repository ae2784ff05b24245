-- ===== src/Ingest/Examples.antt =====
-- Payloads on which the theorems about ingest are applied. The methods of `str` and `datetime` are
-- stood in for by functions that leave a text alone, and one that reads a fixed time.
use tasker_rfid.Prelude.{
  ◌+◌, ℕ, false, ◌++◌, any, flat_map, ◌==◌, if◌then◌else◌, String, ◌≡◌, refl, true, none, some,
  List, [], ◌∷◌, string_eq,
}
use tasker_rfid.Prelude.Int.{pos}
use tasker_rfid.Prelude.Dict.{Dict, lookup}
use tasker_rfid.Prelude.Results.{ok}
use tasker_rfid.Ingest.Validation.{
  Value, text, whole, object, Library, naive, Warning, ReadRow, get, require, smallint,
  optional_smallint, text_of, optional_text, timestamp, parse_read,
}
use tasker_rfid.Ingest.Validation.Rows.{IsRowOf, parse_read-IsRowOf}
use tasker_rfid.Ingest.Service.{
  Ingest, Message, Decoded, loaded, not_json, raised, verdict, committed, refused, unacknowledged,
  Attempt, Turn, writer_loop,
}
use tasker_rfid.Ingest.Service.Batches.{verdict_of, is_fail}
use tasker_rfid.Ingest.Service.Loop.{IsTold, writer_loop-IsTold, writer_loop_fails}

abbrev library : Library
library = record { strip = λ s. s; upper = λ s. s; fromisoformat = λ s. some (naive 7) }

abbrev payload : Dict String Value
payload =
    ("tid", text "TAG")
    ∷ ("reader_id", text "R1")
    ∷ ("antenna_id", whole (pos 1))
    ∷ ("read_at", text "now")
    ∷ []

abbrev row : ReadRow
row = record {
  tid = "TAG";
  epc = none;
  reader_id = "R1";
  antenna_id = pos 1;
  rssi = none;
  read_at = 7;
}

abbrev warned : List Warning
warned = Warning.no_timezone "read_at" "now" ∷ []

accepted : parse_read library (object payload) ≡ ok (row, warned)
unfolding parse_read require get lookup smallint optional_smallint text_of optional_text timestamp
accepted = refl

parse_read-IsRowOf_example : IsRowOf library payload row
parse_read-IsRowOf_example = parse_read-IsRowOf library payload (row, warned) accepted

-- Messages whose payload is one of three texts.
abbrev loads : String → Decoded
loads s =
    if s == "read" then loaded (object payload) else if s == "digits" then raised else not_json

abbrev message : ℕ → String → Message String
message mid bytes = record { topic = "tasker/reads/R1"; payload = bytes; mid = mid; qos = 1 }

abbrev idle : Ingest
idle = record {
  reads_raw = [];
  gate_events = [];
  inserted = 0;
  gate_events_inserted = 0;
  rejected = 0;
  acks = [];
  stopping = false;
  writer_failed = false;
}

-- The first commit's answer is lost, the second transaction fails, the third commits.
abbrev attempts : List Attempt
attempts =
    record { fate = unacknowledged; stop = false; now = 0 }
    ∷ record { fate = refused; stop = false; now = 1 }
    ∷ record { fate = committed; stop = false; now = 2 }
    ∷ []

abbrev turns : List (Turn String)
turns =
    record { batch = message 1 "read" ∷ message 2 "noise" ∷ []; attempts = attempts }
    ∷ record { batch = message 3 "read" ∷ []; attempts = [] }
    ∷ []

writer_loop-IsTold_example :
    (done : List (Message String)) × (left : List (Message String)) × (flat_map
        (λ (t : Turn String). t.batch)
        turns
      ≡ done ++ left)
    × IsTold library "tasker/reads/" loads done idle
        (writer_loop library "tasker/reads/" loads turns idle)
writer_loop-IsTold_example = writer_loop-IsTold library "tasker/reads/" loads turns idle

abbrev noise : List (Message String)
noise = message 2 "noise" ∷ []

-- A number of more than 4300 digits among the reads.
abbrev digits : Turn String
digits = record { batch = message 4 "read" ∷ message 5 "digits" ∷ []; attempts = attempts }

one_raises : any (λ m. is_fail (verdict_of library "tasker/reads/" loads m)) digits.batch ≡ true
unfolding verdict parse_read require get lookup smallint optional_smallint text_of optional_text
    timestamp
one_raises = refl

writer_loop_fails_example :
    (n : ℕ) × (writer_loop library "tasker/reads/" loads (digits ∷ turns) idle
      ≡ record idle { rejected = 0 + n; writer_failed = true; stopping = true })
writer_loop_fails_example =
    writer_loop_fails library "tasker/reads/" loads digits turns idle one_raises
