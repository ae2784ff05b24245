-- ===== src/Ingest/Validation/Gates.antt =====
-- What ingest lets through, the debouncer can work with.
use tasker_rfid.Prelude.{
  ℕ, String, ◌≡◌, true, some, List, map, arith, All, All-map, All-imp, eq_iff, elem, string_eq,
}
use tasker_rfid.Prelude.Dict.{Dict}
use tasker_rfid.Prelude.Results.{ok}
use tasker_rfid.Ingest.Validation.{
  Value, object, Library, Warning, beams, GateEvent, parse_gate_event,
}
use tasker_rfid.Ingest.Validation.Rows.{parse_gate_event-known}
use tasker_rfid.Debouncer.Direction.{
  beam_inner, beam_outer, BeamEvent, Crossing, crossings_from_events,
}
use tasker_rfid.Debouncer.Direction.Known.{IsKnown, crossings_known}

-- A gate_events row as FETCH_GATE_EVENTS_SQL returns it.
abbrev pub beam_event : GateEvent → BeamEvent
beam_event e = record { beam = e.beam; state = e.state; occurred_at = e.occurred_at }

-- Some payload was accepted as this event.
abbrev pub IsAccepted : Library → GateEvent → Type 0
IsAccepted library e =
    (payload : Dict String Value) × (warnings : List Warning) × (parse_gate_event library
        (object payload)
      ≡ ok (e, warnings))

one_of_beams : (b : String) → elem b beams ≡ true → IsKnown b
one_of_beams b h = ground (arith, eq_iff beam_inner b, eq_iff beam_outer b)

-- If every event was accepted by parse_gate_event, then the crossings can be worked out from any
-- sequence of them: no beam is missing from FIRST_BEAM_DIRECTION.
pub accepted-crossings :
    (library : Library) (timeout : ℕ) (events : List GateEvent)
    → All (IsAccepted library) events
    → (cs : List Crossing) × (crossings_from_events (map beam_event events) timeout ≡ some cs)
accepted-crossings library timeout events accepted =
    crossings_known timeout (map beam_event events) (
      All-map _ beam_event events (
        All-imp _ _ events
          (λ e (payload, warnings, parsed).
            one_of_beams e.beam (parse_gate_event-known library payload (e, warnings) parsed).0)
          accepted))
