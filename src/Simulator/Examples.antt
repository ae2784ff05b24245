-- ===== src/Simulator/Examples.antt =====
-- A run of the simulator on which the theorem about its messages is applied.
use Prim.Native.String as NativeString
use text.Mathlib.TextPositions.{len-append}
use tasker_rfid.Prelude.{
  ℕ, zero, suc, ◌≡◌, refl, ap, ◌∙◌, String, false, none, some, [], ◌∷◌, arith, eq_iff, ◌≢◌, sym,
  true≢false, string_eq, ◌==◌,
}
use tasker_rfid.Prelude.Int.{pos, negsuc}
use tasker_rfid.Debouncer.Direction.{beam_inner, beam_broken}
use tasker_rfid.Ingest.Validation.{Library, aware, GateEvent}
use tasker_rfid.Ingest.Service.{loaded, validate_batch}
use tasker_rfid.Simulator.Reads.{Read}
use tasker_rfid.Simulator.Publisher.{timeline}
use tasker_rfid.Simulator.Publisher.Arriving.{deliver, IsDelivered, timeline-IsDelivered}

-- A time as that many digits.
isoformat : ℕ → String
isoformat zero = ""
isoformat (suc n) = NativeString.◌++◌ "1" (isoformat n)

len-isoformat : (n : ℕ) → NativeString.len (isoformat n) ≡ n
unfolding isoformat
len-isoformat zero = refl
len-isoformat (suc n) = omega (arith, len-append "1" (isoformat n), len-isoformat n)

abbrev library : Library
library = record {
  strip = λ s. s;
  upper = λ s. s;
  fromisoformat = λ s. some (aware (NativeString.len s));
}

reads_back : (at : ℕ) → library.fromisoformat (isoformat at) ≡ some (aware at)
reads_back at = ap (λ n. some (aware n)) (len-isoformat at)

abbrev heard : Read
heard = record {
  tid = "E280";
  epc = none;
  reader_id = "READER-EXIT";
  antenna_id = pos 3;
  rssi = negsuc 51;
  read_at = 12;
}

abbrev broken : GateEvent
broken = record { gate_id = "GATE-EXIT"; beam = beam_inner; state = beam_broken; occurred_at = 10 }

differs : (a b : String) → (a == b) ≡ false → a ≢ b
differs a b f e = true≢false (sym ((eq_iff a b).1 e) ∙ f)

timeline-IsDelivered_example : IsDelivered (heard ∷ []) (broken ∷ []) (
    validate_batch library "tasker/reads/" loaded (
      deliver 1
        (timeline (λ p. p) isoformat (heard ∷ []) (broken ∷ []) "tasker/reads" "tasker/gates")))
timeline-IsDelivered_example =
    timeline-IsDelivered library (λ p. p) loaded isoformat "tasker/reads" "tasker/gates" (λ p. refl)
      reads_back 1 (heard ∷ []) (broken ∷ [])
      (
        record {
          tid = (refl, differs "E280" "" refl);
          epc = tt;
          reader_id = (refl, differs "READER-EXIT" "" refl);
          antenna_id = (omega arith, omega arith);
          rssi = (omega arith, omega arith);
        },
        tt,
      )
      (
        (
          record {
            gate_id = (refl, differs "GATE-EXIT" "" refl);
            beam = ((refl, differs beam_inner "" refl), refl, refl);
            state = ((refl, differs beam_broken "" refl), refl, refl);
          },
          refl,
        ),
        tt,
      )
