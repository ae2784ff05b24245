-- ===== src/Simulator/Reads.antt =====
-- `pass_reads` and `stray_reads` of src/tasker_rfid/services/simulator/model.py. The signal, which is
-- worked out in floating point, and the random numbers are the argument `heard`: whether an attempt
-- is answered, and how loud. Times are whole microseconds, and so is the step between two attempts.
pub mod Passing
use tasker_rfid.Prelude.{
  ℕ, zero, suc, ◌+◌, ◌-◌, ◌*◌, ◌/◌, ◌%◌, String, Bool, true, false, Option, none, some, List, [],
  ◌∷◌, ◌++◌, ltb, flat_map, length, if◌then◌else◌,
}
use tasker_rfid.Prelude.Int.{ℤ}
use tasker_rfid.Simulator.{sort_at}

-- PASS_DURATION_S
abbrev pub pass_duration : ℕ
pass_duration = 1_800_000

pub record Read : Type 0 where
  pub tid : String
  pub epc : Option String
  pub reader_id : String
  pub antenna_id : ℤ
  pub rssi : ℤ
  pub read_at : ℕ

-- How much weaker it is read is a part of `heard`.
pub record Tag : Type 0 where
  pub tid : String
  pub epc : Option String

-- while elapsed < duration_s: …; elapsed += step
unfoldable pub attempts : (fuel elapsed step duration : ℕ) → List ℕ
attempts zero elapsed step duration = []
attempts (suc fuel) elapsed step duration =
    let rest = attempts fuel (elapsed + step) step duration in
    if ltb elapsed duration then elapsed ∷ rest else []

-- A tag in front of a reader.
pub record Setup : Type 0 where
  pub tag : Tag
  pub reader_id : String
  pub start : ℕ

abbrev pub answer : Setup → ℤ → ℕ → Option ℤ → List Read
answer setup antenna_id elapsed none = []
answer setup antenna_id elapsed (some rssi) =
    record {
      tid = setup.tag.tid;
      epc = setup.tag.epc;
      reader_id = setup.reader_id;
      antenna_id = antenna_id;
      rssi = rssi;
      read_at = setup.start + elapsed;
    }
    ∷ []

-- `for index, antenna_id in enumerate(antennas)`, where `count` is len(antennas).
unfoldable pub antenna_reads :
    Setup
    → (count step duration : ℕ) → (heard : ℕ → ℕ → Option ℤ) → (index : ℕ) → List ℤ
    → List Read
unfolding attempts
antenna_reads setup count step duration heard index [] = []
antenna_reads setup count step duration heard index (antenna_id ∷ antennas) =
    flat_map (λ elapsed. answer setup antenna_id elapsed (heard index elapsed))
      (attempts duration (index * step / count) step duration)
    ++ antenna_reads setup count step duration heard (suc index) antennas

unfoldable pub pass_reads :
    Setup → (step duration : ℕ) → (heard : ℕ → ℕ → Option ℤ) → List ℤ → List Read
unfolding antenna_reads
pass_reads setup step duration heard antennas =
    sort_at (λ r. r.read_at) (antenna_reads setup (length antennas) step duration heard 0 antennas)

-- antennas[n], which is there: a portal has an antenna.
unfoldable pub antenna_at : ℕ → List ℤ → List ℤ
antenna_at n [] = []
antenna_at zero (a ∷ antennas) = a ∷ []
antenna_at (suc n) (a ∷ antennas) = antenna_at n antennas

unfoldable pub stray_from :
    Setup
    → (step duration : ℕ) → (heard : ℕ → Option ℤ) → List ℤ
    → (fuel elapsed tick : ℕ) → List Read
unfolding antenna_at
stray_from setup step duration heard antennas zero elapsed tick = []
stray_from setup step duration heard antennas (suc fuel) elapsed tick =
    let rest = stray_from setup step duration heard antennas fuel (elapsed + step) (suc tick) in
    if ltb elapsed duration
    then flat_map (λ antenna_id. answer setup antenna_id elapsed (heard elapsed))
        (antenna_at (tick % length antennas) antennas)
      ++ rest
    else []

unfoldable pub stray_reads :
    Setup → (step duration : ℕ) → (heard : ℕ → Option ℤ) → List ℤ → List Read
unfolding stray_from
stray_reads setup step duration heard antennas =
    stray_from setup step duration heard antennas duration 0 0
