-- ===== src/Simulator/Commands.antt =====
-- src/tasker_rfid/services/simulator/cli.py: the commands, from their arguments to reads and beam events.
-- Everything that is drawn at random or taken from the clock is an argument: the tags' fresh TIDs,
-- the start, what is heard of each tag, which boxes are missed, half the time between the beams. The
-- sentences that are printed and the command line's own parser are left out.
pub mod Sound
use Prim.Native.String as NativeString
use tasker_rfid.Prelude.{
  ℕ, zero, suc, ◌+◌, ◌-◌, ◌*◌, ◌/◌, String, Bool, true, false, Option, none, some, List, [], ◌∷◌,
  ◌++◌, map, flat_map, string_eq, ◌==◌, not, select, length, if◌then◌else◌, ltb,
}
use tasker_rfid.Prelude.Int.{ℤ}
use tasker_rfid.Debouncer.Config.{Config, antennas_for_portal, gate_id_for_portal}
use tasker_rfid.Debouncer.Direction.{BeamEvent}
use tasker_rfid.Ingest.Validation.{GateEvent}
use tasker_rfid.Simulator.{merge, gate_crossing, box_beam_blocked}
use tasker_rfid.Simulator.Reads.{
  pass_duration, Read, Tag, Setup, pass_reads, stray_reads, antenna_at,
}

-- PALLET_BEAM_BLOCKED_S
abbrev pub pallet_beam_blocked : ℕ
pallet_beam_blocked = 1_000_000

-- "3034" + tid[-20:], in bytes; a TID is ASCII.
unfoldable pub make_epc : String → String
make_epc tid =
    NativeString.◌++◌ "3034"
      (NativeString.slice tid (NativeString.len tid - 20) (NativeString.len tid))

-- tid or make_tid(rng)
abbrev pub or_fresh : Option String → String → String
or_fresh none fresh = fresh
or_fresh (some tid) fresh = if tid == "" then fresh else tid

unfoldable pub make_tag : (tid : Option String) (fresh : String) → Tag
unfolding make_epc
make_tag tid fresh = record { tid = or_fresh tid fresh; epc = some (make_epc (or_fresh tid fresh)) }

abbrev pub with_gate : String → BeamEvent → GateEvent
with_gate gate_id e = record {
  gate_id = gate_id;
  beam = e.beam;
  state = e.state;
  occurred_at = e.occurred_at;
}

-- `if not gate_id`: an empty text counts as none.
unfoldable pub crossing_for :
    Config → (portal : String) (start drawn blocked : ℕ) (reverse : Bool) → List GateEvent
crossing_for config portal start drawn blocked reverse = elim (gate_id_for_portal portal config) [
  | none ↦ []
  | some gate_id ↦
      if gate_id == ""
      then []
      else map (with_gate gate_id) (gate_crossing (start + pass_duration / 2) drawn blocked reverse)
]

-- What all commands are given.
pub record Args : Type 0 where
  pub portal : String
  pub reader_id : String

-- One tag's passage: the TID it is given or a fresh one, when it starts, the time between two
-- attempts at it, and what the reader hears.
pub record Passage : Type 0 where
  pub tid : Option String
  pub fresh : String
  pub start : ℕ
  pub step : ℕ
  pub heard : ℕ → ℕ → Option ℤ

abbrev pub setup_of : Args → Passage → Setup
setup_of args p = record {
  tag = make_tag p.tid p.fresh;
  reader_id = args.reader_id;
  start = p.start;
}

abbrev pub stream : Config → Args → Passage → List Read
stream config args p =
    pass_reads (setup_of args p) p.step pass_duration p.heard
      (antennas_for_portal args.portal config)

abbrev pub Output : Type 0
Output = List Read × List GateEvent

unfoldable pub cmd_box : Config → Args → Passage → (drawn : ℕ) → Output
unfolding crossing_for make_tag
cmd_box config args p drawn =
    (stream config args p, crossing_for config args.portal p.start drawn box_beam_blocked false)

-- The antennas peak in the other order, which is a part of what is heard.
unfoldable pub cmd_reverse : Config → Args → Passage → (drawn : ℕ) → Output
unfolding crossing_for make_tag
cmd_reverse config args p drawn =
    (stream config args p, crossing_for config args.portal p.start drawn box_beam_blocked true)

unfoldable pub cmd_stray :
    Config → Args → Passage → (duration : ℕ) → (heard : ℕ → Option ℤ) → Output
unfolding make_tag
cmd_stray config args p duration heard = (
  stray_reads (setup_of args p) p.step duration heard (antennas_for_portal args.portal config),
  [],
)

-- A box of the pallet, and whether it is missed where boxes are not named.
pub record Box : Type 0 where
  pub passage : Passage
  pub missed : Bool

-- Named boxes are all present; of the others, those that are not missed.
unfoldable pub present : (named : Bool) → List Box → List Passage
present named boxes =
    map (λ b. b.passage) (if named then boxes else select (λ b. not b.missed) boxes)

unfoldable pub cmd_pallet :
    Config → Args → (pallet : Passage) (named : Bool) → List Box → (drawn : ℕ) → Output
unfolding crossing_for present make_tag
cmd_pallet config args pallet named boxes drawn = (
  merge (λ r. r.read_at)
      (stream config args pallet ∷ map (stream config args) (present named boxes)),
  crossing_for config args.portal pallet.start drawn pallet_beam_blocked false,
)

-- One read of the flood: the tag and the antenna that are drawn, and how loud.
pub record Draw : Type 0 where
  pub tag : Tag
  pub antenna_id : ℤ
  pub rssi : ℤ

-- `args.duration * n / args.count`, for the n-th read and those after it.
unfoldable pub burst_from : Args → (start duration count n : ℕ) → List Draw → List Read
burst_from args start duration count n [] = []
burst_from args start duration count n (d ∷ draws) =
    record {
      tid = d.tag.tid;
      epc = d.tag.epc;
      reader_id = args.reader_id;
      antenna_id = d.antenna_id;
      rssi = d.rssi;
      read_at = start + duration * n / count;
    }
    ∷ burst_from args start duration count (suc n) draws

unfoldable pub cmd_burst : Args → (start duration : ℕ) → List Draw → Output
unfolding burst_from
cmd_burst args start duration draws = (burst_from args start duration (length draws) 0 draws, [])
