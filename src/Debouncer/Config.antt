-- ===== src/Debouncer/Config.antt =====
-- src/tasker_rfid/config.py: what the debouncer takes from config/tasker.yaml, and its defaults.
-- The file is read by a library. A value of another kind than the one shown is not modelled.
pub mod Timeouts
use tasker_rfid.Prelude.{
  ℕ, ◌*◌, String, Bool, true, false, Option, none, some, List, [], ◌∷◌, map, string_eq, nat_eq,
  ◌==◌, if◌then◌else◌,
}
use tasker_rfid.Prelude.Int.{ℤ, pos, negsuc, int_eq}
use tasker_rfid.Prelude.Dict.{Dict, lookup, insert}
use tasker_rfid.Debouncer.Service.{Settings}

-- `portals.entrance` and `portals.exit`.
pub record PortalSection : Type 0 where
  pub antennas : List ℤ
  pub gate_id : Option String
  pub ir_gate_timeout_ms : Option ℕ

pub record Filters : Type 0 where
  pub quiet_period_ms : Option ℕ
  pub rssi_floor_dbm : Option ℤ
  pub min_read_count : Option ℕ

pub record Config : Type 0 where
  pub filters : Filters
  pub entrance : PortalSection
  pub exit : PortalSection

abbrev pub portals : List String
portals = "ENTRANCE" ∷ "EXIT" ∷ []

-- section.get(key, default)
abbrev pub or_default {ℓ} : {A : Type ℓ} → A → Option A → A
or_default d none = d
or_default d (some x) = x

-- `portal` is one of PORTALS in all that follows.
abbrev pub section_of : String → Config → PortalSection
section_of portal config = if portal == "ENTRANCE" then config.entrance else config.exit

unfoldable pub default_antennas : String → List ℤ
default_antennas portal = if portal == "ENTRANCE" then pos 1 ∷ pos 2 ∷ [] else pos 3 ∷ pos 4 ∷ []

-- `if antennas`: an empty list counts as missing.
abbrev pub or_antennas : List ℤ → List ℤ → List ℤ
or_antennas d [] = d
or_antennas d (a ∷ rest) = a ∷ rest

unfoldable pub antennas_for_portal : String → Config → List ℤ
unfolding default_antennas
antennas_for_portal portal config =
    or_antennas (default_antennas portal) (section_of portal config).antennas

abbrev pub assign : String → List ℤ → Dict ℤ String → Dict ℤ String
assign portal [] mapping = mapping
assign portal (a ∷ rest) mapping = assign portal rest (insert a portal mapping)

unfoldable pub portal_by_antenna : Config → Dict ℤ String
unfolding antennas_for_portal insert
portal_by_antenna config =
    assign "EXIT" (antennas_for_portal "EXIT" config)
      (assign "ENTRANCE" (antennas_for_portal "ENTRANCE" config) [])

unfoldable pub default_gate_id : String → Option String
default_gate_id portal = if portal == "EXIT" then some "GATE-EXIT" else none

-- `if configured`: an empty text counts as missing.
abbrev pub or_gate : Option String → Option String → Option String
or_gate d none = d
or_gate d (some g) = if g == "" then d else some g

unfoldable pub gate_id_for_portal : String → Config → Option String
unfolding default_gate_id
gate_id_for_portal portal config =
    or_gate (default_gate_id portal) (section_of portal config).gate_id

abbrev pub or_timeout : Option ℕ → ℕ
or_timeout none = 3000
or_timeout (some ms) = if ms == 0 then 3000 else ms

unfoldable pub ir_gate_timeout_ms : String → Config → ℕ
ir_gate_timeout_ms portal config = or_timeout (section_of portal config).ir_gate_timeout_ms

-- The comprehension of `__init__`: the portals that have a gate.
abbrev pub gated_portals : Config → List String → Dict String String
gated_portals config [] = []
gated_portals config (p ∷ ps) =
    let rest = gated_portals config ps in
    elim (gate_id_for_portal p config) [ none ↦ rest | some g ↦ (p, g) ∷ rest ]

abbrev pub timeouts_of : Config → Dict String String → Dict String ℕ
timeouts_of config [] = []
timeouts_of config ((p, _) ∷ rest) =
    (p, ir_gate_timeout_ms p config * 1000) ∷ timeouts_of config rest

-- The first half of `__init__`; milliseconds become microseconds.
unfoldable pub settings_of : Config → Settings
unfolding portal_by_antenna gate_id_for_portal ir_gate_timeout_ms
settings_of config = record {
  quiet_period = or_default 2000 config.filters.quiet_period_ms * 1000;
  rssi_floor_dbm = or_default (negsuc 64) config.filters.rssi_floor_dbm;
  min_read_count = or_default 3 config.filters.min_read_count;
  portal_of = portal_by_antenna config;
  gate_of_portal = gated_portals config portals;
  gate_timeout = timeouts_of config (gated_portals config portals);
}
