-- ===== src/Debouncer/Config/Timeouts.antt =====
-- The settings that the debouncer starts with never lack the timeout of a gate.
use tasker_rfid.Prelude.{
  ℕ, ◌*◌, String, ◌≡◌, refl, some, [], ◌∷◌, Bool-cases, inl, inr, string_eq, ◌==◌,
}
use tasker_rfid.Prelude.Dict.{Dict, lookup}
use tasker_rfid.Debouncer.Config.{
  Config, ir_gate_timeout_ms, timeouts_of, gated_portals, portals, settings_of,
}

lookup-timeouts_of :
    (config : Config) (d : Dict String String) (portal gate_id : String)
    → lookup portal d ≡ some gate_id
    → (timeout : ℕ) × (lookup portal (timeouts_of config d) ≡ some timeout)
unfolding lookup
lookup-timeouts_of config [] portal gate_id e = cc
lookup-timeouts_of config ((p, g) ∷ rest) portal gate_id e = elim (Bool-cases (p == portal)) [
  | inl f ↦ rw f (ir_gate_timeout_ms p config * 1000, refl)
  | inr f ↦ rw f (lookup-timeouts_of config rest portal gate_id (rw f at e))
]

-- Whatever the configuration says, every portal that the debouncer takes to have a gate has a
-- timeout for that gate.
pub settings_of_timeouts :
    (config : Config) (portal gate_id : String)
    → lookup portal (settings_of config).gate_of_portal ≡ some gate_id
    → (timeout : ℕ) × (lookup portal (settings_of config).gate_timeout ≡ some timeout)
unfolding settings_of
settings_of_timeouts config portal gate_id e =
    lookup-timeouts_of config (gated_portals config portals) portal gate_id e
