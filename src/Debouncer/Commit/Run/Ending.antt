-- ===== src/Debouncer/Commit/Run/Ending.antt =====
-- The debouncer ends with its flush, never in a KeyError.
use tasker_rfid.Prelude.{
  ℕ, ◌≡◌, refl, sym, subst, String, Option, some, List, [], ◌∷◌, not, ◌||◌, nat_eq, ◌==◌, All,
  All-append, Option-cases, Bool-cases, inl, inr,
}
use tasker_rfid.Retry.{Fault, rolled_back, unacknowledged, with_retry}
use tasker_rfid.Debouncer.Grouping.{Observation}
use tasker_rfid.Debouncer.Service.{Settings, Debouncer}
use tasker_rfid.Debouncer.Commit.{
  Tables, commit_action, commit, write_round, round, flush, nothing_left, resolve_all, is_empty,
}
use tasker_rfid.Debouncer.Commit.Total.{HasTimeouts, RowIsKnown, round_total, commit_total}
use tasker_rfid.Debouncer.Commit.Run.{Env, arrive, run}

-- Nothing that the debouncer does changes gate_events.
abbrev KeepsEvents : Tables → Debouncer × Tables → Type 0
KeepsEvents t r = r.1.gate_events ≡ t.gate_events

some-injective : (x y : Debouncer × Tables) → some x ≡ some y → x ≡ y
some-injective x y e = cc

with_retry-gate_events :
    (resolved : List (Observation × Option String)) (c : ℕ) (faults : List (Fault (Unit {0})))
    (t : Tables)
    → (with_retry nothing_left (commit_action resolved c) faults t).gate_events ≡ t.gate_events
unfolding with_retry commit_action
with_retry-gate_events resolved c [] t = refl
with_retry-gate_events resolved c (rolled_back left ∷ faults) t =
    with_retry-gate_events resolved c faults t
with_retry-gate_events resolved c (unacknowledged left ∷ faults) t =
    with_retry-gate_events resolved c faults (commit_action resolved c t)

module _ (settings : Settings) (faults : List (Fault (Unit {0}))) (s : Debouncer) (t : Tables)
    (observations : List Observation) where
  commit-KeepsEvents :
      (c : ℕ) (r : Debouncer × Tables)
      → commit settings faults observations c (s, t) ≡ some r
      → KeepsEvents t r
  unfolding commit
  commit-KeepsEvents c r e =
      elim (Option-cases (resolve_all settings t observations observations)) [
        | inl f ↦ cc (rw (f, commit) at e)
        | inr (resolved, f) ↦
            subst (KeepsEvents t) (some-injective _ r (rw (f, commit) at e))
              (with_retry-gate_events resolved c faults t)
      ]

  write_round-KeepsEvents :
      (c highest : ℕ) (r : Debouncer × Tables)
      → write_round settings faults observations c highest (s, t) ≡ some r
      → KeepsEvents t r
  unfolding write_round
  write_round-KeepsEvents c highest r e =
      elim (Bool-cases (not (is_empty observations) || not (highest == c))) [
        | inl g ↦ elim (Option-cases (commit settings faults observations highest (s, t))) [
          | inl f ↦ cc (rw (g, f, write_round) at e)
          | inr (q, f) ↦
              subst (KeepsEvents t) (some-injective _ r (rw (g, f, write_round) at e))
                (commit-KeepsEvents highest q f)
        ]
        | inr g ↦ subst (KeepsEvents t) (some-injective _ r (rw (g, write_round) at e)) refl
      ]

-- If every portal that has a gate has a timeout, and every gate event that is stored at the start or
-- arrives later is of one of the two beams, then the debouncer's run ends with its flush, whatever
-- is read, however many rounds there are, and whichever attempts fail.
pub run_total :
    (settings : Settings) (utc_now : ℕ → ℕ) (envs : List Env) (flushed_at : ℕ)
    (faults : List (Fault (Unit {0}))) (s : Debouncer) (t : Tables)
    → HasTimeouts settings
    → All (λ env. All RowIsKnown env.gate_events) envs
    → All RowIsKnown t.gate_events
    → (r : Debouncer × Tables) × (run settings utc_now envs flushed_at faults (s, t) ≡ some r)
unfolding run flush round arrive
run_total settings utc_now [] flushed_at faults s t timeouts arriving known =
    commit_total settings timeouts t known faults _ _ _
run_total settings utc_now (env ∷ envs) flushed_at faults s t timeouts arriving known =
    let here = All-append RowIsKnown t.gate_events env.gate_events known arriving.0 in
    let (state, e) =
      round_total settings env.absorbed_at env.closed_at utc_now env.faults s (arrive env t)
        timeouts here in
    let (r, f) =
      run_total settings utc_now envs flushed_at faults state.0 state.1 timeouts arriving.1 (
        subst (All RowIsKnown)
          (sym (write_round-KeepsEvents settings env.faults _ (arrive env t) _ _ _ state e))
          here) in
    (r, rw (run, e) f)
