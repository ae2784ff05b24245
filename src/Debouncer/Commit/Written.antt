-- ===== src/Debouncer/Commit/Written.antt =====
-- What the debouncer's commit leaves in the tables.
use tasker_rfid.Prelude.{
  ℕ, ◌+◌, ◌≡◌, refl, sym, ap, ◌∙◌, subst, String, true, false, Option, some, List, [], ◌∷◌, ◌++◌,
  arith, not, ◌||◌, nat_eq, ◌==◌, All, Option-cases, Bool-cases, inl, inr,
}
use tasker_rfid.Schema.{ObservationRow}
use tasker_rfid.Retry.{Fault, with_retry}
use tasker_rfid.Debouncer.Grouping.{Observation}
use tasker_rfid.Debouncer.Service.{Settings, Debouncer}
use tasker_rfid.Debouncer.Service.Conservation.{reads_of, reads_held}
use tasker_rfid.Debouncer.Commit.{
  Tables, load_cursor, commit_action, commit, count_written, write_round, nothing_left, number_rows,
  observation_row, resolve_all, is_empty, direction_of,
}
use tasker_rfid.Debouncer.Commit.Cursor.{
  IsRolledBack, with_retry_once, with_retry-cursor, with_retry-reads_raw,
}

abbrev pub reads_written : List ObservationRow → ℕ
reads_written [] = 0
reads_written (o ∷ os) = o.read_count + reads_written os

reads_written-append :
    (xs ys : List ObservationRow) → reads_written (xs ++ ys) ≡ reads_written xs + reads_written ys
reads_written-append [] ys = omega arith
reads_written-append (x ∷ xs) ys = omega (arith, reads_written-append xs ys)

abbrev resolved_reads : List (Observation × Option String) → ℕ
resolved_reads [] = 0
resolved_reads ((o, _) ∷ rest) = o.read_count + resolved_reads rest

reads_written-number_rows :
    (n : ℕ) (xs : List (Observation × Option String))
    → reads_written (number_rows n xs) ≡ resolved_reads xs
unfolding number_rows observation_row
reads_written-number_rows n [] = refl
reads_written-number_rows n ((o, d) ∷ xs) =
    ap (λ (k : ℕ). o.read_count + k) (reads_written-number_rows (n + 1) xs)

list-injective : (x y : List (Observation × Option String)) → some x ≡ some y → x ≡ y
list-injective x y e = cc

resolve_all-reads :
    (settings : Settings) (t : Tables) (batch os : List Observation)
    (resolved : List (Observation × Option String))
    → resolve_all settings t batch os ≡ some resolved
    → resolved_reads resolved ≡ reads_of os
unfolding resolve_all
resolve_all-reads settings t batch [] resolved e = ground arith
resolve_all-reads settings t batch (o ∷ os) resolved e =
    elim (Option-cases (direction_of settings t batch o)) [
      | inl f ↦ cc (rw (f, resolve_all) at e)
      | inr (d, f) ↦ elim (Option-cases (resolve_all settings t batch os)) [
        | inl g ↦ cc (rw (f, g, resolve_all) at e)
        | inr (rest, g) ↦
            subst (λ (l : List (Observation × Option String)). resolved_reads l ≡ reads_of (o ∷ os))
              (list-injective ((o, d) ∷ rest) resolved (rw (f, g, resolve_all) at e))
              (ap (λ (k : ℕ). o.read_count + k) (resolve_all-reads settings t batch os rest g))
      ]
    ]

pair-injective : (x y : Debouncer × Tables) → some x ≡ some y → x ≡ y
pair-injective x y e = cc

-- What writing `observations` with the cursor at `c` leaves.
pub record Written (observations : List Observation) (c : ℕ) (s : Debouncer) (t : Tables)
    (r : Debouncer × Tables) : Type 0 where
  pub same_reads : r.1.reads_raw ≡ t.reads_raw
  pub cursor : load_cursor r.1 ≡ c
  pub written :
      reads_written r.1.observations ≡ reads_written t.observations + reads_of observations
  pub held : reads_held r.0 ≡ reads_held s
  pub unmapped : r.0.unmapped_antenna_reads ≡ s.unmapped_antenna_reads

module _ (settings : Settings) (faults : List (Fault (Unit {0})))
    (calm : All IsRolledBack faults) where
  written_once :
      (t : Tables) (observations : List Observation) (c : ℕ)
      (resolved : List (Observation × Option String))
      → resolve_all settings t observations observations ≡ some resolved
      → reads_written (with_retry nothing_left (commit_action resolved c) faults t).observations
        ≡ reads_written t.observations + reads_of observations
  unfolding commit_action
  written_once t observations c resolved f =
      ap (λ (u : Tables). reads_written u.observations)
        (with_retry_once (commit_action resolved c) faults t calm)
      ∙ reads_written-append t.observations (number_rows t.next_id resolved)
      ∙ ap (λ (k : ℕ). reads_written t.observations + k)
          (reads_written-number_rows t.next_id resolved
            ∙ resolve_all-reads settings t observations observations resolved f)

  pub commit-Written :
      (s : Debouncer) (t : Tables) (observations : List Observation) (c : ℕ)
      {r : Debouncer × Tables}
      → commit settings faults observations c (s, t) ≡ some r
      → Written observations c s t r
  unfolding commit count_written
  commit-Written s t observations c {r} e =
      elim (Option-cases (resolve_all settings t observations observations)) [
        | inl f ↦ cc (rw (f, commit) at e)
        | inr (resolved, f) ↦
            subst (Written observations c s t) (pair-injective _ r (rw (f, commit) at e)) (record {
              same_reads = with_retry-reads_raw resolved c faults t;
              cursor = with_retry-cursor resolved c faults t;
              written = written_once t observations c resolved f;
              held = refl;
              unmapped = refl;
            })
      ]

-- What the second half of a round leaves.
pub record Finished (observations : List Observation) (highest : ℕ) (s : Debouncer) (t : Tables)
    (r : Debouncer × Tables) : Type 0 where
  pub same_reads : r.1.reads_raw ≡ t.reads_raw
  pub stored : load_cursor r.1 ≡ highest
  pub kept : r.0.cursor_id ≡ highest
  pub written :
      reads_written r.1.observations ≡ reads_written t.observations + reads_of observations
  pub held : reads_held r.0 ≡ reads_held s
  pub unmapped : r.0.unmapped_antenna_reads ≡ s.unmapped_antenna_reads

module _ (settings : Settings) (faults : List (Fault (Unit {0}))) (calm : All IsRolledBack faults)
    (highest : ℕ) where
  write_changed :
      (s : Debouncer) (t : Tables) (observations : List Observation) (c : ℕ)
      (r : Debouncer × Tables)
      → not (is_empty observations) || not (highest == c) ≡ true
      → write_round settings faults observations c highest (s, t) ≡ some r
      → Finished observations highest s t r
  unfolding write_round
  write_changed s t observations c r changed e =
      elim (Option-cases (commit settings faults observations highest (s, t))) [
        | inl f ↦ cc (rw (changed, f, write_round) at e)
        | inr (q, f) ↦
            let w = commit-Written settings faults calm s t observations highest f in
            subst (Finished observations highest s t)
              (pair-injective _ r (rw (changed, f, write_round) at e))
              (record {
                same_reads = w.same_reads;
                stored = w.cursor;
                kept = refl;
                written = w.written;
                held = w.held;
                unmapped = w.unmapped;
              })
      ]

  write_same :
      (s : Debouncer) (t : Tables) (observations : List Observation) (c : ℕ)
      (r : Debouncer × Tables)
      → s.cursor_id ≡ c
      → load_cursor t ≡ c
      → not (is_empty observations) || not (highest == c) ≡ false
      → write_round settings faults observations c highest (s, t) ≡ some r
      → Finished observations highest s t r
  unfolding write_round
  write_same s t [] c r memory stored same e =
      let at_c : highest ≡ c = ground arith in
      subst (Finished [] highest s t) (pair-injective _ r (rw (same, write_round) at e)) (record {
        same_reads = refl;
        stored = stored ∙ sym at_c;
        kept = memory ∙ sym at_c;
        written = omega arith;
        held = refl;
        unmapped = refl;
      })
  write_same s t (o ∷ os) c r memory stored same e = cc

  pub write_round-Finished :
      (s : Debouncer) (t : Tables) (observations : List Observation) (c : ℕ)
      (r : Debouncer × Tables)
      → s.cursor_id ≡ c
      → load_cursor t ≡ c
      → write_round settings faults observations c highest (s, t) ≡ some r
      → Finished observations highest s t r
  write_round-Finished s t observations c r memory stored e =
      elim (Bool-cases (not (is_empty observations) || not (highest == c))) [
        | inl f ↦ write_changed s t observations c r f e
        | inr f ↦ write_same s t observations c r memory stored f e
      ]
