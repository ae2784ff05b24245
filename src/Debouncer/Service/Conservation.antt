-- ===== src/Debouncer/Service/Conservation.antt =====
-- No read is lost and none is counted twice between reads_raw and the observations.
use tasker_rfid.Prelude.{
  ℕ, ◌+◌, ◌≡◌, refl, ap, String, Bool, Option, none, some, List, [], ◌∷◌, ◌++◌, map, arith, not,
  select, length, Bool-cases, Option-cases, inl, inr, pair_eq, string_eq,
}
use tasker_rfid.Prelude.Int.{int_eq}
use tasker_rfid.Prelude.Dict.{Dict, lookup, insert}
use tasker_rfid.Debouncer.Grouping.{
  OpenGroup, Observation, add, start_group, starts_new_session, to_observation,
}
use tasker_rfid.Debouncer.Service.{
  Settings, RawRead, Debouncer, warn_if_future_dated, join, absorb_row, absorb_rows, absorb,
  observed, is_finished, is_kept, finished, close_quiet_groups,
}

-- The reads that a list of observations stands for.
abbrev pub reads_of : List Observation → ℕ
reads_of [] = 0
reads_of (o ∷ os) = o.read_count + reads_of os

abbrev pub Groups : Type 0
Groups = Dict (String × String) OpenGroup

abbrev pub reads_in : Groups → ℕ
reads_in [] = 0
reads_in ((_, g) ∷ d) = g.read_count + reads_in d

-- The reads that the service holds in memory.
abbrev pub reads_held : Debouncer → ℕ
reads_held s = reads_in s.open_groups + reads_of s.closed_this_round

abbrev count_of : Option OpenGroup → ℕ
count_of none = 0
count_of (some g) = g.read_count

reads_in-insert :
    (key : String × String) (g : OpenGroup) (d : Groups)
    → reads_in (insert key g d) + count_of (lookup key d) ≡ reads_in d + g.read_count
unfolding lookup insert
reads_in-insert key g [] = omega arith
reads_in-insert key g ((j, h) ∷ d) = ground (arith, reads_in-insert key g d)

reads_of-append : (xs ys : List Observation) → reads_of (xs ++ ys) ≡ reads_of xs + reads_of ys
reads_of-append [] ys = omega arith
reads_of-append (x ∷ xs) ys = omega (arith, reads_of-append xs ys)

module _ (settings : Settings) where
  join-held :
      (portal : String) (monotonic_now : ℕ) (row : RawRead) (s : Debouncer)
      → reads_held
          (join settings portal monotonic_now row (lookup (row.tid, portal) s.open_groups) s)
        ≡ reads_held s + 1
  unfolding join add start_group to_observation
  join-held portal now row s = elim (Option-cases (lookup (row.tid, portal) s.open_groups)) [
    | inl e ↦ rw e (
        omega (
          arith,
          reads_in-insert (row.tid, portal) (start_group row.tid portal row.read_at row.rssi now)
              s.open_groups,
          ap count_of e,
        ))
    | inr (g, e) ↦
        rw e (elim (Bool-cases (starts_new_session g row.read_at settings.quiet_period)) [
          | inl f ↦ rw f (
              omega (
                arith,
                reads_in-insert (row.tid, portal)
                    (start_group row.tid portal row.read_at row.rssi now) s.open_groups,
                ap count_of e,
                reads_of-append s.closed_this_round (to_observation g ∷ []),
              ))
          | inr f ↦ rw f (
              omega (
                arith,
                reads_in-insert (row.tid, portal) (add g row.read_at row.rssi now) s.open_groups,
                ap count_of e,
              ))
        ])
  ]

  unmapped-join :
      (portal : String) (monotonic_now : ℕ) (row : RawRead) (group : Option OpenGroup)
      (s : Debouncer)
      → (join settings portal monotonic_now row group s).unmapped_antenna_reads
        ≡ s.unmapped_antenna_reads
  unfolding join
  unmapped-join portal now row none s = refl
  unmapped-join portal now row (some g) s = ground arith

  -- Every read goes into a group, or is counted as read at an unmapped antenna.
  absorb_row-conserves :
      (monotonic_now : ℕ) (utc_now : ℕ → ℕ) (row : RawRead) (s : Debouncer)
      → let s' = absorb_row settings monotonic_now utc_now row s in
        reads_held s' + s'.unmapped_antenna_reads ≡ reads_held s + s.unmapped_antenna_reads + 1
  unfolding absorb_row warn_if_future_dated
  absorb_row-conserves now utc row s =
      elim (Option-cases (lookup row.antenna_id settings.portal_of)) [
        | inl e ↦ rw (e, absorb_row) (omega arith)
        | inr (portal, e) ↦
            rw (e, absorb_row)
              (omega (
                arith,
                unmapped-join portal now row (lookup (row.tid, portal) s.open_groups)
                    (warn_if_future_dated row.read_at (utc row.id) s),
                join-held portal now row (warn_if_future_dated row.read_at (utc row.id) s),
              ))
      ]

  pub absorb_rows-conserves :
      (monotonic_now : ℕ) (utc_now : ℕ → ℕ) (rows : List RawRead) (s : Debouncer)
      → let s' = absorb_rows settings monotonic_now utc_now rows s in
        reads_held s' + s'.unmapped_antenna_reads
        ≡ reads_held s + s.unmapped_antenna_reads + length rows
  unfolding absorb_rows
  absorb_rows-conserves now utc [] s = omega arith
  absorb_rows-conserves now utc (row ∷ rows) s = omega (
    arith,
    absorb_row-conserves now utc row s,
    absorb_rows-conserves now utc rows (absorb_row settings now utc row s),
  )

  reads_in-select :
      (p : (String × String) × OpenGroup → Bool) (d : Groups)
      → reads_of (map observed (select p d)) + reads_in (select (λ e. not (p e)) d) ≡ reads_in d
  unfolding to_observation
  reads_in-select p [] = refl
  reads_in-select p ((k, g) ∷ d) = ground (arith, reads_in-select p d)

  reads_of-select :
      (p : Observation → Bool) (os : List Observation)
      → reads_of (select p os) + reads_of (select (λ o. not (p o)) os) ≡ reads_of os
  reads_of-select p [] = refl
  reads_of-select p (o ∷ os) = ground (arith, reads_of-select p os)

  -- The observations that the filters throw away.
  abbrev pub rejected : (force : Bool) (monotonic_now : ℕ) → Debouncer → List Observation
  rejected force now s = select (λ o. not (is_kept settings o)) (finished settings force now s)

  pub close_quiet_groups-conserves :
      (force : Bool) (monotonic_now : ℕ) (s : Debouncer)
      → reads_of (close_quiet_groups settings force monotonic_now s).0
          + reads_of (rejected force monotonic_now s)
          + reads_held (close_quiet_groups settings force monotonic_now s).1
        ≡ reads_held s
  unfolding close_quiet_groups finished
  close_quiet_groups-conserves force now s = omega (
    arith,
    reads_of-select (is_kept settings) (finished settings force now s),
    reads_of-append s.closed_this_round
        (map observed (select (is_finished settings force now) s.open_groups)),
    reads_in-select (is_finished settings force now) s.open_groups,
  )

  -- When a batch of reads is absorbed and quiet groups are closed, then each read that was held
  -- before or is in the batch ends up in exactly one place: in an observation that is kept, in one
  -- that the filters reject, in a group that stays open, or in the count of reads from antennas
  -- that belong to no portal.
  pub absorb-close-conserves :
      (force : Bool) (monotonic_now later : ℕ) (utc_now : ℕ → ℕ) (rows : List RawRead)
      (s : Debouncer)
      → let s' = absorb settings monotonic_now utc_now rows s in
        let (kept, s'') = close_quiet_groups settings force later s' in
        reads_of kept
          + reads_of (rejected force later s')
          + reads_held s''
          + s''.unmapped_antenna_reads
        ≡ reads_held s + s.unmapped_antenna_reads + length rows
  unfolding absorb close_quiet_groups
  absorb-close-conserves force now later utc rows s = omega (
    arith,
    absorb_rows-conserves now utc rows s,
    close_quiet_groups-conserves force later (absorb settings now utc rows s),
  )
