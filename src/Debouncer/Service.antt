-- ===== src/Debouncer/Service.antt =====
-- src/tasker_rfid/services/debouncer/service.py: reads go into open groups, and groups that have
-- gone quiet come out as observations.
pub mod Conservation
pub mod Groups
use tasker_rfid.Prelude.{
  ℕ, ◌+◌, String, Bool, true, false, Option, none, some, List, [], ◌∷◌, ◌++◌, map, not, ◌||◌, ltb,
  string_eq, pair_eq, if◌then◌else◌, select, length,
}
use tasker_rfid.Prelude.Int.{ℤ, int_eq}
use tasker_rfid.Prelude.Dict.{Dict, lookup, insert}
use tasker_rfid.Debouncer.Grouping.{
  OpenGroup, Observation, add, start_group, starts_new_session, has_gone_quiet, to_observation,
  Rejection, rejection_reason,
}

-- FUTURE_READ_WARN_S, in microseconds.
abbrev pub future_read_warn : ℕ
future_read_warn = 300_000_000

-- What `__init__` takes from config/tasker.yaml.
pub record Settings : Type 0 where
  pub quiet_period : ℕ
  pub rssi_floor_dbm : ℤ
  pub min_read_count : ℕ
  pub portal_of : Dict ℤ String
  pub gate_of_portal : Dict String String
  pub gate_timeout : Dict String ℕ

-- A row of FETCH_SQL.
pub record RawRead : Type 0 where
  pub id : ℕ
  pub tid : String
  pub antenna_id : ℤ
  pub rssi : Option ℤ
  pub read_at : ℕ

-- What the `Debouncer` object keeps.
pub record Debouncer : Type 0 where
  pub open_groups : Dict (String × String) OpenGroup
  pub closed_this_round : List Observation
  pub cursor_id : ℕ
  pub reads_consumed : ℕ
  pub observations_written : ℕ
  pub observations_rejected : ℕ
  pub unmapped_antenna_reads : ℕ
  pub future_dated_reads : ℕ
  pub directions_resolved : ℕ
  pub directions_unknown : ℕ

unfoldable pub warn_if_future_dated : (read_at utc_now : ℕ) → Debouncer → Debouncer
warn_if_future_dated read_at utc_now s = record s {
  future_dated_reads =
      if ltb (utc_now + future_read_warn) read_at
      then s.future_dated_reads + 1
      else s.future_dated_reads;
}

-- One entry of open_groups, as an observation.
abbrev pub observed : (String × String) × OpenGroup → Observation
observed (key, group) = to_observation group

module _ (settings : Settings) where
  -- The read of a tag at a portal, given the group that is open there, if any.
  unfoldable pub join :
      (portal : String) (monotonic_now : ℕ) → RawRead → Option OpenGroup → Debouncer → Debouncer
  join portal monotonic_now row none s = record s {
    open_groups =
        insert (row.tid, portal) (start_group row.tid portal row.read_at row.rssi monotonic_now)
          s.open_groups;
  }
  join portal monotonic_now row (some group) s =
      if starts_new_session group row.read_at settings.quiet_period
      then record s {
        closed_this_round = s.closed_this_round ++ to_observation group ∷ [];
        open_groups =
            insert (row.tid, portal) (start_group row.tid portal row.read_at row.rssi monotonic_now)
              s.open_groups;
      }
      else record s {
        open_groups =
            insert (row.tid, portal) (add group row.read_at row.rssi monotonic_now) s.open_groups;
      }

  -- The body of the loop of `absorb`.
  unfoldable pub absorb_row :
      (monotonic_now : ℕ) (utc_now : ℕ → ℕ) → RawRead → Debouncer → Debouncer
  unfolding lookup
  absorb_row monotonic_now utc_now row s = elim (lookup row.antenna_id settings.portal_of) [
    | none ↦ record s { unmapped_antenna_reads = s.unmapped_antenna_reads + 1 }
    | some portal ↦
        join portal monotonic_now row (lookup (row.tid, portal) s.open_groups)
          (warn_if_future_dated row.read_at (utc_now row.id) s)
  ]

  unfoldable pub absorb_rows :
      (monotonic_now : ℕ) (utc_now : ℕ → ℕ) → List RawRead → Debouncer → Debouncer
  absorb_rows monotonic_now utc_now [] s = s
  absorb_rows monotonic_now utc_now (row ∷ rows) s =
      absorb_rows monotonic_now utc_now rows (absorb_row monotonic_now utc_now row s)

  unfoldable pub absorb :
      (monotonic_now : ℕ) (utc_now : ℕ → ℕ) → List RawRead → Debouncer → Debouncer
  absorb monotonic_now utc_now rows s =
      let s' = absorb_rows monotonic_now utc_now rows s in
      record s' { reads_consumed = s'.reads_consumed + length rows }

  -- The groups that are taken out: those gone quiet, or all of them.
  unfoldable pub is_finished :
      (force : Bool) (monotonic_now : ℕ) → (String × String) × OpenGroup → Bool
  is_finished force monotonic_now (key, group) =
      force || has_gone_quiet group monotonic_now settings.quiet_period

  unfoldable pub is_kept : Observation → Bool
  is_kept o = elim (rejection_reason o settings.rssi_floor_dbm settings.min_read_count) [
    | none ↦ true
    | some _ ↦ false
  ]

  -- What `close_quiet_groups` looks at: the observations closed by `absorb`, then those of the
  -- groups taken out.
  unfoldable pub finished : (force : Bool) (monotonic_now : ℕ) → Debouncer → List Observation
  finished force monotonic_now s =
      s.closed_this_round ++ map observed (select (is_finished force monotonic_now) s.open_groups)

  -- The keys of a dict are distinct, so popping each selected key leaves the other entries.
  unfoldable pub close_quiet_groups :
      (force : Bool) (monotonic_now : ℕ) → Debouncer → List Observation × Debouncer
  close_quiet_groups force monotonic_now s =
      let all = finished force monotonic_now s in
      (
        select is_kept all,
        record s {
          closed_this_round = [];
          open_groups = select (λ entry. not (is_finished force monotonic_now entry)) s.open_groups;
          observations_rejected =
              s.observations_rejected + length (select (λ o. not (is_kept o)) all);
        },
      )
