-- ===== src/Debouncer/Commit.antt =====
-- src/tasker_rfid/services/debouncer/service.py: the tables, the directions of a batch, the
-- transaction that writes it with the cursor, and one round of `run`.
pub mod Cursor
pub mod Written
pub mod Accounts
pub mod Run
pub mod Total
use tasker_rfid.Prelude.{
  last_at, ℕ, zero, suc, ◌+◌, ◌-◌, String, Bool, true, false, Option, none, some, List, [], ◌∷◌,
  ◌++◌, map, not, ◌&&◌, ◌||◌, ltb, leb, nat_eq, string_eq, ◌==◌, if◌then◌else◌, select, length,
  take,
}
use tasker_rfid.Prelude.Dict.{Dict, lookup}
use tasker_rfid.Schema.{ObservationRow}
use tasker_rfid.Retry.{Fault, with_retry}
use tasker_rfid.StateEngine.Transitions.{direction_unknown}
use tasker_rfid.Debouncer.Grouping.{Observation}
use tasker_rfid.Debouncer.Direction.{
  BeamEvent, Crossing, crossings_from_events, direction_for_window,
}
use tasker_rfid.Debouncer.Service.{Settings, RawRead, Debouncer, absorb, close_quiet_groups}

abbrev pub fetch_batch : ℕ
fetch_batch = 5000

-- GATE_LOOKUP_MARGIN_S, in microseconds.
abbrev pub gate_lookup_margin : ℕ
gate_lookup_margin = 5_000_000

pub record GateEventRow : Type 0 where
  pub gate_id : String
  pub event : BeamEvent

-- The tables that the service reads and writes, in the order of their keys. `cursor` is the row of
-- debouncer_cursor, and `next_id` the sequence behind observations.id.
pub record Tables : Type 0 where
  pub reads_raw : List RawRead
  pub gate_events : List GateEventRow
  pub observations : List ObservationRow
  pub next_id : ℕ
  pub cursor : Option ℕ

unfoldable pub load_cursor : Tables → ℕ
load_cursor t = elim t.cursor [ none ↦ 0 | some id ↦ id ]

unfoldable pub fetch_reads : (batch cursor_id : ℕ) → Tables → List RawRead
fetch_reads batch cursor_id t = take batch (select (λ r. ltb cursor_id r.id) t.reads_raw)

-- ORDER BY occurred_at, id: a stable sort of rows that stand in the order of their ids.
unfoldable pub insert_by_time : BeamEvent → List BeamEvent → List BeamEvent
insert_by_time e [] = e ∷ []
insert_by_time e (x ∷ xs) =
    if leb e.occurred_at x.occurred_at then e ∷ x ∷ xs else x ∷ insert_by_time e xs

unfoldable pub order_by_time : List BeamEvent → List BeamEvent
unfolding insert_by_time
order_by_time [] = []
order_by_time (e ∷ es) = insert_by_time e (order_by_time es)

-- `window_start` is not yet lowered by the margin, nor `window_end` raised.
unfoldable pub fetch_gate_events :
    String → (window_start window_end margin : ℕ) → Tables → List BeamEvent
unfolding order_by_time
fetch_gate_events gate_id window_start window_end margin t = order_by_time (
    map (λ r. r.event)
      (select
        (λ r.
          r.gate_id == gate_id
          && leb window_start (r.event.occurred_at + margin)
          && leb r.event.occurred_at (window_end + margin))
        t.gate_events))

abbrev pub minimum : ℕ → List Observation → ℕ
minimum least [] = least
minimum least (o ∷ os) = minimum (if ltb o.first_read least then o.first_read else least) os

abbrev pub maximum : ℕ → List Observation → ℕ
maximum most [] = most
maximum most (o ∷ os) = maximum (if ltb most o.last_read then o.last_read else most) os

-- The crossings of the gate at `portal` over the whole batch. `none` is a KeyError.
unfoldable pub batch_crossings :
    Settings → Tables → String → String → List Observation → Option (List Crossing)
unfolding fetch_gate_events lookup crossings_from_events
batch_crossings settings t portal gate_id [] = some []
batch_crossings settings t portal gate_id (o ∷ os) = elim (lookup portal settings.gate_timeout) [
  | none ↦ none
  | some timeout ↦
      crossings_from_events
        (fetch_gate_events gate_id (minimum o.first_read os) (maximum o.last_read os)
          gate_lookup_margin t)
        timeout
]

-- The body of the inner loop: no direction at a gated portal is written as UNKNOWN.
abbrev pub or_unknown : Option String → String
or_unknown none = direction_unknown
or_unknown (some d) = d

-- `directions.get(index)`: NULL at a portal with no gate. The source groups the batch by portal
-- first; each observation then looks at the crossings of its own portal's group.
unfoldable pub direction_of :
    Settings → Tables → List Observation → Observation → Option (Option String)
unfolding batch_crossings lookup direction_for_window
direction_of settings t batch o = elim (lookup o.portal settings.gate_of_portal) [
  | none ↦ some none
  | some gate_id ↦
      elim (batch_crossings settings t o.portal gate_id
        (select (λ x. x.portal == o.portal) batch)) [
          | none ↦ none
          | some crossings ↦
              some (some (or_unknown (direction_for_window o.first_read o.last_read crossings 0)))
        ]
]

-- The pairs of an observation and its direction; `none` if any of them fails.
unfoldable pub resolve_all :
    Settings
    → Tables
    → List Observation
    → List Observation
    → Option (List (Observation × Option String))
unfolding direction_of
resolve_all settings t batch [] = some []
resolve_all settings t batch (o ∷ os) = elim (direction_of settings t batch o) [
  | none ↦ none
  | some direction ↦ elim (resolve_all settings t batch os) [
    | none ↦ none
    | some rest ↦ some ((o, direction) ∷ rest)
  ]
]

abbrev pub is_unknown : Observation × Option String → Bool
is_unknown (o, some direction) = direction == direction_unknown
is_unknown (o, none) = false

abbrev pub is_resolved : Observation × Option String → Bool
is_resolved (o, some direction) = not (direction == direction_unknown)
is_resolved (o, none) = false

-- INSERT_OBSERVATION_SQL.
unfoldable pub observation_row : (id : ℕ) → Observation × Option String → ObservationRow
observation_row id (o, direction) = record {
  id = id;
  tid = o.tid;
  portal = o.portal;
  direction = direction;
  first_read = o.first_read;
  last_read = o.last_read;
  read_count = o.read_count;
  peak_rssi = o.peak_rssi;
  processed = false;
}

unfoldable pub number_rows :
    (next_id : ℕ) → List (Observation × Option String) → List ObservationRow
unfolding observation_row
number_rows next_id [] = []
number_rows next_id (x ∷ xs) = observation_row next_id x ∷ number_rows (next_id + 1) xs

-- The transaction: the observations and the cursor.
unfoldable pub commit_action :
    List (Observation × Option String) → (cursor_id : ℕ) → Tables → Tables
unfolding number_rows
commit_action resolved cursor_id t = record t {
  observations = t.observations ++ number_rows t.next_id resolved;
  next_id = t.next_id + length resolved;
  cursor = some cursor_id;
}

abbrev pub nothing_left : Unit {0} → Tables → Tables
nothing_left left t = t

-- The counters that `resolve_directions` and `commit` add to.
unfoldable pub count_written : List (Observation × Option String) → Debouncer → Debouncer
count_written resolved s = record s {
  observations_written = s.observations_written + length resolved;
  directions_resolved = s.directions_resolved + length (select is_resolved resolved);
  directions_unknown = s.directions_unknown + length (select is_unknown resolved);
}

-- `none` is a KeyError, which ends the service before anything is written.
unfoldable pub commit :
    Settings
    → List (Fault (Unit {0}))
    → List Observation
    → (cursor_id : ℕ) → Debouncer × Tables
    → Option (Debouncer × Tables)
commit settings faults observations cursor_id (s, t) =
    elim (resolve_all settings t observations observations) [
      | none ↦ none
      | some resolved ↦ some (
        count_written resolved s,
        with_retry nothing_left (commit_action resolved cursor_id) faults t,
      )
    ]

-- `rows[-1][0]`
abbrev pub highest_id : ℕ → List RawRead → ℕ
highest_id = last_at (λ r. r.id)

abbrev pub is_empty {ℓ} : {A : Type ℓ} → List A → Bool
is_empty [] = true
is_empty (_ ∷ _) = false

-- The second half of a round: a commit, unless there is nothing new.
unfoldable pub write_round :
    Settings
    → List (Fault (Unit {0}))
    → List Observation
    → (cursor_id highest : ℕ) → Debouncer × Tables
    → Option (Debouncer × Tables)
write_round settings faults observations cursor_id highest (s, t) =
    if not (is_empty observations) || not (highest == cursor_id)
    then elim (commit settings faults observations highest (s, t)) [
      | none ↦ none
      | some (s', t') ↦ some (record s' { cursor_id = highest }, t')
    ]
    else some (s, t)

-- One round of `run`: the clock is read once to absorb and once to close.
unfoldable pub round :
    Settings
    → (absorbed_at closed_at : ℕ) (utc_now : ℕ → ℕ) → List (Fault (Unit {0}))
    → Debouncer × Tables
    → Option (Debouncer × Tables)
round settings absorbed_at closed_at utc_now faults (s, t) =
    let rows = fetch_reads fetch_batch s.cursor_id t in
    let taken = if is_empty rows then s else absorb settings absorbed_at utc_now rows s in
    let (observations, s') = close_quiet_groups settings false closed_at taken in
    write_round settings faults observations s.cursor_id (highest_id s.cursor_id rows) (s', t)

-- The flush after the loop.
unfoldable pub flush :
    Settings
    → (closed_at : ℕ) → List (Fault (Unit {0}))
    → Debouncer × Tables
    → Option (Debouncer × Tables)
flush settings closed_at faults (s, t) =
    let (final, s') = close_quiet_groups settings true closed_at s in
    commit settings faults final s'.cursor_id (s', t)
