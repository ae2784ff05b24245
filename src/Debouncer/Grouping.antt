-- ===== src/Debouncer/Grouping.antt =====
-- src/tasker_rfid/services/debouncer/grouping.py. Times and periods are microseconds: a datetime
-- holds whole microseconds, and `a - b > p` is `b + p < a`.
pub mod Summary
use tasker_rfid.Prelude.{
  ℕ, ◌+◌, String, Bool, true, false, Option, none, some, ltb, ◌&&◌, if◌then◌else◌,
}
use tasker_rfid.Prelude.Int.{ℤ, ltb_ℤ}

pub record OpenGroup : Type 0 where
  pub tid : String
  pub portal : String
  pub first_read : ℕ
  pub last_read : ℕ
  pub read_count : ℕ
  pub peak_rssi : Option ℤ
  pub last_touched : ℕ

-- `rssi is not None and (peak is None or rssi > peak)`: the peak after a read.
unfoldable pub stronger : Option ℤ → Option ℤ → Option ℤ
stronger peak none = peak
stronger none (some rssi) = some rssi
stronger (some peak) (some rssi) = if ltb_ℤ peak rssi then some rssi else some peak

unfoldable pub add : OpenGroup → (read_at : ℕ) (rssi : Option ℤ) (monotonic_now : ℕ) → OpenGroup
unfolding stronger
add group read_at rssi monotonic_now = record group {
  first_read = if ltb read_at group.first_read then read_at else group.first_read;
  last_read = if ltb group.last_read read_at then read_at else group.last_read;
  read_count = group.read_count + 1;
  peak_rssi = stronger group.peak_rssi rssi;
  last_touched = monotonic_now;
}

pub record Observation : Type 0 where
  pub tid : String
  pub portal : String
  pub first_read : ℕ
  pub last_read : ℕ
  pub read_count : ℕ
  pub peak_rssi : Option ℤ

unfoldable pub start_group :
    (tid portal : String) (read_at : ℕ) (rssi : Option ℤ) (monotonic_now : ℕ) → OpenGroup
start_group tid portal read_at rssi monotonic_now = record {
  tid = tid;
  portal = portal;
  first_read = read_at;
  last_read = read_at;
  read_count = 1;
  peak_rssi = rssi;
  last_touched = monotonic_now;
}

unfoldable pub starts_new_session : OpenGroup → (read_at quiet_period : ℕ) → Bool
starts_new_session group read_at quiet_period = ltb (group.last_read + quiet_period) read_at

unfoldable pub has_gone_quiet : OpenGroup → (monotonic_now quiet_period : ℕ) → Bool
has_gone_quiet group monotonic_now quiet_period =
    ltb (group.last_touched + quiet_period) monotonic_now

unfoldable pub to_observation : OpenGroup → Observation
to_observation group = record {
  tid = group.tid;
  portal = group.portal;
  first_read = group.first_read;
  last_read = group.last_read;
  read_count = group.read_count;
  peak_rssi = group.peak_rssi;
}

-- The two texts that `rejection_reason` returns, as the numbers in them.
pub data Rejection : Type 0 where
  too_few : (read_count min_read_count : ℕ) → Rejection
  too_weak : (peak_rssi rssi_floor_dbm : ℤ) → Rejection

abbrev pub below_floor : Option ℤ → ℤ → Option Rejection
below_floor none rssi_floor_dbm = none
below_floor (some peak) rssi_floor_dbm =
    if ltb_ℤ peak rssi_floor_dbm then some (too_weak peak rssi_floor_dbm) else none

unfoldable pub rejection_reason :
    Observation → (rssi_floor_dbm : ℤ) (min_read_count : ℕ) → Option Rejection
rejection_reason observation rssi_floor_dbm min_read_count =
    if ltb observation.read_count min_read_count
    then some (too_few observation.read_count min_read_count)
    else below_floor observation.peak_rssi rssi_floor_dbm
