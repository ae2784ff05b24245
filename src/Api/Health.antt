-- ===== src/Api/Health.antt =====
-- src/tasker_rfid/services/api/routers/health.py, and the health section of config.py. Times are
-- microseconds and are compared as such, where the source divides them into floating minutes. The
-- settings file, `str.split`, `str.strip`, `time.fromisoformat` and `ZoneInfo` are parameters.
pub mod Readers
pub mod Backlog
mod Examples
use tasker_rfid.Prelude.{
  ℕ, ◌+◌, ◌-◌, ◌*◌, String, Bool, true, false, not, ◌&&◌, Option, none, some, List, [], ◌∷◌, ◌++◌,
  map, select, flat_map, length, string_eq, nat_eq, ◌==◌, ltb, leb, if◌then◌else◌,
}
use tasker_rfid.Prelude.Int.{ℤ, pos, negsuc, ltb_ℤ}
use tasker_rfid.Prelude.Sums.{sort_by}
use tasker_rfid.Schema.{ObservationRow}
use tasker_rfid.StateEngine.Store.{distinct}

abbrev pub minute : ℕ
minute = 60_000_000

abbrev pub day : ℕ
day = 24 * 60 * minute

-- `health:` of the settings file, where a key may be missing, and the class `Health`.
pub record HealthSection : Type 0 where
  pub no_read_alert_hours : Option ℕ
  pub working_hours : Option String
  pub timezone : Option String

pub record Health : Type 0 where
  pub no_read_alert_hours : ℕ
  pub working_hours : String
  pub timezone : String

abbrev pub or_default {ℓ} : {A : Type ℓ} → A → Option A → A
or_default d none = d
or_default d (some x) = x

unfoldable pub load_health : HealthSection → Health
load_health section = record {
  no_read_alert_hours = or_default 4 section.no_read_alert_hours;
  working_hours = or_default "08:00-18:00" section.working_hours;
  timezone = or_default "America/Argentina/Buenos_Aires" section.timezone;
}

-- `zone` gives the time of day, and nothing for a zone that is not known.
pub record Texts : Type 0 where
  pub split_dash : String → List String
  pub strip : String → String
  pub fromisoformat : String → Option ℕ
  pub zone : String → Option (ℕ → ℕ)
  pub utc : ℕ → ℕ

abbrev pub default_hours : ℕ × ℕ
default_hours = (8 * 60 * minute, 18 * 60 * minute)

-- The two times, unless one of them is no time.
abbrev pub both_or_default : Option ℕ → Option ℕ → ℕ × ℕ
both_or_default (some opens) (some closes) = (opens, closes)
both_or_default (some opens) none = default_hours
both_or_default none closes = default_hours

-- There have to be two parts.
unfoldable pub hours_of : Texts → List String → ℕ × ℕ
hours_of texts [] = default_hours
hours_of texts (a ∷ []) = default_hours
hours_of texts (a ∷ b ∷ []) =
    both_or_default (texts.fromisoformat (texts.strip a)) (texts.fromisoformat (texts.strip b))
hours_of texts (a ∷ b ∷ c ∷ rest) = default_hours

unfoldable pub working_hours_range : Texts → Health → ℕ × ℕ
unfolding hours_of
working_hours_range texts settings = hours_of texts (texts.split_dash settings.working_hours)

-- The time of day in the zone of the settings, or in UTC.
unfoldable pub local_time : Texts → Health → ℕ → ℕ
local_time texts settings now = elim (texts.zone settings.timezone) [
  | none ↦ texts.utc now
  | some at ↦ at now
]

unfoldable pub within_working_hours : Texts → Health → ℕ → Bool
unfolding working_hours_range local_time
within_working_hours texts settings now =
    let (opens, closes) = working_hours_range texts settings in
    leb opens (local_time texts settings now) && leb (local_time texts settings now) closes

-- A clock may run behind the last read.
unfoldable pub minus : ℕ → ℕ → ℤ
minus a b = if leb b a then pos (a - b) else negsuc (b - a - 1)

unfoldable pub reader_has_gone_quiet :
    (since_last_read : Option ℤ) (within_working_hours : Bool) (no_read_alert_hours : ℕ) → Bool
reader_has_gone_quiet none within_working_hours no_read_alert_hours = false
reader_has_gone_quiet (some since) within_working_hours no_read_alert_hours =
    if not within_working_hours
    then false
    else ltb_ℤ (pos (no_read_alert_hours * (60 * minute))) since

-- A row of reads_raw, and the columns that are looked at.
pub record RawRead : Type 0 where
  pub id : ℕ
  pub reader_id : String
  pub read_at : ℕ
  pub ingested_at : ℕ

-- max(read_at)
unfoldable pub max_of : List ℕ → Option ℕ
max_of [] = none
max_of (n ∷ ns) = elim (max_of ns) [ none ↦ some n | some m ↦ some (if ltb m n then n else m) ]

abbrev pub reads_of : String → List RawRead → List RawRead
reads_of reader_id = select (λ r. r.reader_id == reader_id)

-- A row of READERS_SQL.
pub record ReaderRow : Type 0 where
  pub reader_id : String
  pub last_read_at : Option ℕ
  pub reads_today : ℕ

unfoldable pub reader_row : (now : ℕ) → List RawRead → String → ReaderRow
unfolding max_of
reader_row now reads reader_id = record {
  reader_id = reader_id;
  last_read_at = max_of (map (λ r. r.read_at) (reads_of reader_id reads));
  reads_today = length (select (λ r. ltb now (r.ingested_at + day)) (reads_of reader_id reads));
}

-- READERS_SQL: GROUP BY reader_id ORDER BY reader_id
unfoldable pub reader_rows :
    (collates : String → String → Bool) → (now : ℕ) → List RawRead → List ReaderRow
unfolding reader_row distinct
reader_rows collates now reads =
    map (reader_row now reads) (sort_by collates (distinct (map (λ r. r.reader_id) reads)))

pub record ReaderHealth : Type 0 where
  pub reader_id : String
  pub last_read_at : Option ℕ
  pub since_last_read : Option ℤ
  pub reads_today : ℕ
  pub healthy : Bool

pub data Warning : Type 0 where
  has_not_reported : String → Warning
  no_reader : Warning

unfoldable pub since_last : ℕ → ReaderRow → Option ℤ
unfolding minus
since_last now row = elim row.last_read_at [ none ↦ none | some last ↦ some (minus now last) ]

unfoldable pub is_quiet : (now : ℕ) (within_hours : Bool) (alert_hours : ℕ) → ReaderRow → Bool
unfolding since_last reader_has_gone_quiet
is_quiet now within_hours alert_hours row =
    reader_has_gone_quiet (since_last now row) within_hours alert_hours

unfoldable pub reader_health :
    (now : ℕ) (within_hours : Bool) (alert_hours : ℕ) → ReaderRow → ReaderHealth
unfolding is_quiet since_last
reader_health now within_hours alert_hours row = record {
  reader_id = row.reader_id;
  last_read_at = row.last_read_at;
  since_last_read = since_last now row;
  reads_today = row.reads_today;
  healthy = not (is_quiet now within_hours alert_hours row);
}

unfoldable pub reader_warnings :
    (now : ℕ) (within_hours : Bool) (alert_hours : ℕ) → List ReaderRow → List Warning
unfolding is_quiet
reader_warnings now within_hours alert_hours = flat_map (λ row.
    if is_quiet now within_hours alert_hours row then has_not_reported row.reader_id ∷ [] else [])

-- `if not readers`
abbrev pub missing_reader : List ReaderRow → List Warning
missing_reader [] = no_reader ∷ []
missing_reader (_ ∷ _) = []

abbrev pub or_zero : Option ℕ → ℕ
or_zero none = 0
or_zero (some n) = n

pub record QueueDepth : Type 0 where
  pub reads_awaiting_debounce : ℤ
  pub observations_awaiting_state_engine : ℕ

-- QUEUE_SQL, on the ids of the reads and the cursors of the debouncer.
unfoldable pub queue_depth : List RawRead → (cursors : List ℕ) → List ObservationRow → QueueDepth
unfolding max_of minus
queue_depth reads cursors observations = record {
  reads_awaiting_debounce =
      minus (or_zero (max_of (map (λ r. r.id) reads))) (or_zero (max_of cursors));
  observations_awaiting_state_engine = length (select (λ o. not o.processed) observations);
}

pub record HealthReport : Type 0 where
  pub status : String
  pub within_working_hours : Bool
  pub no_read_alert_hours : ℕ
  pub readers : List ReaderHealth
  pub queue_depth : QueueDepth
  pub unresolved_anomalies : ℕ
  pub warnings : List Warning

abbrev pub status_of : List Warning → String
status_of [] = "ok"
status_of (_ ∷ _) = "degraded"

-- `resolved` are the flags of the anomalies.
unfoldable pub health :
    (collates : String → String → Bool)
    → Texts
    → HealthSection
    → (now : ℕ) → List RawRead
    → (cursors : List ℕ) → List ObservationRow
    → (resolved : List Bool) → HealthReport
unfolding load_health within_working_hours reader_rows reader_warnings reader_health queue_depth
health collates texts section now reads cursors observations resolved =
    let settings = load_health section in
    let within_hours = within_working_hours texts settings now in
    let rows = reader_rows collates now reads in
    let warnings =
      reader_warnings now within_hours settings.no_read_alert_hours rows ++ missing_reader rows in
    record {
      status = status_of warnings;
      within_working_hours = within_hours;
      no_read_alert_hours = settings.no_read_alert_hours;
      readers = map (reader_health now within_hours settings.no_read_alert_hours) rows;
      queue_depth = queue_depth reads cursors observations;
      unresolved_anomalies = length (select not resolved);
      warnings = warnings;
    }
