-- ===== src/Api/Health/Examples.antt =====
-- A reader on which the theorems about the health report are applied.
use tasker_rfid.Prelude.{
  ℕ, ◌≡◌, ◌≢◌, ◌↔◌, true, none, some, [], ◌∷◌, All, length, string_eq, ◌==◌, if◌then◌else◌,
}
use tasker_rfid.Api.Health.{
  HealthSection, load_health, Texts, within_working_hours, RawRead, health,
}
use tasker_rfid.Api.Health.Readers.{IsHeard, health-IsHeard}

abbrev section : HealthSection
section = record { no_read_alert_hours = none; working_hours = none; timezone = none }

abbrev texts : Texts
texts = record {
  split_dash = λ s. "08:00" ∷ "18:00" ∷ [];
  strip = λ s. s;
  fromisoformat = λ s. if s == "08:00" then some 28_800_000_000 else some 64_800_000_000;
  zone = λ s. none;
  utc = λ n. n;
}

abbrev read_at : ℕ → RawRead
read_at at = record { id = 1; reader_id = "READER-EXIT"; read_at = at; ingested_at = at }

health-IsHeard_example :
    ((health
        (λ a b. true)
        texts
        section
        43_200_000_000
        (read_at 40_000_000_000 ∷ [])
        []
        []
        []).status
      ≡ "ok")
    ↔ ((length (read_at 40_000_000_000 ∷ []) ≢ 0)
        × All
            (IsHeard 43_200_000_000
              (within_working_hours texts (load_health section) 43_200_000_000)
              (load_health section).no_read_alert_hours
              (read_at 40_000_000_000 ∷ []))
            (read_at 40_000_000_000 ∷ []))
health-IsHeard_example =
    health-IsHeard (λ a b. true) texts section 43_200_000_000 (read_at 40_000_000_000 ∷ []) [] [] []
