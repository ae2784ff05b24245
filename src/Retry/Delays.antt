-- ===== src/Retry/Delays.antt =====
-- The waits between the attempts of with_retry.
use tasker_rfid.Prelude.{ℕ, zero, suc, ◌*◌, ◌≤◌, ◌≡◌, refl, arith}
use tasker_rfid.Retry.{delay, db_retry_initial, db_retry_max}

-- Each wait is at least the one before, at most twice it, and between one second and thirty.
pub delay-bounds :
    (n : ℕ)
    → (delay n ≤ delay (suc n))
      × (delay (suc n) ≤ delay n * 2)
      × (db_retry_initial ≤ delay n)
      × (delay n ≤ db_retry_max)
unfolding delay
delay-bounds zero = ground arith
delay-bounds (suc n) = ground (arith, delay-bounds n)

-- From the sixth failure on, the wait is thirty seconds.
pub delay_settles : (n : ℕ) → delay (suc (suc (suc (suc (suc n))))) ≡ db_retry_max
unfolding delay
delay_settles zero = refl
delay_settles (suc n) = ground (arith, delay_settles n)
