-- ===== src/Debouncer/Commit/Cursor.antt =====
-- The cursor and the observations move together, and the cursor passes no read that was not taken.
use tasker_rfid.Prelude.{
  ℕ, zero, suc, ◌+◌, ◌≡◌, refl, sym, ap, ◌∙◌, String, Option, List, [], ◌∷◌, ◌++◌, nat_eq, take,
  map, All, false,
}
use mathlib.Core.List.{append_assoc, append-nil, map-append}
use tasker_rfid.Schema.{ObservationRow}
use tasker_rfid.Prelude.Pages
use tasker_rfid.Retry.{Fault, rolled_back, unacknowledged, with_retry}
use tasker_rfid.Debouncer.Grouping.{Observation}
use tasker_rfid.Debouncer.Service.{RawRead, Debouncer}
use tasker_rfid.Debouncer.Commit.{
  Tables, load_cursor, highest_id, commit_action, nothing_left, number_rows, observation_row,
}

-- The ids go up.
abbrev pub Rising : ℕ → List RawRead → Type 0
Rising = Pages.Rising (λ r. r.id)

-- The reads that the cursor has passed.
abbrev pub passed : ℕ → List RawRead → List RawRead
passed = Pages.passed (λ r. r.id)

abbrev pub ahead : ℕ → List RawRead → List RawRead
ahead = Pages.ahead (λ r. r.id)

-- If the ids of the reads go up, then moving the cursor to the last read of a batch passes exactly
-- the reads that it had passed before and those of the batch.
pub passed-fetched :
    (low c n : ℕ) (rs : List RawRead)
    → Rising low rs
    → passed (highest_id c (take n (ahead c rs))) rs ≡ passed c rs ++ take n (ahead c rs)
passed-fetched = Pages.passed-page (λ r. r.id)

abbrev pub IsRolledBack : Fault (Unit {0}) → Type 0
IsRolledBack (rolled_back _) = Unit
IsRolledBack (unacknowledged _) = ⊥

-- Attempts that are rolled back write nothing.
pub with_retry_once :
    (action : Tables → Tables) (faults : List (Fault (Unit {0}))) (t : Tables)
    → All IsRolledBack faults
    → with_retry nothing_left action faults t ≡ action t
unfolding with_retry
with_retry_once action [] t h = refl
with_retry_once action (rolled_back left ∷ faults) t h = with_retry_once action faults t h.1
with_retry_once action (unacknowledged left ∷ faults) t h = absurd h.0

-- The cursor that is stored is the one in memory.
abbrev pub IsSynced : Debouncer × Tables → Type 0
IsSynced (s, t) = load_cursor t ≡ s.cursor_id

pub with_retry-cursor :
    (resolved : List (Observation × Option String)) (c : ℕ) (faults : List (Fault (Unit {0})))
    (t : Tables)
    → load_cursor (with_retry nothing_left (commit_action resolved c) faults t) ≡ c
unfolding with_retry commit_action load_cursor
with_retry-cursor resolved c [] t = refl
with_retry-cursor resolved c (rolled_back left ∷ faults) t = with_retry-cursor resolved c faults t
with_retry-cursor resolved c (unacknowledged left ∷ faults) t =
    with_retry-cursor resolved c faults (commit_action resolved c t)

pub with_retry-reads_raw :
    (resolved : List (Observation × Option String)) (c : ℕ) (faults : List (Fault (Unit {0})))
    (t : Tables)
    → (with_retry nothing_left (commit_action resolved c) faults t).reads_raw ≡ t.reads_raw
unfolding with_retry commit_action
with_retry-reads_raw resolved c [] t = refl
with_retry-reads_raw resolved c (rolled_back left ∷ faults) t =
    with_retry-reads_raw resolved c faults t
with_retry-reads_raw resolved c (unacknowledged left ∷ faults) t =
    with_retry-reads_raw resolved c faults (commit_action resolved c t)

abbrev pub lost_answers : List (Fault (Unit {0})) → ℕ
lost_answers [] = 0
lost_answers (rolled_back _ ∷ faults) = lost_answers faults
lost_answers (unacknowledged _ ∷ faults) = suc (lost_answers faults)

-- A row of the observations table but for its key, and the row that an observation with its direction
-- should give: not yet processed.
abbrev pub unnumbered : ObservationRow → ObservationRow
unnumbered o = record o { id = 0 }

abbrev pub row_for : Observation × Option String → ObservationRow
row_for (o, direction) = record {
  id = 0;
  tid = o.tid;
  portal = o.portal;
  direction = direction;
  first_read = o.first_read;
  last_read = o.last_read;
  read_count = o.read_count;
  peak_rssi = o.peak_rssi;
  processed = false;
}

abbrev pub repeated {ℓ} : {A : Type ℓ} → ℕ → List A → List A
repeated zero xs = []
repeated (suc n) xs = xs ++ repeated n xs

unnumbered-number_rows :
    (n : ℕ) (xs : List (Observation × Option String))
    → map unnumbered (number_rows n xs) ≡ map row_for xs
unfolding number_rows observation_row
unnumbered-number_rows n [] = refl
unnumbered-number_rows n (x ∷ xs) =
    ap (λ (l : List ObservationRow). row_for x ∷ l) (unnumbered-number_rows (n + 1) xs)

-- One attempt that lands.
unnumbered-commit_action :
    (resolved : List (Observation × Option String)) (c : ℕ) (t : Tables)
    → map unnumbered (commit_action resolved c t).observations
      ≡ map unnumbered t.observations ++ map row_for resolved
unfolding commit_action
unnumbered-commit_action resolved c t =
    map-append unnumbered t.observations (number_rows t.next_id resolved)
    ∙ ap (λ (l : List ObservationRow). map unnumbered t.observations ++ l)
        (unnumbered-number_rows t.next_id resolved)

-- What a batch that is committed leaves, if `lost` answers were lost on the way.
pub record Copied (resolved : List (Observation × Option String)) (c lost : ℕ)
    (before after : Tables) : Type 0 where
  pub rows :
      map unnumbered after.observations
      ≡ map unnumbered before.observations ++ repeated (suc lost) (map row_for resolved)
  pub cursor : load_cursor after ≡ c
  pub reads : after.reads_raw ≡ before.reads_raw

copies :
    (resolved : List (Observation × Option String)) (c : ℕ) (faults : List (Fault (Unit {0})))
    (t : Tables)
    → map unnumbered (with_retry nothing_left (commit_action resolved c) faults t).observations
      ≡ map unnumbered t.observations ++ repeated (suc (lost_answers faults)) (map row_for resolved)
unfolding with_retry
copies resolved c [] t =
    unnumbered-commit_action resolved c t
    ∙ ap (λ (l : List ObservationRow). map unnumbered t.observations ++ l)
        (sym (append-nil (map row_for resolved)))
copies resolved c (rolled_back left ∷ faults) t = copies resolved c faults t
copies resolved c (unacknowledged left ∷ faults) t =
    copies resolved c faults (commit_action resolved c t)
    ∙ ap
        (λ (l : List ObservationRow).
          l ++ repeated (suc (lost_answers faults)) (map row_for resolved))
        (unnumbered-commit_action resolved c t)
    ∙ append_assoc (map unnumbered t.observations) _ _

-- However the attempts to commit a batch fail, in the end the cursor is the batch's and the raw reads
-- are as they were; the observations that were there are still there, and after them stands, row by
-- row with its tag, portal, direction, times, count and signal and not yet processed, the batch: once,
-- and once more for each attempt whose commit landed while its answer was lost.
pub commit_copies :
    (resolved : List (Observation × Option String)) (c : ℕ) (faults : List (Fault (Unit {0})))
    (t : Tables)
    → Copied resolved c
        (lost_answers faults)
        t
        (with_retry nothing_left (commit_action resolved c) faults t)
commit_copies resolved c faults t = record {
  rows = copies resolved c faults t;
  cursor = with_retry-cursor resolved c faults t;
  reads = with_retry-reads_raw resolved c faults t;
}
