-- ===== src/Api/Counts/Variance.antt =====
-- What closing a count reports, records and leaves alone.
use mathlib.Core.List.{Mem, mem-append_left, mem-append_right, mem-map_of_mem}
use tasker_rfid.Prelude.{
  ℕ, ◌+◌, ◌≡◌, refl, ap, ◌∙◌, subst, String, Bool, true, false, not, Option, none, some, List, [],
  ◌∷◌, ◌++◌, map, select, elem, length, length-append, length-map, nat_eq, string_eq, ◌==◌,
  if◌then◌else◌, arith, eq_iff, nat_beq_iff,
}
use mathlib.Core.Option
use tasker_rfid.Prelude.Members.{mem-select_of_mem}
use tasker_rfid.Prelude.Results.{Result, ok, err, ◌>>=◌, >>=-eq-ok, ok-injective, if-eq-ok}
use tasker_rfid.Schema.{Container}
use tasker_rfid.StateEngine.Store.{first, is_null}
use tasker_rfid.Api.{HttpException, CycleCount, CycleCountItem, Tables}
use tasker_rfid.Api.Counts.{
  require_open_count, is_item, found_item, found_in, scan, expected, scanned_tids, missing,
  unexpected_tids, missing_anomaly, unexpected_anomaly, finished, VarianceReport, close_count,
}

-- Those that pass a test and those that do not make up all.
length-select_split :
    {A : Type 0} (p : A → Bool) (xs : List A)
    → length (select p xs) + length (select (λ x. not (p x)) xs) ≡ length xs
length-select_split p [] = refl
length-select_split p (x ∷ xs) = ground (arith, length-select_split p xs)

module _ (cycle_id now : ℕ) (t : Tables) where
  pub record IsReported (r : VarianceReport × Tables) : Type 0 where
    pub split : r.0.found + length r.0.missing ≡ r.0.expected
    pub raised : length r.1.db.anomalies ≡ length t.db.anomalies + r.0.anomalies_raised
    pub lost :
        (c : Container)
        → Mem c (expected t)
        → elem c.tid (scanned_tids cycle_id t) ≡ false
        → Mem (missing_anomaly cycle_id now c) r.1.db.anomalies
    pub strange :
        (tid : String)
        → Mem tid (scanned_tids cycle_id t)
        → elem tid (map (λ c. c.tid) (expected t)) ≡ false
        → Mem (unexpected_anomaly cycle_id now t tid) r.1.db.anomalies
    pub containers : r.1.db.containers ≡ t.db.containers
    pub movements : r.1.db.movements ≡ t.db.movements

  -- If a count is closed, then what it has found and what it misses make up what was expected; every
  -- container that is in stock and was not scanned, and every scanned tag that is not in stock, has
  -- its anomaly, and as many were raised as the report says; and no container and no movement changes.
  pub close_count-IsReported :
      (r : VarianceReport × Tables) → close_count cycle_id now t ≡ ok r → IsReported r
  unfolding close_count missing unexpected_tids
  close_count-IsReported r e =
      let (_, _, e') = >>=-eq-ok (require_open_count cycle_id t) _ e in
      subst IsReported (ok-injective e') (record {
        split = length-select_split (λ c. elem c.tid (scanned_tids cycle_id t)) (expected t);
        raised = omega (
          arith,
          length-append (t.db.anomalies ++ map (missing_anomaly cycle_id now) (missing cycle_id t))
              (map (unexpected_anomaly cycle_id now t) (unexpected_tids cycle_id t)),
          length-append t.db.anomalies (map (missing_anomaly cycle_id now) (missing cycle_id t)),
          length-map (missing_anomaly cycle_id now) (missing cycle_id t),
          length-map (unexpected_anomaly cycle_id now t) (unexpected_tids cycle_id t),
        );
        lost = λ c m h. mem-append_left _ (
            mem-append_right _ (
              mem-map_of_mem (missing_anomaly cycle_id now) (
                mem-select_of_mem (λ c. not (elem c.tid (scanned_tids cycle_id t))) c (expected t) m
                  (ap not h))));
        strange = λ tid m h. mem-append_right _ (
            mem-map_of_mem (unexpected_anomaly cycle_id now t) (
              mem-select_of_mem (λ tid. not (elem tid (map (λ c. c.tid) (expected t)))) tid
                (scanned_tids cycle_id t) m (ap not h)));
        containers = refl;
        movements = refl;
      })

-- The count that is looked up after it has been closed is finished.
closed_row :
    (cycle_id now : ℕ) (counts : List CycleCount) (count : CycleCount)
    → first (select (λ c. c.cycle_id == cycle_id) counts) ≡ some count
    → first (select (λ c. c.cycle_id == cycle_id) (map (finished cycle_id now) counts))
      ≡ some (record count { finished_at = some now })
closed_row cycle_id now [] count e = cc
closed_row cycle_id now (x ∷ xs) count e =
    step (x.cycle_id == cycle_id) refl _ _ e (closed_row cycle_id now xs count)
  where
    step :
        (b : Bool)
        → (x.cycle_id == cycle_id) ≡ b
        → (l l' : List CycleCount) → first (if b then x ∷ l else l) ≡ some count
        → (first l ≡ some count → first l' ≡ some (record count { finished_at = some now }))
        → first (
            if (if b then record x { finished_at = some now } else x).cycle_id == cycle_id
            then (if b then record x { finished_at = some now } else x) ∷ l'
            else l')
          ≡ some (record count { finished_at = some now })
    step true h l l' e later =
        rw h (ap (Option.map (λ (c : CycleCount). record c { finished_at = some now })) e)
    step false h l l' e later = rw h (later e)

open_row :
    (cycle_id : ℕ) (t : Tables) (count : CycleCount)
    → require_open_count cycle_id t ≡ ok count
    → first (select (λ c. c.cycle_id == cycle_id) t.cycle_counts) ≡ some count
unfolding require_open_count
open_row cycle_id t count e = go (first (select (λ c. c.cycle_id == cycle_id) t.cycle_counts)) e
  where
    go :
        (o : Option CycleCount)
        → (elim o as (λ _. Result HttpException CycleCount) [
          | none ↦ err (record { status_code = 404 })
          | some c ↦ if is_null c.finished_at then ok c else err (record { status_code = 409 })
        ])
          ≡ ok count
        → o ≡ some count
    go none e = cc
    go (some c) e = ap some ((if-eq-ok (is_null c.finished_at) (record { status_code = 409 }) e).1)

-- After that, the count is refused.
refused :
    (cycle_id now : ℕ) (t : Tables) (r : VarianceReport × Tables)
    → close_count cycle_id now t ≡ ok r
    → require_open_count cycle_id r.1 ≡ err (record { status_code = 409 })
unfolding close_count require_open_count
refused cycle_id now t r e =
    let (count, opened, e') = >>=-eq-ok (require_open_count cycle_id t) _ e in
    subst
      (λ (r : VarianceReport × Tables).
        require_open_count cycle_id r.1 ≡ err (record { status_code = 409 }))
      (ok-injective e')
      (ap
        (λ o. elim o as (λ _. Result HttpException CycleCount) [
          | none ↦ err (record { status_code = 404 })
          | some c ↦ if is_null c.finished_at then ok c else err (record { status_code = 409 })
        ])
        (closed_row cycle_id now t.cycle_counts count (open_row cycle_id t count opened)))

-- A count that has been closed takes no more scans, and is not closed again.
pub close_count_once :
    (cycle_id now later : ℕ) (tid : String) (t : Tables) (r : VarianceReport × Tables)
    → close_count cycle_id now t ≡ ok r
    → (scan cycle_id tid r.1 ≡ err (record { status_code = 409 }))
      × (close_count cycle_id later r.1 ≡ err (record { status_code = 409 }))
unfolding close_count scan require_open_count
close_count_once cycle_id now later tid t r e =
    let k = refused cycle_id now t r e in (rw (scan, k), rw (close_count, k))

found_item_again :
    (cycle_id : ℕ) (tid : String) (items : List CycleCountItem)
    → found_item cycle_id tid (found_item cycle_id tid items) ≡ found_item cycle_id tid items
unfolding found_item
found_item_again cycle_id tid [] =
    ground (arith, (eq_iff tid tid).1 refl, (nat_beq_iff cycle_id cycle_id).1 refl)
found_item_again cycle_id tid (i ∷ items) =
    step (is_item cycle_id tid i) refl (found_item_again cycle_id tid items)
  where
    step :
        (b : Bool)
        → is_item cycle_id tid i ≡ b
        → found_item cycle_id tid (found_item cycle_id tid items) ≡ found_item cycle_id tid items
        → found_item cycle_id tid
            (if b then record i { found = true } ∷ items else i ∷ found_item cycle_id tid items)
          ≡ (if b then record i { found = true } ∷ items else i ∷ found_item cycle_id tid items)
    step true h e = rw h
    step false h e = rw h (ap (λ (l : List CycleCountItem). i ∷ l) e)

-- Scanning a tag again into the same count changes nothing and counts the same.
pub scan_again :
    (cycle_id : ℕ) (tid : String) (t : Tables) (r : ℕ × Tables)
    → scan cycle_id tid t ≡ ok r
    → scan cycle_id tid r.1 ≡ ok r
unfolding scan require_open_count
scan_again cycle_id tid t r e =
    let (count, opened, e') = >>=-eq-ok (require_open_count cycle_id t) _ e in
    subst (λ (r : ℕ × Tables). scan cycle_id tid r.1 ≡ ok r) (ok-injective e') (again count opened)
  where
    -- The tables after a scan, by their items.
    with_items : List CycleCountItem → Tables
    with_items items = record t { cycle_count_items = items }

    again :
        (count : CycleCount)
        → require_open_count cycle_id t ≡ ok count
        → scan cycle_id tid (with_items (found_item cycle_id tid t.cycle_count_items))
          ≡ ok (
            length (found_in cycle_id (with_items (found_item cycle_id tid t.cycle_count_items))),
            with_items (found_item cycle_id tid t.cycle_count_items),
          )
    again count opened =
        ap
          (λ (q : Result HttpException CycleCount). q >>= λ _. ok (
            length (
                found_in cycle_id (
                  with_items
                    (found_item cycle_id tid (found_item cycle_id tid t.cycle_count_items)))),
            with_items (found_item cycle_id tid (found_item cycle_id tid t.cycle_count_items)),
          ))
          opened
        ∙ ap (λ items. ok (length (found_in cycle_id (with_items items)), with_items items))
            (found_item_again cycle_id tid t.cycle_count_items)
