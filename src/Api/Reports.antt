-- ===== src/Api/Reports.antt =====
-- src/tasker_rfid/services/api/routers/reports.py and the totals of dispatch_sessions.py: what has
-- left the warehouse, and for whom. Dates are the ordinals of Python's `date`; what the clock and
-- the time zone of the database make of them are the fields of `Clock`.
pub mod Attribution
pub mod Totals
pub mod Period
use tasker_rfid.Prelude.{
  ℕ, ◌+◌, String, Bool, true, false, Option, none, some, List, [], ◌∷◌, map, select, flat_map,
  nat_eq, string_eq, pair_eq, holds, ◌==◌, if◌then◌else◌, ltb, leb, ◌&&◌, ◌||◌, not,
}
use tasker_rfid.Prelude.Dict.{Dict}
use tasker_rfid.Prelude.Sums.{group_sums, sort_by}
use tasker_rfid.Prelude.Results.{Result, ok, err, ◌>>=◌}
use tasker_rfid.Schema.{DispatchSession, Movement, Db}
use tasker_rfid.Seed.{Sku, Customer}
use tasker_rfid.StateEngine.Transitions.{dispatched}
use tasker_rfid.Api.{HttpException, Content}
use tasker_rfid.Api.Stock.{contents_of, sku_of, sku_rows}

-- From the first time on, and before the second.
abbrev pub within : ℕ × ℕ → ℕ → Bool
within (start, end) at = leb start at && ltb at end

-- WHERE m.to_status = 'DISPATCHED' AND m.occurred_at >= … AND m.occurred_at < …
abbrev pub departures : ℕ × ℕ → List Movement → List Movement
departures period = select (λ m. m.to_status == dispatched && within period m.occurred_at)

-- JOIN dispatch_sessions ds ON ds.session_id = m.session_id
abbrev pub sessions_of : Option ℕ → List DispatchSession → List DispatchSession
sessions_of session_id = select (λ ds. holds session_id ds.session_id)

-- JOIN customers cu ON cu.customer_id = ds.customer_id
abbrev pub customers_of : Option String → List Customer → List Customer
customers_of customer_id = select (λ cu. holds customer_id cu.customer_id)

-- The columns to group by, and the quantity.
abbrev pub Row : Type 0
Row = (String × String) × ℕ

-- ORDER BY cu.name, boxes DESC
abbrev pub listed_before : (String → String → Bool) → Row → Row → Bool
listed_before collates a b = if a.0.0 == b.0.0 then leb b.1 a.1 else collates a.0.0 b.0.0

module _ (contents : List Content) (skus : List Sku) where
  unfoldable pub content_rows : Customer → Content → List Row
  content_rows cu cc = map (λ s. ((cu.name, s.name), cc.quantity)) (sku_of cc.sku_id skus)

  unfoldable pub customer_rows : Movement → Customer → List Row
  unfolding content_rows
  customer_rows m cu = flat_map (content_rows cu) (contents_of m.container_id contents)

  unfoldable pub session_rows : List Customer → Movement → DispatchSession → List Row
  unfolding customer_rows
  session_rows customers m ds = flat_map (customer_rows m) (customers_of ds.customer_id customers)

  unfoldable pub consumption_rows :
      ℕ × ℕ → List Movement → List DispatchSession → List Customer → List Row
  unfolding session_rows
  consumption_rows period movements sessions customers =
      flat_map (λ m. flat_map (session_rows customers m) (sessions_of m.session_id sessions))
        (departures period movements)

  -- CONSUMPTION_SQL
  unfoldable pub consumption_lines :
      (collates : String → String → Bool)
      → ℕ × ℕ
      → List Movement
      → List DispatchSession
      → List Customer
      → Dict (String × String) ℕ
  unfolding consumption_rows
  consumption_lines collates period movements sessions customers =
      sort_by (listed_before collates)
        (group_sums (consumption_rows period movements sessions customers))

  unfoldable pub total_rows : Movement → List Row
  unfolding sku_rows
  total_rows m = flat_map (sku_rows skus) (contents_of m.container_id contents)

  -- totals_by_sku of _detail
  unfoldable pub totals_by_sku :
      (collates : String → String → Bool)
      → (session_id : ℕ) → List Movement
      → Dict (String × String) ℕ
  unfolding total_rows
  totals_by_sku collates session_id movements =
      sort_by (λ a b. collates a.0.1 b.0.1)
        (group_sums (
          flat_map total_rows
            (select (λ m. holds m.session_id session_id && m.to_status == dispatched) movements)))

pub record Clock : Type 0 where
  pub today : ℕ
  -- now() - make_interval(days => …)
  pub days_ago : ℕ → ℕ
  -- now() + INTERVAL '1 day'
  pub in_a_day : ℕ
  -- The time at which a date begins.
  pub midnight : ℕ → ℕ

-- date.min and date.max
abbrev pub first_day : ℕ
first_day = 1

abbrev pub last_day : ℕ
last_day = 3_652_059

abbrev pub or_else : ℕ → Option ℕ → ℕ
or_else default none = default
or_else default (some n) = n

abbrev pub both_none : Option ℕ → Option ℕ → Bool
both_none none none = true
both_none _ _ = false

-- The period of a request. The day after date.max is no date: `fromordinal` raises, which is a
-- server error.
unfoldable pub period :
    Clock → (days : ℕ) → (from_date to_date : Option ℕ) → Result HttpException (ℕ × ℕ)
period clock days from_date to_date =
    let start = or_else first_day from_date in
    let end = or_else clock.today to_date in
    if both_none from_date to_date
    then ok (clock.days_ago days, clock.in_a_day)
    else if ltb end start
    then err (record { status_code = 422 })
    else if leb last_day end
    then err (record { status_code = 500 })
    else ok (clock.midnight start, clock.midnight (end + 1))

unfoldable pub consumption :
    (collates : String → String → Bool)
    → Clock
    → (days : ℕ) → (from_date to_date : Option ℕ) → Db
    → List Content
    → List Sku
    → List Customer
    → Result HttpException (Dict (String × String) ℕ)
unfolding period consumption_lines
consumption collates clock days from_date to_date db contents skus customers = do
  between ← period clock days from_date to_date
  ok (consumption_lines contents skus collates between db.movements db.dispatch_sessions customers)
