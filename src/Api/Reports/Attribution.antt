-- ===== src/Api/Reports/Attribution.antt =====
-- The consumption report against the sessions of a customer.
use tasker_rfid.Prelude.{
  ℕ, ◌≤◌, ◌≡◌, sym, ap, eq_iff, ◌∙◌, String, Bool, Option, none, some, List, arith, flat_map,
  nat_eq, string_eq, pair_eq, holds, ◌==◌, ◌&&◌,
}
use tasker_rfid.Prelude.Sums.{
  total, total_congr, total-select, total-map, total-flat_map, total-only_if, total_comm, only_if,
  total-zero, IsNamed, named_once, group_sums, group_sums-sum_where, sort_by-total, sum_where,
  times, group_sums-times,
}
use tasker_rfid.Schema.{DispatchSession, Movement}
use tasker_rfid.Seed.{Sku, Customer}
use tasker_rfid.StateEngine.Transitions.{dispatched}
use tasker_rfid.Api.{Content}
use tasker_rfid.Api.Stock.{contents_of, sku_of}
use tasker_rfid.Api.Stock.Counting.{boxes_in}
use tasker_rfid.Api.Reports.{
  within, departures, sessions_of, customers_of, content_rows, customer_rows, session_rows,
  consumption_rows, listed_before, consumption_lines,
}

abbrev pub names : String → String → String × String → Bool
names customer sku key = key.0 == customer && key.1 == sku

abbrev pub IsCustomer : (customer customer_id : String) → List Customer → Type 0
IsCustomer = IsNamed (λ cu. cu.customer_id) (λ cu. cu.name)

abbrev pub IsSku : (sku sku_id : String) → List Sku → Type 0
IsSku = IsNamed (λ s. s.sku_id) (λ s. s.name)

-- The boxes of a SKU that went out in a session, within a period.
abbrev pub went_out : String → List Content → ℕ × ℕ → List Movement → ℕ → ℕ
went_out sku_id contents period movements session_id =
    total
      (λ m.
        only_if (m.to_status == dispatched && within period m.occurred_at)
          (only_if (holds m.session_id session_id) (boxes_in sku_id contents m.container_id)))
      movements

-- What went out in all the sessions of a customer.
abbrev pub taken :
    (customer_id sku_id : String) → List Content → ℕ × ℕ → List Movement → List DispatchSession → ℕ
taken customer_id sku_id contents period movements sessions =
    total
      (λ ds.
        only_if (holds ds.customer_id customer_id)
          (went_out sku_id contents period movements ds.session_id))
      sessions

module _ (contents : List Content) (skus : List Sku) (customer sku sku_id : String)
    (known : IsSku sku sku_id skus) where
  content_rows-boxes :
      (cu : Customer) (cc : Content)
      → sum_where (names customer sku) (content_rows contents skus cu cc)
        ≡ only_if (cu.name == customer) (only_if (cc.sku_id == sku_id) cc.quantity)
  unfolding content_rows
  content_rows-boxes cu cc =
      total-map (λ r. only_if (names customer sku r.0) r.1) (λ s. ((cu.name, s.name), cc.quantity))
        (sku_of cc.sku_id skus)
      ∙ total-select (λ s. only_if (names customer sku (cu.name, s.name)) cc.quantity)
          (λ s. s.sku_id == cc.sku_id) skus
      ∙ total_congr _
          (λ s.
            only_if (cu.name == customer)
              (only_if (s.sku_id == cc.sku_id) (only_if (s.name == sku) cc.quantity)))
          skus (λ s. ground arith)
      ∙ total-only_if (cu.name == customer)
          (λ s. only_if (s.sku_id == cc.sku_id) (only_if (s.name == sku) cc.quantity)) skus
      ∙ ap (only_if (cu.name == customer))
          (named_once (λ s. s.sku_id) (λ s. s.name) sku sku_id cc.sku_id cc.quantity skus known)

  customer_rows-boxes :
      (m : Movement) (cu : Customer)
      → sum_where (names customer sku) (customer_rows contents skus m cu)
        ≡ only_if (cu.name == customer) (boxes_in sku_id contents m.container_id)
  unfolding customer_rows
  customer_rows-boxes m cu =
      total-flat_map (λ r. only_if (names customer sku r.0) r.1) (content_rows contents skus cu)
        (contents_of m.container_id contents)
      ∙ total_congr _
          (λ cc. only_if (cu.name == customer) (only_if (cc.sku_id == sku_id) cc.quantity)) _
          (content_rows-boxes cu)
      ∙ total-only_if (cu.name == customer) (λ cc. only_if (cc.sku_id == sku_id) cc.quantity) _
      ∙ ap (only_if (cu.name == customer)) (
          total-select (λ cc. only_if (cc.sku_id == sku_id) cc.quantity)
            (λ cc. cc.container_id == m.container_id) contents)

module _ (customer customer_id : String) (q : ℕ) (customers : List Customer)
    (known : IsCustomer customer customer_id customers) where
  -- A session is joined with its customer once, and with nobody if it has none.
  joined_customer :
      (whose : Option String)
      → total
          (λ cu. only_if (holds whose cu.customer_id) (only_if (cu.name == customer) q))
          customers
        ≡ only_if (holds whose customer_id) q
  joined_customer none = total-zero customers
  joined_customer (some other) =
      total_congr _ (λ cu. only_if (cu.customer_id == other) (only_if (cu.name == customer) q))
        customers (λ cu. ground (arith, eq_iff other cu.customer_id, eq_iff cu.customer_id other))
      ∙ named_once (λ cu. cu.customer_id) (λ cu. cu.name) customer customer_id other q customers
          known

module _ (contents : List Content) (skus : List Sku) (customers : List Customer)
    (customer customer_id sku sku_id : String) (known_sku : IsSku sku sku_id skus)
    (known : IsCustomer customer customer_id customers) where
  session_rows-boxes :
      (m : Movement) (ds : DispatchSession)
      → sum_where (names customer sku) (session_rows contents skus customers m ds)
        ≡ only_if (holds ds.customer_id customer_id) (boxes_in sku_id contents m.container_id)
  unfolding session_rows
  session_rows-boxes m ds =
      total-flat_map (λ r. only_if (names customer sku r.0) r.1) (customer_rows contents skus m)
        (customers_of ds.customer_id customers)
      ∙ total_congr _
          (λ cu. only_if (cu.name == customer) (boxes_in sku_id contents m.container_id)) _
          (customer_rows-boxes contents skus customer sku sku_id known_sku m)
      ∙ total-select (λ cu. only_if (cu.name == customer) (boxes_in sku_id contents m.container_id))
          (λ cu. holds ds.customer_id cu.customer_id) customers
      ∙ joined_customer customer customer_id (boxes_in sku_id contents m.container_id) customers
          known ds.customer_id

  abbrev attributed : List DispatchSession → Movement → ℕ
  attributed sessions m =
      total
        (λ ds.
          only_if (holds m.session_id ds.session_id)
            (only_if (holds ds.customer_id customer_id) (boxes_in sku_id contents m.container_id)))
        sessions

  movement_rows-boxes :
      (sessions : List DispatchSession) (m : Movement)
      → sum_where
          (names customer sku)
          (flat_map (session_rows contents skus customers m) (sessions_of m.session_id sessions))
        ≡ attributed sessions m
  movement_rows-boxes sessions m =
      total-flat_map (λ r. only_if (names customer sku r.0) r.1)
        (session_rows contents skus customers m) (sessions_of m.session_id sessions)
      ∙ total_congr _
          (λ ds.
            only_if (holds ds.customer_id customer_id) (boxes_in sku_id contents m.container_id))
          _ (session_rows-boxes m)
      ∙ total-select
          (λ ds.
            only_if (holds ds.customer_id customer_id) (boxes_in sku_id contents m.container_id))
          (λ ds. holds m.session_id ds.session_id) sessions

  abbrev counted : ℕ × ℕ → Movement → DispatchSession → ℕ
  counted period m ds = only_if (holds ds.customer_id customer_id) (
      only_if (m.to_status == dispatched && within period m.occurred_at)
        (only_if (holds m.session_id ds.session_id) (boxes_in sku_id contents m.container_id)))

  -- One movement, over the sessions.
  counted-attributed :
      (period : ℕ × ℕ) (sessions : List DispatchSession) (m : Movement)
      → only_if (m.to_status == dispatched && within period m.occurred_at) (attributed sessions m)
        ≡ total (counted period m) sessions
  counted-attributed period sessions m =
      sym (
        total-only_if (m.to_status == dispatched && within period m.occurred_at)
          (λ ds.
            only_if (holds m.session_id ds.session_id) (
              only_if (holds ds.customer_id customer_id) (boxes_in sku_id contents m.container_id)))
          sessions)
      ∙ total_congr _ (counted period m) sessions (λ ds. ground arith)

  -- One session, over the movements.
  counted-went_out :
      (period : ℕ × ℕ) (movements : List Movement) (ds : DispatchSession)
      → total (λ m. counted period m ds) movements
        ≡ only_if
            (holds ds.customer_id customer_id)
            (went_out sku_id contents period movements ds.session_id)
  counted-went_out period movements ds =
      total-only_if (holds ds.customer_id customer_id)
        (λ m.
          only_if (m.to_status == dispatched && within period m.occurred_at)
            (only_if (holds m.session_id ds.session_id) (boxes_in sku_id contents m.container_id)))
        movements

  consumption_rows-taken :
      (period : ℕ × ℕ) (movements : List Movement) (sessions : List DispatchSession)
      → sum_where
          (names customer sku)
          (consumption_rows contents skus period movements sessions customers)
        ≡ taken customer_id sku_id contents period movements sessions
  unfolding consumption_rows
  consumption_rows-taken period movements sessions =
      total-flat_map (λ r. only_if (names customer sku r.0) r.1)
        (λ m. flat_map (session_rows contents skus customers m) (sessions_of m.session_id sessions))
        (departures period movements)
      ∙ total_congr _ (attributed sessions) _ (movement_rows-boxes sessions)
      ∙ total-select (attributed sessions)
          (λ m. m.to_status == dispatched && within period m.occurred_at) movements
      ∙ total_congr _ (λ m. total (counted period m) sessions) movements
          (counted-attributed period sessions)
      ∙ total_comm (counted period) movements sessions
      ∙ total_congr _ _ sessions (counted-went_out period movements)

  lines_sum :
      (collates : String → String → Bool) (period : ℕ × ℕ) (movements : List Movement)
      (sessions : List DispatchSession)
      → sum_where
          (names customer sku)
          (consumption_lines contents skus collates period movements sessions customers)
        ≡ taken customer_id sku_id contents period movements sessions
  unfolding consumption_lines
  lines_sum collates period movements sessions =
      sort_by-total (listed_before collates) (λ r. only_if (names customer sku r.0) r.1)
        (group_sums (consumption_rows contents skus period movements sessions customers))
      ∙ group_sums-sum_where (names customer sku)
          (consumption_rows contents skus period movements sessions customers)
      ∙ consumption_rows-taken period movements sessions

  -- If one customer and one SKU have the names, then the consumption report has one line with those
  -- names at most, and its boxes are what went out, within the period, in all the sessions of that
  -- customer, and nothing else; without such a line nothing did.
  pub consumption_lines-taken :
      (collates : String → String → Bool) (period : ℕ × ℕ) (movements : List Movement)
      (sessions : List DispatchSession)
      → let lines = consumption_lines contents skus collates period movements sessions customers in
        (times (customer, sku) lines ≤ 1)
        × (sum_where (names customer sku) lines
            ≡ taken customer_id sku_id contents period movements sessions)
  unfolding consumption_lines
  consumption_lines-taken collates period movements sessions =
      let rows = consumption_rows contents skus period movements sessions customers in
      (
        omega (
          arith,
          sort_by-total (listed_before collates) (λ r. only_if (r.0 == (customer, sku)) 1)
              (group_sums rows),
          group_sums-times (customer, sku) rows,
        ),
        lines_sum collates period movements sessions,
      )
