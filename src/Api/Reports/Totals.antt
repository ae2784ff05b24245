-- ===== src/Api/Reports/Totals.antt =====
-- The consumption report against the totals that each session reports of itself.
use tasker_rfid.Prelude.{
  ℕ, ◌≡◌, sym, ap, ◌∙◌, String, Bool, true, List, arith, select, flat_map, nat_eq, string_eq,
  pair_eq, holds, ◌==◌, ◌&&◌, All, All-imp, Bool-cases, inl, inr, eq_iff,
}
use tasker_rfid.Prelude.Sums.{
  total, total_congr, total-eq_of_All, total-select, total-flat_map, only_if, group_sums,
  group_sums-sum_where, sort_by-total, sum_where,
}
use tasker_rfid.Schema.{DispatchSession, Movement}
use tasker_rfid.Seed.{Sku, Customer}
use tasker_rfid.StateEngine.Transitions.{dispatched}
use tasker_rfid.Api.{Content}
use tasker_rfid.Api.Stock.Counting.{boxes_in, IsKey, named, container_rows-boxes}
use tasker_rfid.Api.Reports.{within, total_rows, totals_by_sku, consumption_lines}
use tasker_rfid.Api.Reports.Attribution.{
  IsCustomer, IsSku, names, went_out, consumption_lines-taken,
}

-- The period leaves out no dispatch.
abbrev pub IsWhole : ℕ × ℕ → Movement → Type 0
IsWhole period m = m.to_status ≡ dispatched → within period m.occurred_at ≡ true

abbrev session_boxes : String → List Content → ℕ → Movement → ℕ
session_boxes sku_id contents session_id m =
    only_if (holds m.session_id session_id && m.to_status == dispatched)
      (boxes_in sku_id contents m.container_id)

module _ (contents : List Content) (skus : List Sku) (sku_id : String) (known : IsKey sku_id skus)
    (collates : String → String → Bool) where
  totals_by_sku-boxes :
      (session_id : ℕ) (movements : List Movement)
      → sum_where (named sku_id) (totals_by_sku contents skus collates session_id movements)
        ≡ total (session_boxes sku_id contents session_id) movements
  unfolding totals_by_sku total_rows
  totals_by_sku-boxes session_id movements =
      let out =
        select (λ m. holds m.session_id session_id && m.to_status == dispatched) movements in
      sort_by-total (λ a b. collates a.0.1 b.0.1) (λ r. only_if (named sku_id r.0) r.1)
        (group_sums (flat_map (total_rows contents skus) out))
      ∙ group_sums-sum_where (named sku_id) (flat_map (total_rows contents skus) out)
      ∙ total-flat_map (λ r. only_if (named sku_id r.0) r.1) (total_rows contents skus) out
      ∙ total_congr _ (λ m. boxes_in sku_id contents m.container_id) out
          (λ m. container_rows-boxes sku_id skus contents m.container_id known)
      ∙ total-select (λ m. boxes_in sku_id contents m.container_id)
          (λ m. holds m.session_id session_id && m.to_status == dispatched) movements

  one_movement :
      (period : ℕ × ℕ) (session_id : ℕ) (m : Movement)
      → IsWhole period m
      → session_boxes sku_id contents session_id m
        ≡ only_if
            (m.to_status == dispatched && within period m.occurred_at)
            (only_if (holds m.session_id session_id) (boxes_in sku_id contents m.container_id))
  one_movement period session_id m inside = elim (Bool-cases (m.to_status == dispatched)) [
    | inl e ↦ rw (e, inside ((eq_iff m.to_status dispatched).0 e)) (ground arith)
    | inr e ↦ rw e (ground arith)
  ]

  -- If the period leaves out no dispatch, then the totals that a session reports for a SKU are what
  -- went out in it.
  totals_by_sku-went_out :
      (period : ℕ × ℕ) (session_id : ℕ) (movements : List Movement)
      → All (IsWhole period) movements
      → sum_where (named sku_id) (totals_by_sku contents skus collates session_id movements)
        ≡ went_out sku_id contents period movements session_id
  totals_by_sku-went_out period session_id movements whole =
      totals_by_sku-boxes session_id movements
      ∙ total-eq_of_All _ _ movements
          (All-imp _ _ movements (λ m inside. one_movement period session_id m inside) whole)

-- The boxes of a SKU in the totals of all the sessions of a customer.
abbrev pub reported :
    List Content
    → List Sku
    → (collates : String → String → Bool) → (customer_id sku_id : String) → List Movement
    → List DispatchSession
    → ℕ
reported contents skus collates customer_id sku_id movements = total (λ ds.
    only_if (holds ds.customer_id customer_id)
      (sum_where (named sku_id) (totals_by_sku contents skus collates ds.session_id movements)))

-- If one customer and one SKU have the names, and the period leaves out no dispatch, then the
-- consumption report's boxes for the two names are the boxes of the SKU that the customer's sessions,
-- taken together, report in their totals.
pub consumption_lines-reported :
    (contents : List Content) (skus : List Sku) (customers : List Customer)
    (customer customer_id sku sku_id : String)
    → IsSku sku sku_id skus
    → IsCustomer customer customer_id customers
    → (collates : String → String → Bool) (period : ℕ × ℕ) (movements : List Movement)
      (sessions : List DispatchSession)
    → All (IsWhole period) movements
    → sum_where
        (names customer sku)
        (consumption_lines contents skus collates period movements sessions customers)
      ≡ reported contents skus collates customer_id sku_id movements sessions
consumption_lines-reported contents skus customers customer customer_id sku sku_id known_sku known
      collates period movements sessions whole =
    (consumption_lines-taken contents skus customers customer customer_id sku sku_id known_sku known
      collates period movements sessions).1
    ∙ total_congr _ _ sessions (λ ds. ap (only_if (holds ds.customer_id customer_id)) (
        sym (
          totals_by_sku-went_out contents skus sku_id known_sku.0 collates period ds.session_id
            movements whole)))
