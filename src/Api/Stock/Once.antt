-- ===== src/Api/Stock/Once.antt =====
-- No row of container_contents is counted twice.
use tasker_rfid.Prelude.{
  ℕ, ◌≡◌, ◌≢◌, refl, sym, ◌∙◌, String, Bool, true, false, List, [], ◌∷◌, arith, flat_map, any,
  length, All, All-imp, All-select, nat_eq, string_eq, pair_eq, ◌==◌, ◌&&◌,
}
use tasker_rfid.Prelude.Sums.{
  total, total_congr, total-eq_of_All, total-select, total-map, total-flat_map, total-only_if,
  total_comm, total_alone, only_if, group_sums, group_sums-sum_where, sort_by-total,
}
use tasker_rfid.Schema.{Container}
use tasker_rfid.Seed.{Sku}
use tasker_rfid.StateEngine.Transitions.{in_stock}
use tasker_rfid.StateEngine.Tree.{Keyed}
use tasker_rfid.Api.{Content}
use tasker_rfid.Api.Stock.{contents_of, sku_of, standing, sku_rows, stock_rows, stock_on_hand}

abbrev pub stands : List Container → ℕ → Bool
stands containers container_id =
    any (λ c. c.container_id == container_id && c.status == in_stock) containers

-- The SKU that a row names is in the table once.
abbrev pub IsListed : List Sku → Content → Type 0
IsListed skus cc = length (sku_of cc.sku_id skus) ≡ 1

row :
    (skus : List Sku) (cc : Content)
    → IsListed skus cc
    → total (λ r. r.1) (sku_rows skus cc) ≡ cc.quantity
unfolding sku_rows
row skus cc h =
    total-map (λ (r : (String × String) × ℕ). r.1) (λ s. ((s.sku_id, s.name), cc.quantity))
      (sku_of cc.sku_id skus)
    ∙ total_alone cc.quantity (sku_of cc.sku_id skus) h

abbrev in_it : Container → Content → ℕ
in_it c cc =
    only_if (c.status == in_stock) (only_if (cc.container_id == c.container_id) cc.quantity)

-- A container that is not there by its id holds nothing.
in_none :
    (x : Container) (cc : Content) (cs : List Container)
    → All (λ d. d.container_id ≢ x.container_id) cs
    → cc.container_id ≡ x.container_id
    → total (λ c. in_it c cc) cs ≡ 0
in_none x cc [] h e = refl
in_none x cc (c ∷ cs) h e = ground (arith, in_none x cc cs h.1 e)

stands_none :
    (x : Container) (cc : Content) (cs : List Container)
    → All (λ d. d.container_id ≢ x.container_id) cs
    → cc.container_id ≡ x.container_id
    → stands cs cc.container_id ≡ false
stands_none x cc [] h e = refl
stands_none x cc (c ∷ cs) h e = ground (arith, stands_none x cc cs h.1 e)

in_one :
    (cc : Content) (cs : List Container)
    → Keyed cs
    → total (λ c. in_it c cc) cs ≡ only_if (stands cs cc.container_id) cc.quantity
in_one cc [] k = refl
in_one cc (c ∷ cs) k = ground (
  arith,
  λ (e : cc.container_id ≡ c.container_id). in_none c cc cs k.0 e,
  λ (e : cc.container_id ≡ c.container_id). stands_none c cc cs k.0 e,
  in_one cc cs k.1,
)

rows_of :
    (skus : List Sku) (contents : List Content) (container_id : ℕ)
    → All (IsListed skus) contents
    → total (λ r. r.1) (flat_map (sku_rows skus) (contents_of container_id contents))
      ≡ total (λ cc. only_if (cc.container_id == container_id) cc.quantity) contents
rows_of skus contents container_id h =
    total-flat_map (λ (r : (String × String) × ℕ). r.1) (sku_rows skus)
      (contents_of container_id contents)
    ∙ total-eq_of_All _ (λ cc. cc.quantity) _
        (All-imp _ _ (contents_of container_id contents) (row skus)
          (All-select (IsListed skus) _ contents h))
    ∙ total-select (λ cc. cc.quantity) (λ cc. cc.container_id == container_id) contents

-- If container ids are keys and each row names a SKU that is in the table once, then the lines of
-- the stock list add up to the quantities of the rows of container_contents whose container stands
-- in stock, each counted once, whatever hangs on what.
pub stock_on_hand-once :
    (collates : String → String → Bool)
    → (containers : List Container) (contents : List Content) (skus : List Sku) → Keyed containers
    → All (IsListed skus) contents
    → total (λ r. r.1) (stock_on_hand collates containers contents skus)
      ≡ total (λ cc. only_if (stands containers cc.container_id) cc.quantity) contents
unfolding stock_on_hand stock_rows
stock_on_hand-once collates containers contents skus keyed listed =
    sort_by-total (λ a b. collates a.0.1 b.0.1) (λ r. r.1)
      (group_sums (stock_rows containers contents skus))
    ∙ group_sums-sum_where (λ _. true) (stock_rows containers contents skus)
    ∙ total-flat_map (λ (r : (String × String) × ℕ). r.1)
        (λ c. flat_map (sku_rows skus) (contents_of c.container_id contents)) (standing containers)
    ∙ total_congr _
        (λ c. total (λ cc. only_if (cc.container_id == c.container_id) cc.quantity) contents) _
        (λ c. rows_of skus contents c.container_id listed)
    ∙ total-select _ (λ c. c.status == in_stock) containers
    ∙ total_congr _ (λ c. total (in_it c) contents) containers
        (λ c. sym (
          total-only_if (c.status == in_stock)
            (λ cc. only_if (cc.container_id == c.container_id) cc.quantity) contents))
    ∙ total_comm in_it containers contents
    ∙ total_congr _ _ contents (λ cc. in_one cc containers keyed)
