-- ===== src/Api/Stock/Counting.antt =====
-- What stands in the warehouse, counted in two ways.
use tasker_rfid.Prelude.{
  ℕ, ◌≡◌, refl, sym, ◌∙◌, String, Bool, true, List, [], ◌∷◌, map, arith, select, flat_map, elem,
  nat_eq, string_eq, pair_eq, ◌==◌, length,
}
use tasker_rfid.Prelude.Sums.{
  total, total_congr, total-select, total-map, total-flat_map, only_if, matched_once, group_sums,
  group_sums-sum_where, sort_by, sort_by-total, sum_where,
}
use tasker_rfid.Prelude.Results.{Result, ok}
use tasker_rfid.Schema.{Container}
use tasker_rfid.Seed.{Sku}
use tasker_rfid.StateEngine.Transitions.{in_stock}
use tasker_rfid.Api.{HttpException, Content}
use tasker_rfid.Api.Stock.{
  contents_of, sku_of, standing, sku_rows, stock_rows, stock_on_hand, Holder, holders, sooner,
  stock_for_sku,
}

-- The boxes of a SKU that the rows of a container say it holds.
abbrev pub boxes_in : String → List Content → ℕ → ℕ
boxes_in sku_id contents container_id =
    total
      (λ cc. only_if (cc.container_id == container_id) (only_if (cc.sku_id == sku_id) cc.quantity))
      contents

-- The boxes of a SKU in all the containers that stand in stock.
abbrev pub on_hand : String → List Container → List Content → ℕ
on_hand sku_id containers contents =
    total (λ c. only_if (c.status == in_stock) (boxes_in sku_id contents c.container_id)) containers

abbrev pub named : String → String × String → Bool
named sku_id key = key.0 == sku_id

-- A SKU is in the table once.
abbrev pub IsKey : String → List Sku → Type 0
IsKey sku_id skus = length (sku_of sku_id skus) ≡ 1

-- Joined with the table of SKUs, a row that names the SKU counts once, and any other not at all.
sku_rows-boxes :
    (sku_id : String) (skus : List Sku) (cc : Content)
    → sum_where (named sku_id) (sku_rows skus cc)
      ≡ total (λ s. only_if (s.sku_id == cc.sku_id) (only_if (s.sku_id == sku_id) cc.quantity)) skus
unfolding sku_rows
sku_rows-boxes sku_id skus cc =
    total-map (λ r. only_if (named sku_id r.0) r.1) (λ s. ((s.sku_id, s.name), cc.quantity))
      (sku_of cc.sku_id skus)
    ∙ total-select (λ s. only_if (s.sku_id == sku_id) cc.quantity) (λ s. s.sku_id == cc.sku_id) skus

sku_rows_once :
    (sku_id : String) (skus : List Sku) (cc : Content)
    → IsKey sku_id skus
    → sum_where (named sku_id) (sku_rows skus cc) ≡ only_if (cc.sku_id == sku_id) cc.quantity
sku_rows_once sku_id skus cc e =
    sku_rows-boxes sku_id skus cc ∙ matched_once (λ s. s.sku_id) sku_id cc.sku_id cc.quantity skus e

-- The rows of one container, joined with the table of SKUs.
pub container_rows-boxes :
    (sku_id : String) (skus : List Sku) (contents : List Content) (container_id : ℕ)
    → IsKey sku_id skus
    → sum_where (named sku_id) (flat_map (sku_rows skus) (contents_of container_id contents))
      ≡ boxes_in sku_id contents container_id
container_rows-boxes sku_id skus contents container_id e =
    total-flat_map (λ r. only_if (named sku_id r.0) r.1) (sku_rows skus)
      (contents_of container_id contents)
    ∙ total_congr _ (λ cc. only_if (cc.sku_id == sku_id) cc.quantity) _
        (λ cc. sku_rows_once sku_id skus cc e)
    ∙ total-select (λ cc. only_if (cc.sku_id == sku_id) cc.quantity)
        (λ cc. cc.container_id == container_id) contents

stock_rows-on_hand :
    (sku_id : String) (containers : List Container) (contents : List Content) (skus : List Sku)
    → IsKey sku_id skus
    → sum_where (named sku_id) (stock_rows containers contents skus)
      ≡ on_hand sku_id containers contents
unfolding stock_rows
stock_rows-on_hand sku_id containers contents skus e =
    total-flat_map (λ r. only_if (named sku_id r.0) r.1)
      (λ c. flat_map (sku_rows skus) (contents_of c.container_id contents)) (standing containers)
    ∙ total_congr _ (λ c. boxes_in sku_id contents c.container_id) _
        (λ c. container_rows-boxes sku_id skus contents c.container_id e)
    ∙ total-select (λ c. boxes_in sku_id contents c.container_id) (λ c. c.status == in_stock)
        containers

-- For a SKU that is in the table once, the lines of the stock list that are about it add up to the
-- boxes of it in all the containers that stand in stock.
pub stock_on_hand-on_hand :
    (collates : String → String → Bool) (sku_id : String)
    → (containers : List Container) (contents : List Content) (skus : List Sku) → IsKey sku_id skus
    → sum_where (named sku_id) (stock_on_hand collates containers contents skus)
      ≡ on_hand sku_id containers contents
unfolding stock_on_hand
stock_on_hand-on_hand collates sku_id containers contents skus e =
    sort_by-total (λ a b. collates a.0.1 b.0.1) (λ r. only_if (named sku_id r.0) r.1)
      (group_sums (stock_rows containers contents skus))
    ∙ group_sums-sum_where (named sku_id) (stock_rows containers contents skus)
    ∙ stock_rows-on_hand sku_id containers contents skus e

abbrev held : List Holder → ℕ
held = total (λ h. h.1.quantity)

container_holders-boxes :
    (sku_id : String) (contents : List Content) (c : Container)
    → held (
        map
          (λ cc. (c, cc))
          (select (λ cc. cc.sku_id == sku_id) (contents_of c.container_id contents)))
      ≡ boxes_in sku_id contents c.container_id
container_holders-boxes sku_id contents c =
    total-map (λ (h : Holder). h.1.quantity) (λ cc. (c, cc))
      (select (λ cc. cc.sku_id == sku_id) (contents_of c.container_id contents))
    ∙ total-select (λ cc. cc.quantity) (λ cc. cc.sku_id == sku_id)
        (contents_of c.container_id contents)
    ∙ total-select (λ cc. only_if (cc.sku_id == sku_id) cc.quantity)
        (λ cc. cc.container_id == c.container_id) contents

holders-on_hand :
    (sku_id : String) (containers : List Container) (contents : List Content)
    → held (holders sku_id containers contents) ≡ on_hand sku_id containers contents
unfolding holders
holders-on_hand sku_id containers contents =
    total-flat_map (λ (h : Holder). h.1.quantity)
      (λ c.
        map (λ cc. (c, cc))
          (select (λ cc. cc.sku_id == sku_id) (contents_of c.container_id contents)))
      (standing containers)
    ∙ total_congr _ (λ c. boxes_in sku_id contents c.container_id) _
        (λ c. container_holders-boxes sku_id contents c)
    ∙ total-select (λ c. boxes_in sku_id contents c.container_id) (λ c. c.status == in_stock)
        containers

is_known :
    (sku_id : String) (skus : List Sku)
    → IsKey sku_id skus
    → elem sku_id (map (λ s. s.sku_id) skus) ≡ true
is_known sku_id [] e = ground arith
is_known sku_id (s ∷ skus) e = ground (arith, is_known sku_id skus)

-- What the two requests say of a SKU agrees: the list for the SKU is found, and its quantities add up
-- to the boxes that the lines of the stock list give for it.
pub record IsAgreed (sku_id : String) (lines : List ((String × String) × ℕ))
    (answer : Result HttpException (List Holder)) : Type 0 where
  pub found : List Holder
  pub answers : answer ≡ ok found
  pub same_boxes : held found ≡ sum_where (named sku_id) lines

-- For a SKU that is in the table once, the list of the containers that hold it is answered, and its
-- quantities add up to the boxes that the stock list gives for it.
pub stock_for_sku-IsAgreed :
    (collates : String → String → Bool) (sku_id : String)
    → (containers : List Container) (contents : List Content) (skus : List Sku) → IsKey sku_id skus
    → IsAgreed sku_id
        (stock_on_hand collates containers contents skus)
        (stock_for_sku collates sku_id containers contents skus)
unfolding stock_for_sku
stock_for_sku-IsAgreed collates sku_id containers contents skus e = record {
  found = sort_by (sooner collates) (holders sku_id containers contents);
  answers = rw (is_known sku_id skus e) refl;
  same_boxes =
      sort_by-total (sooner collates) (λ (h : Holder). h.1.quantity)
        (holders sku_id containers contents)
      ∙ holders-on_hand sku_id containers contents
      ∙ sym (stock_on_hand-on_hand collates sku_id containers contents skus e);
}
