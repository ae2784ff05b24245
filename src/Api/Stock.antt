-- ===== src/Api/Stock.antt =====
-- src/tasker_rfid/services/api/routers/stock.py: how much stands in the warehouse. A join is a
-- comprehension over the tables. How the database orders texts is the parameter `collates`.
pub mod Counting
pub mod Once
pub mod Departures
mod Examples
use tasker_rfid.Prelude.{
  ℕ, String, Bool, true, false, Option, none, some, List, [], ◌∷◌, map, select, flat_map, elem,
  nat_eq, string_eq, pair_eq, ◌==◌, if◌then◌else◌, ltb, ◌&&◌, ◌||◌,
}
use tasker_rfid.Prelude.Dict.{Dict}
use tasker_rfid.Prelude.Sums.{group_sums, sort_by}
use tasker_rfid.Prelude.Results.{Result, ok, err}
use tasker_rfid.Schema.{Container}
use tasker_rfid.Seed.{Sku}
use tasker_rfid.StateEngine.Transitions.{in_stock}
use tasker_rfid.Api.{HttpException, Content}

-- JOIN container_contents cc ON cc.container_id = …
abbrev pub contents_of : ℕ → List Content → List Content
contents_of container_id = select (λ cc. cc.container_id == container_id)

-- JOIN skus s ON s.sku_id = cc.sku_id
abbrev pub sku_of : String → List Sku → List Sku
sku_of sku_id = select (λ s. s.sku_id == sku_id)

-- WHERE c.status = 'IN_STOCK'
abbrev pub standing : List Container → List Container
standing = select (λ c. c.status == in_stock)

-- One row of the contents, for each SKU that it names: the columns to group by, and the quantity.
unfoldable pub sku_rows : List Sku → Content → List ((String × String) × ℕ)
sku_rows skus cc = map (λ s. ((s.sku_id, s.name), cc.quantity)) (sku_of cc.sku_id skus)

unfoldable pub stock_rows : List Container → List Content → List Sku → List ((String × String) × ℕ)
unfolding sku_rows
stock_rows containers contents skus =
    flat_map (λ c. flat_map (sku_rows skus) (contents_of c.container_id contents))
      (standing containers)

-- A line for each SKU, by its id and its name, with the boxes.
unfoldable pub stock_on_hand :
    (collates : String → String → Bool)
    → List Container
    → List Content
    → List Sku
    → Dict (String × String) ℕ
unfolding stock_rows
stock_on_hand collates containers contents skus =
    sort_by (λ a b. collates a.0.1 b.0.1) (group_sums (stock_rows containers contents skus))

-- A container in stock that holds the SKU, with the row that says so.
abbrev pub Holder : Type 0
Holder = Container × Content

unfoldable pub holders : String → List Container → List Content → List Holder
holders sku_id containers contents =
    flat_map
      (λ c.
        map (λ cc. (c, cc))
          (select (λ cc. cc.sku_id == sku_id) (contents_of c.container_id contents)))
      (standing containers)

-- ORDER BY cc.expiry NULLS LAST, c.tid
unfoldable pub sooner : (String → String → Bool) → Holder → Holder → Bool
sooner collates (c, cc) (d, dd) = elim cc.expiry [
  | none ↦ elim dd.expiry [ none ↦ collates c.tid d.tid | some f ↦ false ]
  | some e ↦ elim dd.expiry [ none ↦ true | some f ↦ ltb e f || (e == f && collates c.tid d.tid) ]
]

unfoldable pub stock_for_sku :
    (collates : String → String → Bool)
    → String
    → List Container
    → List Content
    → List Sku
    → Result HttpException (List Holder)
unfolding sooner holders
stock_for_sku collates sku_id containers contents skus =
    if elem sku_id (map (λ s. s.sku_id) skus)
    then ok (sort_by (sooner collates) (holders sku_id containers contents))
    else err (record { status_code = 404 })
