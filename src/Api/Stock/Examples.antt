-- ===== src/Api/Stock/Examples.antt =====
-- A small warehouse on which the theorems about the stock list and the reports are applied.
use tasker_rfid.Prelude.{
  ℕ, ◌+◌, ◌*◌, ◌≤◌, ◌≡◌, ◌↔◌, pair_eq, refl, String, Bool, true, false, none, some, List, [], ◌∷◌,
  arith, string_eq, nat_eq, ◌==◌,
}
use tasker_rfid.Prelude.Sums.{total, only_if, sum_where, times}
use tasker_rfid.Schema.{Container, ObservationRow, DispatchSession, Movement}
use tasker_rfid.Seed.{Sku, Customer}
use tasker_rfid.StateEngine.Transitions.{
  in_stock, dispatched, exit, direction_out, decide, outbound,
}
use tasker_rfid.StateEngine.Store.{lock_container, container_tree, tree_below, open_in, latest}
use tasker_rfid.StateEngine.Engine.{Counters, Run, handle_action}
use tasker_rfid.StateEngine.Tree.{Keyed}
use tasker_rfid.Api.{Content}
use tasker_rfid.Api.Stock.{stock_on_hand, stock_for_sku}
use tasker_rfid.Api.Stock.Counting.{IsAgreed, stock_for_sku-IsAgreed}
use tasker_rfid.Api.Stock.Once.{stands, stock_on_hand-once}
use tasker_rfid.Api.Stock.Departures.{IsCharged, handle_action-IsCharged}
use tasker_rfid.Api.Reports.{consumption_lines, within, Clock, period}
use tasker_rfid.Api.Reports.Attribution.{names, taken, consumption_lines-taken}
use tasker_rfid.Api.Reports.Totals.{reported, consumption_lines-reported}
use tasker_rfid.Api.Reports.Period.{period-includes}

abbrev pallet : Container
pallet = record {
  container_id = 1;
  tid = "PALLET";
  kind = "PALLET";
  parent_id = none;
  status = in_stock;
  reusable = true;
  last_seen_at = none;
  last_portal = none;
}

-- On the pallet.
abbrev box : Container
box = record pallet { container_id = 2; tid = "BOX"; kind = "BOX"; parent_id = some 1 }

-- Gone already.
abbrev sold : Container
sold = record pallet { container_id = 3; tid = "SOLD"; kind = "BOX"; status = dispatched }

abbrev containers : List Container
containers = pallet ∷ box ∷ sold ∷ []

abbrev content : ℕ → ℕ → Content
content container_id quantity = record {
  container_id = container_id;
  sku_id = "CONE";
  quantity = quantity;
  lot = none;
  produced_at = none;
  expiry = none;
}

abbrev contents : List Content
contents = content 2 24 ∷ content 2 6 ∷ content 3 12 ∷ []

abbrev cone : Sku
cone = record {
  sku_id = "CONE";
  name = "Cones";
  family = "cones";
  units_per_box = 120;
  tag_class = none;
  active = true;
}

abbrev skus : List Sku
skus = cone ∷ []

abbrev collates : String → String → Bool
collates a b = a == b

abbrev keyed : Keyed containers
keyed = (
  ((λ e. omega (arith, e)), ((λ e. omega (arith, e)), tt)),
  (((λ e. omega (arith, e)), tt), (tt, tt)),
)

stock_for_sku-IsAgreed_example :
    IsAgreed "CONE"
      (stock_on_hand collates containers contents skus)
      (stock_for_sku collates "CONE" containers contents skus)
stock_for_sku-IsAgreed_example =
    stock_for_sku-IsAgreed collates "CONE" containers contents skus refl

stock_on_hand-once_example :
    total (λ r. r.1) (stock_on_hand collates containers contents skus)
    ≡ total (λ cc. only_if (stands containers cc.container_id) cc.quantity) contents
stock_on_hand-once_example =
    stock_on_hand-once collates containers contents skus keyed (refl, (refl, (refl, tt)))

abbrev leaving : ObservationRow
leaving = record {
  id = 1;
  tid = "PALLET";
  portal = exit;
  direction = some direction_out;
  first_read = 10;
  last_read = 12;
  read_count = 3;
  peak_rssi = none;
  processed = false;
}

abbrev session : DispatchSession
session = record {
  session_id = 7;
  customer_id = some "CUST";
  order_ref = none;
  opened_at = 5;
  closed_at = none;
  operator = none;
}

abbrev idle_counters : Counters
idle_counters = record {
  processed = 0;
  movements = 0;
  anomalies = 0;
  no_ops = 0;
  children_detached = 0;
}

abbrev start : Run
start = record {
  counters = idle_counters;
  db = record {
    containers = containers;
    observations = leaving ∷ [];
    dispatch_sessions = session ∷ [];
    movements = [];
    anomalies = [];
  };
}

once : Keyed (container_tree 1 start.db)
unfolding container_tree tree_below
once = (((λ e. omega (arith, e)), tt), (tt, tt))

handle_action-IsCharged_example :
    IsCharged "CONE" contents
      (10, 20)
      7
      (container_tree 1 start.db)
      start.db
      (handle_action leaving start).db
handle_action-IsCharged_example =
    handle_action-IsCharged leaving start pallet 7 "CONE" contents (10, 20) keyed once
      (unfold lock_container in refl) (unfold decide outbound in refl)
      (unfold decide outbound in refl) (unfold open_in latest in refl) refl

abbrev customer : Customer
customer = record { customer_id = "CUST"; name = "Helados"; active = true }

abbrev departure : Movement
departure = record {
  container_id = 3;
  from_status = some in_stock;
  to_status = dispatched;
  portal = some exit;
  session_id = some 7;
  occurred_at = 15;
  source = "PORTAL";
  reason = none;
  operator = none;
}

abbrev lines : List ((String × String) × ℕ)
lines =
    consumption_lines contents skus collates (10, 20) (departure ∷ []) (session ∷ [])
      (customer ∷ [])

consumption_lines-taken_example :
    (times ("Helados", "Cones") lines ≤ 1)
    × (sum_where (names "Helados" "Cones") lines
        ≡ taken "CUST" "CONE" contents (10, 20) (departure ∷ []) (session ∷ []))
consumption_lines-taken_example =
    consumption_lines-taken contents skus (customer ∷ []) "Helados" "CUST" "Cones" "CONE"
      (refl, (refl, tt)) (refl, (refl, tt)) collates (10, 20) (departure ∷ []) (session ∷ [])

consumption_lines-reported_example :
    sum_where (names "Helados" "Cones") lines
    ≡ reported contents skus collates "CUST" "CONE" (departure ∷ []) (session ∷ [])
consumption_lines-reported_example =
    consumption_lines-reported contents skus (customer ∷ []) "Helados" "CUST" "Cones" "CONE"
      (refl, (refl, tt)) (refl, (refl, tt)) collates (10, 20) (departure ∷ []) (session ∷ [])
      ((λ _. refl), tt)

abbrev clock : Clock
clock = record {
  today = 739_500;
  days_ago = λ n. 1_000;
  in_a_day = 2_000;
  midnight = λ d. d * 86_400;
}

mono : (a b : ℕ) → a ≤ b → clock.midnight a ≤ clock.midnight b
mono a b h = omega (arith, h)

period-includes_example :
    (within (clock.midnight 739_000, clock.midnight 739_011) (clock.midnight 739_005 + 7) ≡ true)
    ↔ ((739_000 ≤ 739_005) × (739_005 ≤ 739_010))
period-includes_example =
    period-includes clock 90 (some 739_000) (some 739_010)
      (clock.midnight 739_000, clock.midnight 739_011) 739_005 (clock.midnight 739_005 + 7) mono
      refl (unfold period in refl) (omega arith) (omega arith)
