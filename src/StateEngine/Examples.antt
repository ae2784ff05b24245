-- ===== src/StateEngine/Examples.antt =====
-- A small stock on which the theorems about the state engine are applied.
use tasker_rfid.Prelude.{
  inl, inr, ℕ, nat_eq, string_eq, ◌==◌, ◌<◌, ◌≡◌, ◌≢◌, ◌↔◌, refl, sym, String, true, false, Option,
  none, some, [], ◌∷◌, ◌++◌, arith, true≢false, eq_iff, if◌then◌else◌, length,
}
use mathlib.Core.List.{Mem}
use native.Mathlib.Bridge.{le_prop}
use tasker_rfid.Prelude.Results.{ok}
use tasker_rfid.Prelude.Members.{all_of_mem}
use tasker_rfid.Schema.{Container, ObservationRow, DispatchSession, Movement, Db}
use tasker_rfid.Retry.{rolled_back, unacknowledged, with_retry}
use tasker_rfid.StateEngine.Transitions.{
  decide, outbound, in_stock, dispatched, exit, direction_out,
}
use tasker_rfid.StateEngine.Store.{lock_container, container_tree, open_in, latest}
use tasker_rfid.StateEngine.Engine.{Counters, Run, handle_action, source_portal}
use tasker_rfid.StateEngine.Ledger.{IsLedger, last_status, handle_action-IsLedger}
use tasker_rfid.StateEngine.Sessions.{AllAttributed, handle_action-AllAttributed}
use tasker_rfid.StateEngine.Tree.{Keyed}
use tasker_rfid.StateEngine.Tree.Descent.{Descends, IsForest, container_tree-Descends}
use tasker_rfid.StateEngine.Effects.{Arrived, handle_action-Arrived, decision_for}
use tasker_rfid.StateEngine.Effects.Again.{handle_action-again, reread}
use tasker_rfid.StateEngine.Effects.Returning.{Returned, handle_action-Returned}
use tasker_rfid.StateEngine.Effects.Still.{MovesNothing, Still, handle_action-Still}
use tasker_rfid.StateEngine.Corrections.{
  apply_manual_correction, Correction, correct_row, check_target_status, required,
}
use tasker_rfid.StateEngine.Corrections.Effects.{apply_manual_correction_keeps}
use tasker_rfid.StateEngine.Service.{Service, Tick, Between, leave_between}
use tasker_rfid.StateEngine.Service.Running.{Turn, IsHarmless, run, run_keeps}
use tasker_rfid.StateEngine.Service.Retries.{IsCalm, with_retry_once}

abbrev pallet : Container
pallet = record {
  container_id = 1;
  tid = "PALLET";
  kind = "PALLET";
  parent_id = none;
  status = in_stock;
  reusable = false;
  last_seen_at = none;
  last_portal = none;
}

-- On the pallet.
abbrev carton : Container
carton = record pallet { container_id = 2; tid = "CARTON"; kind = "CARTON"; parent_id = some 1 }

-- Out with a customer.
abbrev crate : Container
crate = record pallet {
  container_id = 3;
  tid = "CRATE";
  kind = "CRATE";
  status = dispatched;
  reusable = true;
}

abbrev movement : ℕ → String → Option ℕ → Movement
movement id to session_id = record {
  container_id = id;
  from_status = none;
  to_status = to;
  portal = none;
  session_id = session_id;
  occurred_at = 0;
  source = source_portal;
  reason = none;
  operator = none;
}

abbrev session : DispatchSession
session = record {
  session_id = 7;
  customer_id = none;
  order_ref = none;
  opened_at = 5;
  closed_at = none;
  operator = none;
}

abbrev observation : ℕ → String → Option String → ObservationRow
observation id tid direction = record {
  id = id;
  tid = tid;
  portal = exit;
  direction = direction;
  first_read = 10;
  last_read = 12;
  read_count = 3;
  peak_rssi = none;
  processed = false;
}

abbrev leaving : ObservationRow
leaving = observation 1 "PALLET" (some direction_out)

abbrev returning : ObservationRow
returning = observation 2 "CRATE" (some "IN")

abbrev undirected : ObservationRow
undirected = observation 3 "PALLET" none

abbrev stock : Db
stock = record {
  containers = pallet ∷ carton ∷ crate ∷ [];
  observations = leaving ∷ returning ∷ [];
  dispatch_sessions = session ∷ [];
  movements =
      movement 1 in_stock none
      ∷ movement 2 in_stock none
      ∷ movement 3 in_stock none
      ∷ movement 3 dispatched (some 6)
      ∷ [];
  anomalies = [];
}

abbrev idle_counters : Counters
idle_counters = record {
  processed = 0;
  movements = 0;
  anomalies = 0;
  no_ops = 0;
  children_detached = 0;
}

abbrev start : Run
start = record { counters = idle_counters; db = stock }

is_ledger : IsLedger stock
unfolding last_status
is_ledger = record { at_last = (refl, (refl, (refl, tt))) }

in_stock≢dispatched : in_stock ≢ dispatched
in_stock≢dispatched e = true≢false (sym ((eq_iff in_stock dispatched).1 e))

abbrev six : Option ℕ
six = some 6

some≢none : six ≢ none
some≢none e = cc

all_attributed : AllAttributed stock
all_attributed = record {
  each = (
    (λ e _. absurd (in_stock≢dispatched e)),
    (
      (λ e _. absurd (in_stock≢dispatched e)),
      ((λ e _. absurd (in_stock≢dispatched e)), ((λ _ _. some≢none), tt)),
    ),
  );
}

keyed : Keyed stock.containers
keyed = (
  ((λ e. omega (arith, e)), ((λ e. omega (arith, e)), tt)),
  (((λ e. omega (arith, e)), tt), (tt, tt)),
)

pallet_found : lock_container "PALLET" stock ≡ some pallet
unfolding lock_container
pallet_found = refl

crate_found : lock_container "CRATE" stock ≡ some crate
unfolding lock_container
crate_found = refl

handle_action-IsLedger_example : IsLedger (handle_action leaving start).db
handle_action-IsLedger_example = handle_action-IsLedger leaving start is_ledger

handle_action-AllAttributed_example : AllAttributed (handle_action leaving start).db
handle_action-AllAttributed_example = handle_action-AllAttributed leaving start all_attributed

leaves : (decision_for leaving pallet).to_status ≡ some dispatched
unfolding decide outbound
leaves = refl

leaves_loaded : (decision_for leaving pallet).detach_children ≡ false
unfolding decide outbound
leaves_loaded = refl

session_open : open_in stock.dispatch_sessions ≡ some 7
unfolding open_in latest
session_open = refl

handle_action-Arrived_example :
    Arrived dispatched exit
      (some 7)
      12
      (container_tree 1 stock)
      stock
      (handle_action leaving start).db
handle_action-Arrived_example =
    handle_action-Arrived leaving start pallet dispatched (some 7) keyed pallet_found leaves
      leaves_loaded (unfold open_in latest in refl)

no_return :
    (c : Container)
    → lock_container "PALLET" stock ≡ some c
    → (decision_for leaving c).detach_children ≡ false
unfolding lock_container decide outbound
no_return c e = ground arith

handle_action-again_example :
    (handle_action (reread leaving 9 20 21) (handle_action leaving start)).db.movements
    ≡ (handle_action leaving start).db.movements
handle_action-again_example = handle_action-again leaving start 9 20 21 keyed no_return

handle_action-Returned_example : Returned returning crate stock (handle_action returning start).db
handle_action-Returned_example =
    handle_action-Returned returning start crate crate_found (inr refl) refl refl

moves_nothing : MovesNothing undirected stock (lock_container "PALLET" stock)
unfolding decide lock_container
moves_nothing = inl refl

handle_action-Still_example :
    Still undirected (lock_container "PALLET" stock) stock (handle_action undirected start).db
handle_action-Still_example = handle_action-Still undirected start moves_nothing

-- The levels of the stack.
abbrev rank : ℕ → ℕ
rank id = if id == 2 then 1 else 0

forest : IsForest stock rank
forest = record {
  bounded = λ c.
      all_of_mem (λ d. rank d.container_id < length stock.containers) (λ _. le_prop) c
        stock.containers (omega arith, (omega arith, (omega arith, tt)));
  rises = λ c p m.
      all_of_mem (λ d. d.parent_id ≡ some p → rank p < rank d.container_id) (λ _. hlevel le_prop) c
        stock.containers ((λ e. cc), ((λ e. ground arith), ((λ e. cc), tt))) m;
}

container_tree-Descends_example : Mem carton (container_tree 1 stock) ↔ ∥ Descends stock 1 carton ∥₁
container_tree-Descends_example = container_tree-Descends stock rank 1 carton forest

-- Corrections.
abbrev corrected : Correction × Db
corrected = correct_row crate in_stock "found it" "ann" 99 stock

corrects : apply_manual_correction "CRATE" in_stock "found it" "ann" 99 stock ≡ ok corrected
unfolding apply_manual_correction required lock_container check_target_status
corrects = refl

apply_manual_correction_keeps_example : IsLedger corrected.1 × AllAttributed corrected.1
apply_manual_correction_keeps_example =
    apply_manual_correction_keeps "CRATE" in_stock "found it" "ann" 99 stock corrected corrects
      is_ledger all_attributed

-- Rounds and retries.
abbrev service : Service
service = record { run = start; first_seen = (1, 0) ∷ []; stopping = false }

-- While the service sleeps, the read of the crate is stored.
abbrev meanwhile : Between
meanwhile = record {
  counters = λ k. k;
  outside = λ db. record db { observations = db.observations ++ returning ∷ [] };
}

abbrev tick : Tick
tick = record {
  seen_at = 8_000_000;
  now = 8_000_001;
  faults = rolled_back meanwhile ∷ [];
  stop = false;
}

meanwhile-IsCalm : IsCalm meanwhile
meanwhile-IsCalm = record { stock = λ db. refl; sessions = λ db. refl; ledger = λ db. refl }

with_retry_once_example :
    (with_retry leave_between
      (handle_action leaving)
      (unacknowledged meanwhile ∷ rolled_back meanwhile ∷ [])
      start).db.movements
    ≡ (handle_action leaving start).db.movements
with_retry_once_example =
    with_retry_once leaving meanwhile (rolled_back meanwhile ∷ []) start keyed no_return
      (meanwhile-IsCalm, (meanwhile-IsCalm, tt))

-- A read of the crate is stored before the round.
abbrev turn : Turn
turn = record {
  outside = λ db. record db { observations = db.observations ++ returning ∷ [] };
  env = λ _. tick;
  stop = false;
}

harmless : IsHarmless turn
harmless = (
  ((λ db h. record { at_last = h.at_last }), (λ o. ((λ db h. record { at_last = h.at_last }), tt))),
  ((λ db h. record { each = h.each }), (λ o. ((λ db h. record { each = h.each }), tt))),
)

run_keeps_example :
    IsLedger (run (turn ∷ turn ∷ []) service).run.db
    × AllAttributed (run (turn ∷ turn ∷ []) service).run.db
run_keeps_example =
    run_keeps (turn ∷ turn ∷ []) service (harmless, (harmless, tt)) is_ledger all_attributed
