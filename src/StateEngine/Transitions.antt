-- ===== src/StateEngine/Transitions.antt =====
-- src/tasker_rfid/services/state_engine/transitions.py: what a read at a portal should do.
-- A status, a portal and a direction are texts, as in the source, so the branches for unknown
-- values are there too.
pub mod Rules
use tasker_rfid.Prelude.{
  String, ◌≡◌, Bool, true, false, Option, none, some, string_eq, ◌==◌, if◌then◌else◌, holds, ◌&&◌,
}
use tasker_rfid.Schema.{
  Reason, unsaid, arrived_into_stock, already_in_stock, returned_empty, came_back_in,
  just_dispatched, read_at_exit_again, never_booked_in, unrecognised_status, exit_without_direction,
}

abbrev pub registered : String
registered = "REGISTERED"

abbrev pub in_stock : String
in_stock = "IN_STOCK"

abbrev pub dispatched : String
dispatched = "DISPATCHED"

abbrev pub entrance : String
entrance = "ENTRANCE"

abbrev pub exit : String
exit = "EXIT"

abbrev pub direction_in : String
direction_in = "IN"

abbrev pub direction_out : String
direction_out = "OUT"

abbrev pub direction_unknown : String
direction_unknown = "UNKNOWN"

abbrev pub unknown_tid : String
unknown_tid = "UNKNOWN_TID"

abbrev pub illegal_transition : String
illegal_transition = "ILLEGAL_TRANSITION"

abbrev pub no_direction : String
no_direction = "NO_DIRECTION"

abbrev pub no_session : String
no_session = "NO_SESSION"

abbrev pub short_pallet : String
short_pallet = "SHORT_PALLET"

pub record Decision : Type 0 where
  pub to_status : Option String
  pub anomaly : Option String
  pub reason : Reason
  pub detach_children : Bool

-- `Decision()`: the defaults of the dataclass.
abbrev pub no_decision : Decision
no_decision = record { to_status = none; anomaly = none; reason = unsaid; detach_children = false }

abbrev pub is_none {ℓ} : {A : Type ℓ} → Option A → Bool
is_none none = true
is_none (some _) = false

abbrev pub is_no_op : Decision → Bool
is_no_op d = is_none d.to_status && is_none d.anomaly

unfoldable pub inbound : String → Bool → Decision
inbound status reusable =
    if status == registered
    then record no_decision { to_status = some in_stock; reason = arrived_into_stock }
    else if status == in_stock
    then record no_decision { reason = already_in_stock }
    else if status == dispatched
    then (if reusable
        then record no_decision {
          to_status = some registered;
          detach_children = true;
          reason = returned_empty;
        }
        else record no_decision { anomaly = some illegal_transition; reason = came_back_in })
    else record no_decision {
      anomaly = some illegal_transition;
      reason = unrecognised_status status;
    }

unfoldable pub outbound : String → Decision
outbound status =
    if status == in_stock
    then record no_decision { to_status = some dispatched; reason = just_dispatched }
    else if status == dispatched
    then record no_decision { anomaly = some illegal_transition; reason = read_at_exit_again }
    else if status == registered
    then record no_decision { anomaly = some illegal_transition; reason = never_booked_in }
    else record no_decision {
      anomaly = some illegal_transition;
      reason = unrecognised_status status;
    }

unfoldable pub decide :
    (portal : String) (direction : Option String) (status : String) → Bool → Decision
unfolding inbound outbound
decide portal direction status reusable =
    if portal == exit
    then (if holds direction direction_out
        then outbound status
        else if holds direction direction_in
        then inbound status reusable
        else record no_decision {
          anomaly = some no_direction;
          reason = exit_without_direction direction;
        })
    else inbound status reusable
