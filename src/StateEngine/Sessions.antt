-- ===== src/StateEngine/Sessions.antt =====
-- Dispatches are attributed (SPEC.md 2.5): nothing leaves without an open session.
use tasker_rfid.Prelude.{◌≡◌, ◌≢◌, none, string_eq, All, All-append}
use tasker_rfid.Schema.{ObservationRow, Movement, Db}
use tasker_rfid.StateEngine.Transitions.{dispatched}
use tasker_rfid.StateEngine.Store.{
  update_status, touch_container, insert_movement, insert_anomaly, detach_children, mark_processed,
}
use tasker_rfid.StateEngine.Engine.{Run, source_portal, portal_movement, handle_action}
use tasker_rfid.StateEngine.Rule.{Rule, handle_action-keeps}

-- A movement to DISPATCHED that a portal caused names its session.
abbrev pub IsAttributed : Movement → Type 0
IsAttributed m = m.to_status ≡ dispatched → m.source ≡ source_portal → m.session_id ≢ none

pub record AllAttributed (db : Db) : Type 0 where
  pub each : All IsAttributed db.movements

pub AllAttributed-rule : Rule AllAttributed
unfolding touch_container mark_processed detach_children insert_anomaly insert_movement
    update_status portal_movement
AllAttributed-rule = record {
  touched = λ at portal id db p. record { each = p.each };
  marked = λ id db p. record { each = p.each };
  detached = λ id db p. record { each = p.each };
  recorded = λ a db p. record { each = p.each };
  moved = λ to portal session_id at row db legal p. record {
    each = All-append IsAttributed db.movements _ p.each ((λ e _. legal e), tt);
  };
}

-- If every portal movement to DISPATCHED names a dispatch session before an observation is
-- handled, then so it does afterwards, the movements of a pallet's load included.
pub handle_action-AllAttributed :
    (o : ObservationRow) (s : Run) → AllAttributed s.db → AllAttributed (handle_action o s).db
handle_action-AllAttributed = handle_action-keeps AllAttributed-rule
