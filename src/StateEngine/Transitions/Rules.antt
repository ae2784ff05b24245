-- ===== src/StateEngine/Transitions/Rules.antt =====
-- What the transition table of transitions.py guarantees.
use tasker_rfid.Prelude.{
  String, ◌≡◌, ◌⊎◌, Bool, true, false, Option, none, some, arith, ◌==◌, eq_iff, inl, inr, holds,
  ◌&&◌, string_eq,
}
use tasker_rfid.StateEngine.Transitions.{
  decide, registered, in_stock, dispatched, exit, direction_out,
}

-- The edges of the life cycle.
abbrev pub Edge : String → String → Type 0
Edge s t =
    ((s ≡ registered) × (t ≡ in_stock))
    ⊎ (((s ≡ in_stock) × (t ≡ dispatched)) ⊎ ((s ≡ dispatched) × (t ≡ registered)))

-- A decision moves along one edge of the life cycle.
pub decide-Edge :
    (portal : String) (direction : Option String) (status : String) (reusable : Bool) {to : String}
    → (decide portal direction status reusable).to_status ≡ some to
    → Edge status to
unfolding decide
decide-Edge portal direction status reusable h =
    ground (arith, eq_iff status registered, eq_iff status in_stock, eq_iff status dispatched)

-- What a decision moves to, by the kind of move.
decide_to :
    (portal : String) (direction : Option String) (status : String) (reusable : Bool) (to : String)
    → (decide portal direction status reusable).to_status ≡ some to
    → (decide portal direction status reusable).detach_children ≡ false
    → (to ≡ in_stock) × ((portal == exit) && holds direction direction_out ≡ false)
      ⊎ (to ≡ dispatched) × ((portal == exit) && holds direction direction_out ≡ true)
unfolding decide
decide_to portal direction status reusable to h k = ground arith

decide-in_stock :
    (portal : String) (direction : Option String) (reusable : Bool)
    → ((portal == exit) && holds direction direction_out ≡ false)
    → (decide portal direction in_stock reusable).to_status ≡ none
unfolding decide
decide-in_stock portal direction reusable h = ground arith

decide-dispatched :
    (portal : String) (direction : Option String) (reusable : Bool)
    → ((portal == exit) && holds direction direction_out ≡ true)
    → (decide portal direction dispatched reusable).to_status ≡ none
unfolding decide
decide-dispatched portal direction reusable h = ground arith

-- If a decision moves a container and is no return, then deciding again at the same portal and in
-- the same direction, for the status that it moved to, moves nothing.
pub decide_again :
    (portal : String) (direction : Option String) (status : String) (reusable : Bool) {to : String}
    → (decide portal direction status reusable).to_status ≡ some to
    → (decide portal direction status reusable).detach_children ≡ false
    → (decide portal direction to reusable).to_status ≡ none
decide_again portal direction status reusable {to} h k =
    elim (decide_to portal direction status reusable to h k) [
      | inl (e, g) ↦ rw e (decide-in_stock portal direction reusable g)
      | inr (e, g) ↦ rw e (decide-dispatched portal direction reusable g)
    ]
