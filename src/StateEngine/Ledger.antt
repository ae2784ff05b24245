-- ===== src/StateEngine/Ledger.antt =====
-- The movements table as a ledger of the containers' statuses.
use tasker_rfid.Prelude.{
  ℕ, String, ◌≡◌, refl, List, [], ◌∷◌, ◌++◌, map, arith, nat_eq, string_eq, ◌==◌, if◌then◌else◌,
  All, All-map, All-imp,
}
use tasker_rfid.Schema.{Container, ObservationRow, Movement, Db}
use tasker_rfid.StateEngine.Transitions.{registered}
use tasker_rfid.StateEngine.Store.{
  update_where, update_status, touch_container, insert_movement, detach_children, mark_processed,
  insert_anomaly,
}
use tasker_rfid.StateEngine.Engine.{Run, handle_action, portal_movement}
use tasker_rfid.StateEngine.Rule.{Rule, handle_action-keeps}

-- The status that a container's last movement gave it; `initial` where it has none.
unfoldable pub last_status : String → ℕ → List Movement → String
last_status initial id [] = initial
last_status initial id (m ∷ ms) =
    last_status (if m.container_id == id then m.to_status else initial) id ms

-- Every container stands at the status of its last movement, or at the schema's default.
pub record IsLedger (db : Db) : Type 0 where
  pub at_last :
      All (λ c. c.status ≡ last_status registered c.container_id db.movements) db.containers

last_status-snoc :
    (initial : String) (id : ℕ) (ms : List Movement) (m : Movement)
    → last_status initial id (ms ++ m ∷ [])
      ≡ (if m.container_id == id then m.to_status else last_status initial id ms)
unfolding last_status
last_status-snoc initial id [] m = refl
last_status-snoc initial id (x ∷ ms) m =
    last_status-snoc (if x.container_id == id then x.to_status else initial) id ms m

module _ {db : Db} (ledger : IsLedger db) where
  -- An update that keeps ids and statuses.
  map-IsLedger :
      (f : Container → Container)
      → ((c : Container) → (f c).container_id ≡ c.container_id)
      → ((c : Container) → (f c).status ≡ c.status)
      → IsLedger (record db { containers = map f db.containers })
  map-IsLedger f ids statuses = record {
    at_last =
        All-map (λ c. c.status ≡ last_status registered c.container_id db.movements) f db.containers
          (All-imp _ _ db.containers (λ c h. rw (ids c, statuses c) h) ledger.at_last);
  }

  -- A status written together with its movement.
  pub write-IsLedger :
      (f : Container → Container) (m : Movement)
      → ((c : Container) → (f c).container_id ≡ c.container_id)
      → ((c : Container) → (f c).status ≡ m.to_status)
      → IsLedger (
          insert_movement m
            (record db { containers = update_where m.container_id f db.containers }))
  unfolding insert_movement
  write-IsLedger f m ids e = record {
    at_last =
        All-map (λ c. c.status ≡ last_status registered c.container_id (db.movements ++ m ∷ [])) _
          db.containers
          (All-imp _ _ db.containers
            (λ c h.
              ground (arith, last_status-snoc registered c.container_id db.movements m, ids c, e c))
            ledger.at_last);
  }

  pub touch_container-IsLedger :
      (at : ℕ) (portal : String) (id : ℕ) → IsLedger (touch_container at portal id db)
  unfolding touch_container
  touch_container-IsLedger at portal id = map-IsLedger _ (λ c. ground arith) (λ c. ground arith)

  detach_children-IsLedger : (id : ℕ) → IsLedger (detach_children id db)
  unfolding detach_children
  detach_children-IsLedger id = map-IsLedger _ (λ c. ground arith) (λ c. ground arith)

pub IsLedger-rule : Rule IsLedger
unfolding mark_processed insert_anomaly portal_movement update_status
IsLedger-rule = record {
  touched = λ at portal id db p. touch_container-IsLedger p at portal id;
  marked = λ id db p. record { at_last = p.at_last };
  detached = λ id db p. detach_children-IsLedger p id;
  recorded = λ a db p. record { at_last = p.at_last };
  moved = λ to portal session_id at row db legal p.
      write-IsLedger p _ (portal_movement to portal session_id at row) (λ c. refl) (λ c. refl);
}

-- If every container stands at the status of its last movement (or at REGISTERED if it has none)
-- before an observation is handled, then so it does afterwards, on every branch of `handle`.
pub handle_action-IsLedger :
    (o : ObservationRow) (s : Run) → IsLedger s.db → IsLedger (handle_action o s).db
handle_action-IsLedger = handle_action-keeps IsLedger-rule
