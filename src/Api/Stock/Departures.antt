-- ===== src/Api/Stock/Departures.antt =====
-- The state engine's dispatches in the figures of the API: what leaves the stock list, and what the
-- session of the dock is charged with.
use tasker_rfid.Prelude.{
  ℕ, ◌+◌, ◌≡◌, ◌≢◌, refl, sym, ap, ◌∙◌, String, true, false, some, List, [], ◌∷◌, ◌++◌, map, arith,
  select, elem, All, All-imp, All-zip, nat_eq, string_eq, holds, ◌==◌, not, ◌&&◌, Bool-cases, inl,
  inr,
}
use tasker_rfid.Prelude.Sums.{
  total, total_congr, total-append, total-add, total-select, total-map, total-only_if, total-zero,
  only_if,
}
use tasker_rfid.Schema.{Container, ObservationRow, Movement, Db}
use tasker_rfid.StateEngine.Transitions.{in_stock, dispatched}
use tasker_rfid.StateEngine.Store.{container_tree, lock_container, open_session}
use tasker_rfid.StateEngine.Engine.{Run, portal_movement, handle_action}
use tasker_rfid.StateEngine.Tree.{Keyed, ids, arrived, movements_of, All-container_tree}
use tasker_rfid.StateEngine.Effects.{decision_for, handle_action-Arrived}
use tasker_rfid.Api.{Content}
use tasker_rfid.Api.Stock.{standing}
use tasker_rfid.Api.Stock.Counting.{boxes_in, on_hand}
use tasker_rfid.Api.Reports.{within}
use tasker_rfid.Api.Reports.Attribution.{went_out}

module _ (f : Container → ℕ) where
  abbrev by_id : List Container → Container → ℕ
  by_id cs r = total (λ c. only_if (r.container_id == c.container_id) (f c)) cs

  by_id_none :
      (x : Container) (cs : List Container)
      → All (λ d. d.container_id ≢ x.container_id) cs
      → by_id cs x ≡ 0
  by_id_none x [] h = refl
  by_id_none x (c ∷ cs) h = ground (arith, by_id_none x cs h.1)

  -- By its id a container is found once.
  by_id_once : (cs : List Container) → Keyed cs → All (λ r. by_id cs r ≡ f r) cs
  by_id_once [] k = tt
  by_id_once (x ∷ xs) k = (
    ground (arith, by_id_none x xs k.0),
    All-imp _ _ xs (λ r h. ground (arith, h.0, h.1)) (All-zip _ _ xs k.0 (by_id_once xs k.1)),
  )

  not_among :
      (x : Container) (id : ℕ) (rows : List Container)
      → x.container_id ≡ id
      → All (λ d. d.container_id ≢ x.container_id) rows
      → elem id (ids rows) ≡ false
  not_among x id [] e h = refl
  not_among x id (r ∷ rows) e h = ground (arith, not_among x id rows e h.1)

  among_cons :
      (x c : Container) (rows : List Container)
      → All (λ d. d.container_id ≢ x.container_id) rows
      → only_if (elem c.container_id (ids (x ∷ rows))) (f c)
        ≡ only_if (x.container_id == c.container_id) (f c)
          + only_if (elem c.container_id (ids rows)) (f c)
  among_cons x c rows h =
      ground (arith, λ (e : x.container_id ≡ c.container_id). not_among x c.container_id rows e h)

  -- The containers whose id is among the rows', against the rows.
  total_among :
      (cs rows : List Container)
      → Keyed rows
      → All (λ r. by_id cs r ≡ f r) rows
      → total (λ c. only_if (elem c.container_id (ids rows)) (f c)) cs ≡ total f rows
  total_among cs [] k h = total-zero cs
  total_among cs (x ∷ rows) k h =
      total_congr _ _ cs (λ c. among_cons x c rows k.0)
      ∙ total-add _ _ cs
      ∙ omega (arith, h.0, total_among cs rows k.1 h.1)

-- The boxes of a SKU in a load.
abbrev pub load : String → List Content → List Container → ℕ
load sku_id contents = total (λ r. boxes_in sku_id contents r.container_id)

-- The rows that a move to DISPATCHED writes a movement for.
abbrev pub leaving : List Container → List Container
leaving = select (λ r. not (r.status == dispatched))

module _ (sku_id : String) (contents : List Content) (portal : String) (session_id at : ℕ)
    (tree : List Container) where
  abbrev boxes : Container → ℕ
  boxes c = boxes_in sku_id contents c.container_id

  abbrev after_move : Container → Container
  after_move = arrived dispatched portal (some session_id) at tree

  abbrev standing_boxes : Container → ℕ
  standing_boxes c = only_if (c.status == in_stock) (boxes c)

  -- One container stands in stock afterwards, or was part of the load, or never stood there.
  stays_or_goes :
      (c : Container)
      → standing_boxes c
        ≡ standing_boxes (after_move c)
          + only_if (elem c.container_id (ids tree)) (standing_boxes c)
  stays_or_goes c = elim (Bool-cases (elem c.container_id (ids tree))) [
    | inl e ↦ rw e (omega arith)
    | inr e ↦ rw e (omega arith)
  ]

  on_hand-leaves :
      (containers : List Container)
      → Keyed tree
      → All (λ r. by_id standing_boxes containers r ≡ standing_boxes r) tree
      → on_hand sku_id containers contents
        ≡ on_hand sku_id (map after_move containers) contents + load sku_id contents (standing tree)
  on_hand-leaves containers once there =
      total_congr standing_boxes _ containers stays_or_goes
      ∙ total-add (λ c. standing_boxes (after_move c)) _ containers
      ∙ omega (
        arith,
        total-map standing_boxes after_move containers,
        total_among standing_boxes containers tree once there,
        total-select boxes (λ c. c.status == in_stock) tree,
      )

  module _ (period : ℕ × ℕ) (in_period : within period at ≡ true) where
    abbrev charged : ℕ → Movement → ℕ
    charged other m =
        only_if (m.to_status == dispatched && within period m.occurred_at)
          (only_if (holds m.session_id other) (boxes_in sku_id contents m.container_id))

    one_charged :
        (other : ℕ) (r : Container)
        → charged other (portal_movement dispatched portal (some session_id) at r)
          ≡ only_if (session_id == other) (boxes r)
    unfolding portal_movement
    one_charged other r = ap (λ b. only_if b (only_if (session_id == other) (boxes r))) in_period

    went_out-charged :
        (other : ℕ) (movements : List Movement)
        → went_out sku_id contents period
            (movements ++ movements_of dispatched portal (some session_id) at tree)
            other
          ≡ went_out sku_id contents period movements other
            + only_if (session_id == other) (load sku_id contents (leaving tree))
    went_out-charged other movements =
        total-append (charged other) movements _
        ∙ ap (λ n. went_out sku_id contents period movements other + n)
            (total-map (charged other) (portal_movement dispatched portal (some session_id) at)
                (leaving tree)
              ∙ total_congr _ _ (leaving tree) (one_charged other)
              ∙ total-only_if (session_id == other) boxes (leaving tree))

-- What a dispatch does to the figures of one SKU: its boxes in the rows of the load that stood in
-- stock leave the stock, its boxes in the rows that were not dispatched yet are charged to the
-- session, and nothing is charged to another session.
pub record IsCharged (sku_id : String) (contents : List Content) (period : ℕ × ℕ) (session_id : ℕ)
    (tree : List Container) (before after : Db) : Type 0 where
  pub leaves :
      on_hand sku_id before.containers contents
      ≡ on_hand sku_id after.containers contents + load sku_id contents (standing tree)
  pub charges :
      (other : ℕ)
      → went_out sku_id contents period after.movements other
        ≡ went_out sku_id contents period before.movements other
          + only_if (session_id == other) (load sku_id contents (leaving tree))

-- If a read of a known container decides a dispatch, session `session_id` is open at the dock, and
-- the tree query lists no container twice, then for every SKU and every period that the read falls
-- in: the boxes in those containers of the load that stood in stock leave the stock on hand, the
-- boxes in those that were not dispatched yet are added to what went out in that session, and what
-- went out in any other session stays the same.
pub handle_action-IsCharged :
    (o : ObservationRow) (s : Run) (c : Container) (session_id : ℕ)
    → (sku_id : String) (contents : List Content) (period : ℕ × ℕ) → Keyed s.db.containers
    → Keyed (container_tree c.container_id s.db)
    → lock_container o.tid s.db ≡ some c
    → (decision_for o c).to_status ≡ some dispatched
    → (decision_for o c).detach_children ≡ false
    → open_session s.db ≡ some session_id
    → within period o.last_read ≡ true
    → IsCharged sku_id contents period session_id
        (container_tree c.container_id s.db)
        s.db
        (handle_action o s).db
handle_action-IsCharged o s c session_id sku_id contents period keyed once locked d e dock inside =
    let tree = container_tree c.container_id s.db in
    let done =
      handle_action-Arrived o s c dispatched (some session_id) keyed locked d e (rw dock refl) in
    record {
      leaves =
          on_hand-leaves sku_id contents o.portal session_id o.last_read tree s.db.containers once
            (All-container_tree _ c.container_id s.db (by_id_once _ s.db.containers keyed))
          ∙ ap (λ cs. on_hand sku_id cs contents + load sku_id contents (standing tree))
              (sym done.stock);
      charges = λ other.
          ap (λ ms. went_out sku_id contents period ms other) done.ledger
          ∙ went_out-charged sku_id contents o.portal session_id o.last_read tree period inside
              other s.db.movements;
    }
