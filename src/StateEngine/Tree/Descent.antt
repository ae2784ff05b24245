-- ===== src/StateEngine/Tree/Descent.antt =====
-- CONTAINER_TREE_SQL returns a container and what is stacked on it, however deep.
use mathlib.Core.Logic.Or
use mathlib.Core.Logic.{∥∥₁_elim, ∥∥₁_map}
use native.Mathlib.Bridge.{le_prop}
use mathlib.Core.List.{
  Mem, Mem-prop, not-mem-nil, mem-append, mem-append_left, mem-append_right, append-nil,
}
use tasker_rfid.Prelude.{
  ℕ, zero, suc, ◌+◌, ◌≤◌, ◌<◌, ◌≡◌, ◌↔◌, true, Option, some, List, [], ◌∷◌, ◌++◌, arith, nat_eq,
  ◌==◌, holds, length, nat_beq_iff, flat_map, select,
}
use tasker_rfid.Prelude.Members.{
  mem-select_of_mem, mem-select, mem-flat_map_of_mem, mem-flat_map_elim,
}
use tasker_rfid.Schema.{Container, Db}
use tasker_rfid.StateEngine.Store.{children_of, tree_below, container_tree}

-- A container of the table that is the root, or hangs below it by parent_id.
pub data Descends (db : Db) (root_id : ℕ) : Container → Type 0 where
  top : {c : Container} → Mem c db.containers → c.container_id ≡ root_id → Descends db root_id c
  below :
      {p c : Container}
      → Descends db root_id p
      → Mem c db.containers
      → c.parent_id ≡ some p.container_id
      → Descends db root_id c

-- `rank` goes up from a container to what is stacked on it, so no container is on itself.
pub record IsForest (db : Db) (rank : ℕ → ℕ) : Type 0 where
  pub bounded : (c : Container) → Mem c db.containers → rank c.container_id < length db.containers
  pub rises :
      (c : Container) (p : ℕ)
      → Mem c db.containers
      → c.parent_id ≡ some p
      → rank p < rank c.container_id

holds-some : (o : Option ℕ) (n : ℕ) → holds o n ≡ true → o ≡ some n
holds-some o n h = ground arith

holds_self : (o : Option ℕ) (n : ℕ) → o ≡ some n → holds o n ≡ true
holds_self o n h = ground arith

module _ (db : Db) where
  mem-children_of :
      (t c : Container)
      → Mem c (children_of db t)
      → Mem c db.containers × (c.parent_id ≡ some t.container_id)
  unfolding children_of
  mem-children_of t c m =
      let (there, e) = mem-select _ c db.containers m in
      (there, holds-some c.parent_id t.container_id e)

  children_of_mem :
      (t c : Container)
      → Mem c db.containers
      → c.parent_id ≡ some t.container_id
      → Mem c (children_of db t)
  unfolding children_of
  children_of_mem t c m e =
      mem-select_of_mem _ c db.containers m (holds_self c.parent_id t.container_id e)

  module _ (root_id : ℕ) where
    abbrev AllDescend : List Container → Type 0
    AllDescend rows = (c : Container) → Mem c rows → ∥ Descends db root_id c ∥₁

    children-AllDescend :
        (rows : List Container) → AllDescend rows → AllDescend (flat_map (children_of db) rows)
    children-AllDescend rows h c =
        mem-flat_map_elim (λ c. ∥ Descends db root_id c ∥₁) (λ _. squash₁) (children_of db) rows c
          (λ t there m.
            let (listed, e) = mem-children_of t c m in ∥∥₁_map (h t there) (λ d. below d listed e))

    tree_below-AllDescend :
        (rounds : ℕ) (rows : List Container)
        → AllDescend rows
        → AllDescend (tree_below rounds db rows)
    unfolding tree_below
    tree_below-AllDescend zero rows h c m = absurd (not-mem-nil m)
    tree_below-AllDescend (suc rounds) [] h c m = absurd (not-mem-nil m)
    tree_below-AllDescend (suc rounds) (t ∷ ts) h c m =
        let next = children-AllDescend (t ∷ ts) h in
        Or.elim squash₁ (mem-append.0 m) (next c) (tree_below-AllDescend rounds _ next c)

  module _ (rank : ℕ → ℕ) (forest : IsForest db rank) where
    abbrev Deep : ℕ → List Container → Type 0
    Deep rounds rows =
        (t : Container)
        → Mem t rows
        → (Mem t db.containers × (length db.containers ≤ rank t.container_id + rounds))

    children-Deep :
        (rounds : ℕ) (rows : List Container)
        → Deep (suc rounds) rows
        → Deep rounds (flat_map (children_of db) rows)
    children-Deep rounds rows h c =
        mem-flat_map_elim
          (λ c. Mem c db.containers × (length db.containers ≤ rank c.container_id + rounds))
          (λ _. hlevel (Mem-prop, le_prop)) (children_of db) rows c
          (λ t there m.
            let (listed, e) = mem-children_of t c m in
            (listed, omega (arith, h t there, forest.rises c t.container_id listed e)))

    tree_below-children :
        (rounds : ℕ) (rows : List Container)
        → Deep rounds rows
        → (p c : Container) → Mem p (rows ++ tree_below rounds db rows)
        → Mem c db.containers
        → c.parent_id ≡ some p.container_id
        → Mem c (tree_below rounds db rows)
    unfolding tree_below
    tree_below-children zero rows deep p c m listed e =
        let last = rw append-nil at m in
        absurd (omega (arith, (deep p last).1, forest.bounded p (deep p last).0))
    tree_below-children (suc rounds) [] deep p c m listed e = absurd (not-mem-nil m)
    tree_below-children (suc rounds) (t ∷ ts) deep p c m listed e =
        let next = flat_map (children_of db) (t ∷ ts) in
        Or.elim Mem-prop (mem-append.0 m)
          (λ here.
            mem-append_left _ (
              mem-flat_map_of_mem (children_of db) p c (t ∷ ts) here
                (children_of_mem p c listed e)))
          (λ later. mem-append_right next (
            tree_below-children rounds next (children-Deep rounds (t ∷ ts) deep) p c later listed
              e))

    Descends-mem :
        (root_id : ℕ) {c : Container} → Descends db root_id c → Mem c (container_tree root_id db)
    unfolding container_tree
    Descends-mem root_id (top {c = c} listed e) =
        mem-append_left _
          (mem-select_of_mem _ c db.containers listed ((nat_beq_iff c.container_id root_id).1 e))
    Descends-mem root_id (below {p = p} {c = c} d listed e) = mem-append_right _ (
        tree_below-children (length db.containers) _
          (λ t m. ((mem-select _ t db.containers m).0, omega arith)) p c (Descends-mem root_id d)
          listed e)

-- If no container is stacked on itself, the rows of the recursive query are exactly the root and
-- the containers below it, at any depth.
pub container_tree-Descends :
    (db : Db) (rank : ℕ → ℕ) (root_id : ℕ) (c : Container)
    → IsForest db rank
    → Mem c (container_tree root_id db) ↔ ∥ Descends db root_id c ∥₁
unfolding container_tree
container_tree-Descends db rank root_id c forest = (
  (λ m.
      Or.elim squash₁ (mem-append.0 m) (root c)
        (tree_below-AllDescend db root_id (length db.containers) _ root c)),
  (λ d. ∥∥₁_elim d Mem-prop (Descends-mem db rank forest root_id)),
)
  where
    root :
        (c : Container)
        → Mem c (select (λ c. c.container_id == root_id) db.containers)
        → ∥ Descends db root_id c ∥₁
    root c m =
        let (listed, e) = mem-select _ c db.containers m in
        ∣ top listed ((nat_beq_iff c.container_id root_id).0 e) ∣₁
