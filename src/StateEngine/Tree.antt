-- ===== src/StateEngine/Tree.antt =====
-- move_container_tree of state_engine/service.py: the rows of the recursive query, and the loop
-- over them, against a description by one pass over the containers.
pub mod Descent
use tasker_rfid.Prelude.{
  ℕ, String, ◌≡◌, ◌≢◌, refl, sym, ap, ◌∙◌, Bool, true, false, Option, none, some, List, [], ◌∷◌,
  ◌++◌, map, arith, nat_eq, string_eq, ◌==◌, if◌then◌else◌, not, All, All-imp, All-zip, All-append,
  All-select, All-flat_map, zero, suc, ◌+◌, length, select, elem, map-eq_of_All, eq_iff,
  nat_beq_iff, ◌||◌, Bool-cases, inl, inr, ◌⊎◌,
}
use mathlib.Core.Path.{fun_ext}
use mathlib.Core.List.{append_assoc, append-nil, map-map, map-id}
use tasker_rfid.Schema.{Container, Movement, Db}
use tasker_rfid.StateEngine.Store.{
  seen, update_where, update_status, touch_container, insert_movement, container_tree, tree_below,
  children_of,
}
use tasker_rfid.StateEngine.Engine.{
  Run, move_row, move_rows, count_moved, move_container_tree, portal_movement,
}

abbrev pub ids : List Container → List ℕ
ids = map (λ c. c.container_id)

module _ (to portal : String) (session_id : Option ℕ) (at : ℕ) where
  -- What a move does to one container, if `rows` are moved.
  abbrev pub arrived : List Container → Container → Container
  arrived rows c =
      if elem c.container_id (ids rows) then record (seen at portal c) { status = to } else c

  -- The movements that a move writes: one for each row that is not there yet.
  abbrev pub movements_of : List Container → List Movement
  movements_of rows =
      map (portal_movement to portal session_id at) (select (λ r. not (r.status == to)) rows)

  -- What the loop does to one container.
  visit : Container → Container → Container
  visit row c =
      if row.container_id == c.container_id
      then (if row.status == to
          then seen at portal c
          else record (seen at portal c) { status = to })
      else c

  visit_rows : List Container → Container → Container
  visit_rows [] c = c
  visit_rows (row ∷ rows) c = visit_rows rows (visit row c)

  containers-move_row :
      (row : Container) (db : Db)
      → (move_row to portal session_id at row db).containers ≡ map (visit row) db.containers
  unfolding move_row visit touch_container update_status insert_movement
  containers-move_row row db = elim (Bool-cases (row.status == to)) [
    | inl e ↦ rw e (ap (λ f. map f db.containers) (fun_ext λ c. ground arith))
    | inr e ↦ rw e (ap (λ f. map f db.containers) (fun_ext λ c. ground arith))
  ]

  containers-move_rows :
      (rows : List Container) (db : Db)
      → (move_rows to portal session_id at rows db).containers ≡ map (visit_rows rows) db.containers
  unfolding move_rows visit_rows
  containers-move_rows [] db = sym (map-id db.containers)
  containers-move_rows (row ∷ rows) db =
      containers-move_rows rows (move_row to portal session_id at row db)
      ∙ ap (map (visit_rows rows)) (containers-move_row row db)
      ∙ map-map (visit_rows rows) (visit row) db.containers

  abbrev here : Container → Container
  here c = record (seen at portal c) { status = to }

  -- The rows show the status of `c`, or `c` is moved already.
  abbrev Fits : Container → Container → Type 0
  Fits c r = r.container_id ≡ c.container_id → (c.status ≡ r.status) ⊎ (c.status ≡ to)

  visit-here :
      (row c : Container)
      → Fits c row
      → (row.container_id == c.container_id) ≡ true
      → visit row c ≡ here c
  unfolding visit
  visit-here row c fits e = ground (arith, eq_iff row.status to)

  visit-other : (row c : Container) → (row.container_id == c.container_id) ≡ false → visit row c ≡ c
  unfolding visit
  visit-other row c e = ground arith

  visit_rows-here : (rows : List Container) (c : Container) → visit_rows rows (here c) ≡ here c
  unfolding visit_rows
  visit_rows-here [] c = refl
  visit_rows-here (row ∷ rows) c = elim (Bool-cases (row.container_id == c.container_id)) [
    | inl e ↦ rw (visit-here row (here c) (λ _. inr refl) e) (visit_rows-here rows c)
    | inr e ↦ rw (visit-other row (here c) e) (visit_rows-here rows c)
  ]

  visit_rows-arrived :
      (rows : List Container) (c : Container)
      → All (Fits c) rows
      → visit_rows rows c ≡ arrived rows c
  unfolding visit_rows
  visit_rows-arrived [] c h = refl
  visit_rows-arrived (row ∷ rows) c h = elim (Bool-cases (row.container_id == c.container_id)) [
    | inl e ↦ rw (visit-here row c h.0 e, e) (visit_rows-here rows c)
    | inr e ↦ rw (visit-other row c e, e) (visit_rows-arrived rows c h.1)
  ]

  movements-move_rows :
      (rows : List Container) (db : Db)
      → (move_rows to portal session_id at rows db).movements ≡ db.movements ++ movements_of rows
  unfolding move_rows move_row touch_container update_status insert_movement
  movements-move_rows [] db = sym (append-nil db.movements)
  movements-move_rows (row ∷ rows) db = elim (Bool-cases (row.status == to)) [
    | inl e ↦ rw (movements-move_rows rows (move_row to portal session_id at row db), e)
    | inr e ↦
        rw (movements-move_rows rows (move_row to portal session_id at row db), e, append_assoc)
  ]

  count_moved_lem :
      (rows : List Container)
      → count_moved to portal session_id at rows ≡ length (movements_of rows)
  unfolding count_moved
  count_moved_lem [] = refl
  count_moved_lem (row ∷ rows) = ground (arith, count_moved_lem rows)

-- No two containers share an id (the primary key).
abbrev pub Keyed : List Container → Type 0
Keyed [] = Unit
Keyed (c ∷ cs) = All (λ d. d.container_id ≢ c.container_id) cs × Keyed cs

abbrev Shows : Container → Container → Type 0
Shows c r = r.container_id ≡ c.container_id → c.status ≡ r.status

Keyed-Shows : (cs : List Container) → Keyed cs → All (λ c. All (Shows c) cs) cs
Keyed-Shows [] k = tt
Keyed-Shows (x ∷ xs) k = (
  (λ _. refl, All-imp _ _ xs (λ r apart e. absurd (apart e)) k.0),
  All-imp _ _ xs (λ c h. (λ e. absurd (h.0 (sym e)), h.1))
      (All-zip _ _ xs k.0 (Keyed-Shows xs k.1)),
)

-- What holds of all containers holds of the rows of the recursive query.
All-tree_below :
    (P : Container → Type 0) (rounds : ℕ) (db : Db) (frontier : List Container)
    → All P db.containers
    → All P (tree_below rounds db frontier)
unfolding tree_below children_of
All-tree_below P zero db frontier h = tt
All-tree_below P (suc rounds) db [] h = tt
All-tree_below P (suc rounds) db (t ∷ ts) h =
    let below = All-flat_map P (children_of db) (t ∷ ts) (λ x. All-select P _ db.containers h) in
    All-append P _ _ below (All-tree_below P rounds db _ h)

pub All-container_tree :
    (P : Container → Type 0) (root_id : ℕ) (db : Db)
    → All P db.containers
    → All P (container_tree root_id db)
unfolding container_tree
All-container_tree P root_id db h =
    All-append P _ _ (All-select P _ db.containers h)
      (All-tree_below P (length db.containers) db _ h)

module _ (to portal : String) (session_id : Option ℕ) (at : ℕ) (root_id : ℕ) (s : Run) where
  -- After a move every container of the tree stands at the target status, seen at this portal,
  -- and every other container is as it was.
  pub containers-move_container_tree :
      Keyed s.db.containers
      → (move_container_tree to portal session_id at root_id s).db.containers
        ≡ map (arrived to portal session_id at (container_tree root_id s.db)) s.db.containers
  unfolding move_container_tree
  containers-move_container_tree k =
      let tree = container_tree root_id s.db in
      containers-move_rows to portal session_id at tree s.db
      ∙ map-eq_of_All _ _ s.db.containers (
          All-imp _ _ s.db.containers
            (λ c h. visit_rows-arrived to portal session_id at tree c (
              All-container_tree _ root_id s.db
                (All-imp _ _ s.db.containers (λ r g e. inl (g e)) h)))
            (Keyed-Shows s.db.containers k))

  pub movements-move_container_tree :
      (move_container_tree to portal session_id at root_id s).db.movements
      ≡ s.db.movements ++ movements_of to portal session_id at (container_tree root_id s.db)
  unfolding move_container_tree
  movements-move_container_tree =
      movements-move_rows to portal session_id at (container_tree root_id s.db) s.db

  -- Moving a load adds to the counter of movements exactly the number of containers of the tree that
  -- were not at the target status yet.
  pub counted-move_container_tree :
      (move_container_tree to portal session_id at root_id s).counters.movements
      ≡ s.counters.movements
        + length (movements_of to portal session_id at (container_tree root_id s.db))
  unfolding move_container_tree
  counted-move_container_tree =
      ap (λ n. s.counters.movements + n)
        (count_moved_lem to portal session_id at (container_tree root_id s.db))
