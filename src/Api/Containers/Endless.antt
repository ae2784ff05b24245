-- ===== src/Api/Containers/Endless.antt =====
-- Two containers that are put on one another: `attach_children`, and CONTAINER_TREE_SQL of
-- src/tasker_rfid/services/state_engine/service.py on what it leaves.
use mathlib.Core.List.{Mem, mem-cons_self, not-mem-nil, mem-map_of_mem}
use mathlib.Core.Option
use tasker_rfid.Prelude.Members.{mem-select, mem-select_of_mem, mem-flat_map_of_mem}
use tasker_rfid.Prelude.{
  length-append, ℕ, zero, suc, ◌≤◌, ◌≡◌, ◌≢◌, refl, sym, ap, ◌∙◌, subst, String, Bool, true, false,
  Option, none, some, List, [], ◌∷◌, map, select, elem, length, nat_eq, string_eq, ◌==◌, holds,
  if◌then◌else◌, if_ind, flat_map, arith, eq_iff, nat_beq_iff,
}
use tasker_rfid.Prelude.Results.{ok}
use tasker_rfid.Schema.{Container, Db}
use tasker_rfid.StateEngine.Store.{first, lock_container, children_of, tree_below}
use tasker_rfid.Api.{Tables}
use tasker_rfid.Api.Containers.{
  require_container, container_by_tid, check_children, placed_on, with_containers, attach_children,
}

first-select :
    (p : Container → Bool) (xs : List Container) (c : Container)
    → first (select p xs) ≡ some c
    → Mem c xs × (p c ≡ true)
first-select p xs c e = mem-select p c xs (head_of (select p xs) e)
  where
    some_inj : (x y : Container) → ◌≡◌ {A = Option Container} (some x) (some y) → x ≡ y
    some_inj x y e = cc

    head_of : (l : List Container) → first l ≡ some c → Mem c l
    head_of [] e = cc
    head_of (x ∷ xs) e = subst (λ (y : Container). Mem y (x ∷ xs)) (some_inj x c e) mem-cons_self

lock_container_first :
    (tid : String) (t : Tables) (c : Container)
    → container_by_tid tid t ≡ some c
    → first (select (λ x. x.tid == tid) t.db.containers) ≡ some c
unfolding lock_container
lock_container_first tid t c e = e

-- An update that keeps the tids finds the updated row.
lock_container-map :
    (f : Container → Container)
    → ((c : Container) → (f c).tid ≡ c.tid)
    → (tid : String) (t : Tables) (c : Container) → container_by_tid tid t ≡ some c
    → container_by_tid tid (with_containers (map f t.db.containers) t) ≡ some (f c)
unfolding lock_container
lock_container-map f keeps tid t c e = go t.db.containers e
  where
    step :
        (b : Bool) (x : Container) (l l' : List Container)
        → first (if b then x ∷ l else l) ≡ some c
        → (first l ≡ some c → first l' ≡ some (f c))
        → first (if b then f x ∷ l' else l') ≡ some (f c)
    step true x l l' e later = ap (Option.map f) e
    step false x l l' e later = later e

    go :
        (xs : List Container)
        → first (select (λ x. x.tid == tid) xs) ≡ some c
        → first (select (λ x. x.tid == tid) (map f xs)) ≡ some (f c)
    go [] e = cc
    go (x ∷ xs) e =
        subst
          (λ name.
            first (
              if name == tid
              then f x ∷ select (λ x. x.tid == tid) (map f xs)
              else select (λ x. x.tid == tid) (map f xs))
            ≡ some (f c))
          (sym (keeps x)) (step (x.tid == tid) x _ _ e (go xs))

-- Two containers that are on one another.
module _ (db : Db) where
  abbrev IsOn : Container → Container → Type 0
  IsOn child parent = holds child.parent_id parent.container_id ≡ true

  endless :
      (x y : Container)
      → Mem x db.containers
      → Mem y db.containers
      → IsOn y x
      → IsOn x y
      → (n : ℕ) (frontier : List Container) → Mem x frontier
      → n ≤ length (tree_below n db frontier)
  unfolding tree_below children_of
  endless x y mx my yx xy zero frontier m = omega arith
  endless x y mx my yx xy (suc n) [] m = absurd (not-mem-nil m)
  endless x y mx my yx xy (suc n) (t ∷ ts) m =
      let next = flat_map (children_of db) (t ∷ ts) in
      let there : Mem y next =
        mem-flat_map_of_mem (children_of db) x y (t ∷ ts) m
          (mem-select_of_mem (λ c. holds c.parent_id x.container_id) y db.containers my yx) in
      let some_row : 1 ≤ length next = some_of next y there in
      omega (
        arith,
        some_row,
        endless y x my mx xy yx n next there,
        length-append next (tree_below n db next),
      )
    where
      some_of : (l : List Container) (y : Container) → Mem y l → 1 ≤ length l
      some_of [] y m = absurd (not-mem-nil m)
      some_of (z ∷ zs) y m = omega arith

-- One child, which is on none, is put on a container.
attach_one :
    (t : Tables) (tid child_tid : String) (parent child : Container)
    → container_by_tid tid t ≡ some parent
    → container_by_tid child_tid t ≡ some child
    → child.parent_id ≡ none
    → (child_tid == tid) ≡ false
    → attach_children tid (child_tid ∷ []) t
      ≡ ok
          (with_containers (map (placed_on parent.container_id (child_tid ∷ [])) t.db.containers) t)
unfolding attach_children check_children require_container
attach_one t tid child_tid parent child here there free other =
    rw (attach_children, require_container, here, other, there, free)

on_it : (c : Container) (id : ℕ) → placed_on id (c.tid ∷ []) c ≡ record c { parent_id = some id }
on_it c id = ground (arith, (eq_iff c.tid c.tid).1 refl)

off_it :
    (c : Container) (id : ℕ) (tid : String) → (tid == c.tid) ≡ false → placed_on id (tid ∷ []) c ≡ c
off_it c id tid h = ground (arith, h)

keeps_tid :
    (parent : ℕ) (tids : List String) (c : Container) → (placed_on parent tids c).tid ≡ c.tid
keeps_tid parent tids c =
    if_ind (λ (x : Container). x.tid ≡ c.tid) (elem c.tid tids) (λ _. refl) (λ _. refl)

-- If each of two containers is on none, then both requests that put one of them on the other succeed,
-- one after the other; and then the query for all that is on one of them never comes to an end: after
-- any number of rounds it has found at least that many rows.
pub attach_children_both_ways :
    (t : Tables) (a b : Container)
    → container_by_tid a.tid t ≡ some a
    → container_by_tid b.tid t ≡ some b
    → a.parent_id ≡ none
    → b.parent_id ≡ none
    → a.tid ≢ b.tid
    → (once : Tables) × (twice : Tables) × (attach_children a.tid (b.tid ∷ []) t ≡ ok once)
      × (attach_children b.tid (a.tid ∷ []) once ≡ ok twice)
      × ((n : ℕ)
          → n
            ≤ length (
                tree_below n twice.db
                  (select (λ c. c.container_id == a.container_id) twice.db.containers)))
attach_children_both_ways t a b found found' a_free b_free different = (
  once,
  twice,
  attach_one t a.tid b.tid a b found found' b_free apart',
  attach_one once b.tid a.tid b' a here there a_free apart,
  λ n.
      endless twice.db a' b' a_there b_there ((nat_beq_iff a.container_id a.container_id).1 refl)
        ((nat_beq_iff b.container_id b.container_id).1 refl) n _
        (mem-select_of_mem (λ c. c.container_id == a.container_id) a' twice.db.containers a_there
          ((nat_beq_iff a.container_id a.container_id).1 refl)),
)
  where
    apart : (a.tid == b.tid) ≡ false
    apart = ground (arith, eq_iff a.tid b.tid, different)

    apart' : (b.tid == a.tid) ≡ false
    apart' = ground (arith, eq_iff b.tid a.tid, different)

    -- The rows in the end.
    a' : Container
    a' = record a { parent_id = some b.container_id }

    b' : Container
    b' = record b { parent_id = some a.container_id }

    once : Tables
    once = with_containers (map (placed_on a.container_id (b.tid ∷ [])) t.db.containers) t

    twice : Tables
    twice = with_containers (map (placed_on b.container_id (a.tid ∷ [])) once.db.containers) once

    here : container_by_tid b.tid once ≡ some b'
    here =
        lock_container-map (placed_on a.container_id (b.tid ∷ []))
          (keeps_tid a.container_id (b.tid ∷ [])) b.tid t b found'
        ∙ ap some (on_it b a.container_id)

    there : container_by_tid a.tid once ≡ some a
    there =
        lock_container-map (placed_on a.container_id (b.tid ∷ []))
          (keeps_tid a.container_id (b.tid ∷ [])) a.tid t a found
        ∙ ap some (off_it a a.container_id b.tid apart')

    row_of :
        (t : Tables) (tid : String) (c : Container)
        → container_by_tid tid t ≡ some c
        → Mem c t.db.containers
    row_of t tid c e =
        (first-select (λ x. x.tid == tid) t.db.containers c (lock_container_first tid t c e)).0

    a_there : Mem a' twice.db.containers
    a_there =
        subst (λ (c : Container). Mem c twice.db.containers) (on_it a b.container_id)
          (mem-map_of_mem (placed_on b.container_id (a.tid ∷ [])) (row_of once a.tid a there))

    b_there : Mem b' twice.db.containers
    b_there =
        subst (λ (c : Container). Mem c twice.db.containers) (off_it b' b.container_id a.tid apart)
          (mem-map_of_mem (placed_on b.container_id (a.tid ∷ [])) (row_of once b.tid b' here))
