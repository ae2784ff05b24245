-- ===== src/Api/Containers/Pallets.antt =====
-- Building pallets with `attach_children`.

use tasker_rfid.Prelude.{
  true≢false, ◌≡◌, ◌≢◌, sym, ap, ◌∙◌, String, true, Option, none, some, List, [], ◌∷◌, map, nat_eq,
  string_eq, ◌==◌, All, eq_iff,
}
use tasker_rfid.Prelude.Results.{
  Result, ok, err, >>=-eq-ok, ok-injective, if-eq-ok_then, if-eq-ok_else,
}
use tasker_rfid.Schema.{Container}
use tasker_rfid.Api.{HttpException, Tables}
use tasker_rfid.Api.Containers.{
  require_container, container_by_tid, check_children, is_free, placed_on, attach_children,
}

-- What the loop has found out about each child.
abbrev pub IsFree : String → Container → Tables → String → Type 0
IsFree tid parent t child_tid =
    (child_tid ≢ tid)
    × (child : Container) × (container_by_tid child_tid t ≡ some child)
    × (is_free child.parent_id parent.container_id ≡ true)

require_container_found :
    (tid : String) (t : Tables) (c : Container)
    → require_container tid t ≡ ok c
    → container_by_tid tid t ≡ some c
unfolding require_container
require_container_found tid t c e = go (container_by_tid tid t) e
  where
    go :
        (o : Option Container)
        → (elim o as (λ _. Result HttpException Container) [
          | none ↦ err (record { status_code = 404 })
          | some c ↦ ok c
        ])
          ≡ ok c
        → o ≡ some c
    go none e = cc
    go (some x) e = ap some (ok-injective e)

check_children-IsFree :
    (tid : String) (parent : Container) (child_tids : List String) (t : Tables)
    → check_children tid parent child_tids t ≡ ok tt
    → All (IsFree tid parent t) child_tids
unfolding check_children
check_children-IsFree tid parent [] t e = tt
check_children-IsFree tid parent (x ∷ xs) t e =
    let (other, e') = if-eq-ok_else (x == tid) (record { status_code = 422 }) e in
    let (child, found, e'') = >>=-eq-ok _ _ e' in
    let (free, rest) =
      if-eq-ok_then (is_free child.parent_id parent.container_id) (record { status_code = 409 })
        e'' in
    (
      (
        λ same. true≢false (sym ((eq_iff x tid).1 same) ∙ other),
        child,
        require_container_found x t child found,
        free,
      ),
      check_children-IsFree tid parent xs t rest,
    )

-- If containers are put on another, then each of them is registered, is not that container itself, and
-- was on none or on that one; afterwards exactly they have been put on it, and nothing else of any
-- container has changed.
pub attach_children-IsFree :
    (tid : String) (child_tids : List String) (t t' : Tables)
    → attach_children tid child_tids t ≡ ok t'
    → (parent : Container) × (container_by_tid tid t ≡ some parent)
      × All (IsFree tid parent t) child_tids
      × (t'.db.containers ≡ map (placed_on parent.container_id child_tids) t.db.containers)
unfolding attach_children
attach_children-IsFree tid child_tids t t' e =
    let (parent, found, e') = >>=-eq-ok _ _ e in
    let (_, checked, e'') = >>=-eq-ok _ _ e' in
    (
      parent,
      require_container_found tid t parent found,
      check_children-IsFree tid parent child_tids t checked,
      ap (λ (t : Tables). t.db.containers) (sym (ok-injective e'')),
    )
