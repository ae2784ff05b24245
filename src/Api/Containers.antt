-- ===== src/Api/Containers.antt =====
-- src/tasker_rfid/services/api/routers/containers.py: registering containers, building pallets, and
-- correcting a status by hand. The EPC and the time of registration, which no service looks at, are
-- left out of a container's row.
pub mod Pallets
pub mod Endless
pub mod Registry
use tasker_rfid.Prelude.{
  ℕ, String, Bool, true, false, not, ◌||◌, Option, none, some, List, [], ◌∷◌, ◌++◌, map, select,
  any, elem, nat_eq, string_eq, ◌==◌, holds, if◌then◌else◌,
}
use tasker_rfid.Prelude.Results.{Result, ok, err, ◌>>=◌, ◌>>◌}
use tasker_rfid.Schema.{Container, Db}
use tasker_rfid.StateEngine.Transitions.{registered}
use tasker_rfid.StateEngine.Store.{lock_container}
use tasker_rfid.StateEngine.Corrections.{
  Refusal, container_not_found, not_a_status, already_there, apply_manual_correction,
}
use tasker_rfid.Api.{HttpException, Content, Tables}

pub record ContentLine : Type 0 where
  pub sku_id : String
  pub quantity : ℕ
  pub lot : Option String
  pub produced_at : Option ℕ
  pub expiry : Option ℕ

pub record NewContainer : Type 0 where
  pub tid : String
  pub kind : String
  pub reusable : Bool
  pub parent_tid : Option String
  pub contents : List ContentLine

-- CONTAINER_BY_TID_SQL; the tid is unique.
abbrev pub container_by_tid : String → Tables → Option Container
container_by_tid tid t = lock_container tid t.db

unfoldable pub require_container : String → Tables → Result HttpException Container
unfolding lock_container
require_container tid t = elim (container_by_tid tid t) [
  | none ↦ err (record { status_code = 404 })
  | some c ↦ ok c
]

-- `if body.parent_tid:` an empty text is no parent.
unfoldable pub parent_for : Option String → Tables → Result HttpException (Option ℕ)
unfolding require_container
parent_for none t = ok none
parent_for (some parent_tid) t =
    if parent_tid == ""
    then ok none
    else (require_container parent_tid t >>= λ parent. ok (some parent.container_id))

unfoldable pub check_skus : List ContentLine → Tables → Result HttpException (Unit {0})
check_skus [] t = ok tt
check_skus (line ∷ lines) t =
    if elem line.sku_id t.skus then check_skus lines t else err (record { status_code = 422 })

abbrev pub content_of : ℕ → ContentLine → Content
content_of container_id line = record {
  container_id = container_id;
  sku_id = line.sku_id;
  quantity = line.quantity;
  lot = line.lot;
  produced_at = line.produced_at;
  expiry = line.expiry;
}

abbrev pub with_containers : List Container → Tables → Tables
with_containers containers t = record t { db = record t.db { containers = containers } }

-- The two INSERTs, with the key that the database gives and the default of the status.
unfoldable pub insert_container :
    NewContainer → (parent_id : Option ℕ) (container_id : ℕ) → Tables → Container × Tables
insert_container body parent_id container_id t =
    let created : Container = record {
      container_id = container_id;
      tid = body.tid;
      kind = body.kind;
      parent_id = parent_id;
      status = registered;
      reusable = body.reusable;
      last_seen_at = none;
      last_portal = none;
    } in
    (
      created,
      record (with_containers (t.db.containers ++ created ∷ []) t) {
        container_contents = t.container_contents ++ map (content_of container_id) body.contents;
      },
    )

unfoldable pub register_container :
    NewContainer → (container_id : ℕ) → Tables → Result HttpException (Container × Tables)
unfolding lock_container
register_container body container_id t = elim (container_by_tid body.tid t) [
  | some _ ↦ err (record { status_code = 409 })
  | none ↦ do
    parent_id ← parent_for body.parent_tid t
    check_skus body.contents t
    ok (insert_container body parent_id container_id t)
]

-- child["parent_id"] not in (None, parent["container_id"])
abbrev pub is_free : Option ℕ → ℕ → Bool
is_free none id = true
is_free (some parent_id) id = parent_id == id

-- The loop of attach_children.
unfoldable pub check_children :
    (tid : String) → Container → List String → Tables → Result HttpException (Unit {0})
unfolding require_container
check_children tid parent [] t = ok tt
check_children tid parent (child_tid ∷ child_tids) t =
    if child_tid == tid
    then err (record { status_code = 422 })
    else (require_container child_tid t >>= λ child.
        if is_free child.parent_id parent.container_id
        then check_children tid parent child_tids t
        else err (record { status_code = 409 }))

-- UPDATE containers SET parent_id = %s WHERE tid = ANY(%s)
abbrev pub placed_on : ℕ → List String → Container → Container
placed_on parent_id child_tids c =
    if elem c.tid child_tids then record c { parent_id = some parent_id } else c

unfoldable pub attach_children :
    (tid : String) (child_tids : List String) → Tables → Result HttpException Tables
unfolding check_children
attach_children tid child_tids t = do
  parent ← require_container tid t
  check_children tid parent child_tids t
  ok (with_containers (map (placed_on parent.container_id child_tids) t.db.containers) t)

abbrev pub status_of : Refusal → HttpException
status_of (container_not_found tid) = record { status_code = 404 }
status_of (not_a_status to_status) = record { status_code = 409 }
status_of (already_there to_status) = record { status_code = 409 }

unfoldable pub correct_container :
    (tid to_status reason operator : String) (now : ℕ) → Tables → Result HttpException Tables
unfolding apply_manual_correction
correct_container tid to_status reason operator now t =
    elim (apply_manual_correction tid to_status reason operator now t.db) [
      | err why ↦ err (status_of why)
      | ok done ↦ ok (record t { db = done.1 })
    ]
