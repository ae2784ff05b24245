-- ===== src/StateEngine/Store.antt =====
-- The SQL statements of src/tasker_rfid/services/state_engine/service.py, as functions on the
-- tables. Each is named after its constant there.
use tasker_rfid.Prelude.{
  ℕ, zero, suc, ◌+◌, String, Bool, true, false, Option, none, some, List, [], ◌∷◌, ◌++◌, map, not,
  ◌&&◌, ltb, leb, nat_eq, string_eq, ◌==◌, holds, if◌then◌else◌, length, select, take, flat_map,
  elem,
}
use tasker_rfid.Schema.{Container, ObservationRow, DispatchSession, Movement, Anomaly, Db}

-- SELECT … LIMIT 1
abbrev pub first {ℓ} : {A : Type ℓ} → List A → Option A
first [] = none
first (x ∷ _) = some x

unfoldable pub fetch_observations : ℕ → Db → List ObservationRow
fetch_observations fetch_batch db = take fetch_batch (select (λ o. not o.processed) db.observations)

unfoldable pub lock_container : String → Db → Option Container
lock_container tid db = first (select (λ c. c.tid == tid) db.containers)

unfoldable pub children_of : Db → Container → List Container
children_of db t = select (λ c. holds c.parent_id t.container_id) db.containers

-- The recursive part of CONTAINER_TREE_SQL: each round joins the containers with the rows of the
-- round before. The query has no bound of its own; `rounds` bounds the nesting.
unfoldable pub tree_below : (rounds : ℕ) → Db → List Container → List Container
unfolding children_of
tree_below zero db frontier = []
tree_below (suc rounds) db [] = []
tree_below (suc rounds) db (t ∷ ts) =
    let next = flat_map (children_of db) (t ∷ ts) in next ++ tree_below rounds db next

unfoldable pub container_tree : ℕ → Db → List Container
unfolding tree_below
container_tree root_id db =
    let root = select (λ c. c.container_id == root_id) db.containers in
    root ++ tree_below (length db.containers) db root

unfoldable pub child_tids : ℕ → Db → List String
child_tids container_id db =
    map (λ c. c.tid) (select (λ c. holds c.parent_id container_id) db.containers)

-- SELECT DISTINCT
unfoldable pub distinct : List String → List String
distinct [] = []
distinct (x ∷ xs) = let rest = distinct xs in if elem x rest then rest else x ∷ rest

-- `last_read BETWEEN first - margin AND last + margin`, with the subtraction moved over.
unfoldable pub children_seen : String → List String → (first last margin : ℕ) → Db → ℕ
unfolding distinct
children_seen portal tids first_read last_read margin db = length (
    distinct (
      map (λ o. o.tid)
        (select
          (λ o.
            o.portal == portal
            && elem o.tid tids
            && leb first_read (o.last_read + margin)
            && leb o.last_read (last_read + margin))
          db.observations)))

-- ORDER BY opened_at DESC LIMIT 1, over the open sessions.
unfoldable pub latest : Option DispatchSession → List DispatchSession → Option DispatchSession
latest best [] = best
latest none (s ∷ rest) = latest (some s) rest
latest (some best) (s ∷ rest) =
    latest (some (if ltb best.opened_at s.opened_at then s else best)) rest

abbrev pub is_null : Option ℕ → Bool
is_null none = true
is_null (some _) = false

unfoldable pub open_in : List DispatchSession → Option ℕ
unfolding latest
open_in sessions = elim (latest none (select (λ s. is_null s.closed_at) sessions)) [
  | none ↦ none
  | some s ↦ some s.session_id
]

abbrev pub open_session : Db → Option ℕ
open_session db = open_in db.dispatch_sessions

abbrev pub seen : (at : ℕ) (portal : String) → Container → Container
seen at portal c = record c { last_seen_at = some at; last_portal = some portal }

-- UPDATE containers SET … WHERE container_id = …
abbrev pub update_where : ℕ → (Container → Container) → List Container → List Container
update_where container_id f = map (λ c. if c.container_id == container_id then f c else c)

unfoldable pub update_status : (status : String) (at : ℕ) (portal : String) → ℕ → Db → Db
update_status status at portal container_id db = record db {
  containers =
      update_where container_id (λ c. record (seen at portal c) { status = status }) db.containers;
}

unfoldable pub touch_container : (at : ℕ) (portal : String) → ℕ → Db → Db
touch_container at portal container_id db = record db {
  containers = update_where container_id (seen at portal) db.containers;
}

unfoldable pub insert_movement : Movement → Db → Db
insert_movement m db = record db { movements = db.movements ++ m ∷ [] }

unfoldable pub insert_anomaly : Anomaly → Db → Db
insert_anomaly a db = record db { anomalies = db.anomalies ++ a ∷ [] }

unfoldable pub detach_children : ℕ → Db → Db
detach_children container_id db = record db {
  containers =
      map (λ c. if holds c.parent_id container_id then record c { parent_id = none } else c)
        db.containers;
}

-- `cur.rowcount` of the statement above: the rows that matched.
unfoldable pub detached_rows : ℕ → Db → ℕ
detached_rows container_id db = length (select (λ c. holds c.parent_id container_id) db.containers)

unfoldable pub mark_processed : ℕ → Db → Db
mark_processed obs_id db = record db {
  observations =
      map (λ o. if o.id == obs_id then record o { processed = true } else o) db.observations;
}
