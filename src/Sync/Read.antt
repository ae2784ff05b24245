-- ===== src/Sync/Read.antt =====
-- `read_batch` of src/tasker_rfid/services/sync/service.py. The rows of a local table stand in the
-- order of their keys, so ORDER BY cursor, keys is a stable sort. The number of rows of a batch,
-- BATCH_ROWS in the source, is an argument.
use tasker_rfid.Prelude.{
  ℕ, Option, none, some, List, [], ◌∷◌, not, ◌&&◌, ltb, leb, nat_eq, ◌==◌, if◌then◌else◌, select,
  take, length,
}
use tasker_rfid.Sync.Tables.{SyncedTable, Row}

abbrev pub batch_rows : ℕ
batch_rows = 5000

module _ {K A : Type 0} where
  unfoldable pub insert_by_position : Row K A → List (Row K A) → List (Row K A)
  insert_by_position r [] = r ∷ []
  insert_by_position r (x ∷ xs) =
      if leb r.position x.position then r ∷ x ∷ xs else x ∷ insert_by_position r xs

  unfoldable pub order_by_position : List (Row K A) → List (Row K A)
  unfolding insert_by_position
  order_by_position [] = []
  order_by_position (r ∷ rs) = insert_by_position r (order_by_position rs)

  -- WHERE cursor > %s ORDER BY … LIMIT %s
  unfoldable pub next_page : (batch cursor_value : ℕ) → List (Row K A) → List (Row K A)
  unfolding order_by_position
  next_page batch cursor_value local =
      take batch (order_by_position (select (λ r. ltb cursor_value r.position) local))

  -- The one stamp that all the rows share, if `len(stamps) == 1`.
  abbrev pub shared : ℕ → List (Row K A) → Option ℕ
  shared stamp [] = some stamp
  shared stamp (r ∷ rs) = if r.position == stamp then shared stamp rs else none

  abbrev pub one_stamp : List (Row K A) → Option ℕ
  one_stamp [] = none
  one_stamp (r ∷ rs) = shared r.position rs

  unfoldable pub stamped : ℕ → List (Row K A) → List (Row K A)
  unfolding order_by_position
  stamped stuck local = order_by_position (select (λ r. r.position == stuck) local)

  unfoldable pub read_batch :
      (batch : ℕ) → SyncedTable → (cursor_value : ℕ) → List (Row K A) → List (Row K A)
  unfolding next_page stamped
  read_batch batch table cursor_value local =
      let rows = next_page batch cursor_value local in
      if not table.by_id && length rows == batch
      then elim (one_stamp rows) [ none ↦ rows | some stuck ↦ stamped stuck local ]
      else rows
