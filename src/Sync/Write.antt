-- ===== src/Sync/Write.antt =====
-- `upsert_statement` and `send_batch` of src/tasker_rfid/services/sync/service.py. A table that is
-- not read by id has a column outside its key, updated_at, so DO NOTHING is for the others.
use tasker_rfid.Prelude.{
  ℕ, ◌+◌, Bool, Option, none, some, List, [], ◌∷◌, map, Eq, ◌==◌, if◌then◌else◌, length, last_at,
}
use tasker_rfid.Sync.Tables.{SyncedTable, Row, Cursor, Replica, never_synced}

abbrev pub already_synced : Option Cursor → ℕ
already_synced none = 0
already_synced (some c) = c.rows_synced

-- rows[-1][table.cursor_column]
abbrev pub last_position : {K A : Type 0} → ℕ → List (Row K A) → ℕ
last_position = last_at (λ r. r.position)

module _ {K A : Type 0} ⦃e : Eq K⦄ where
  -- INSERT … ON CONFLICT (keys) DO NOTHING, or DO UPDATE.
  unfoldable pub upsert : (by_id : Bool) → Row K A → List (Row K A) → List (Row K A)
  upsert by_id r [] = r ∷ []
  upsert by_id r (x ∷ xs) =
      if x.key == r.key then (if by_id then x else r) ∷ xs else x ∷ upsert by_id r xs

  unfoldable pub upsert_all : (by_id : Bool) → List (Row K A) → List (Row K A) → List (Row K A)
  unfolding upsert
  upsert_all by_id [] table = table
  upsert_all by_id (r ∷ rs) table = upsert_all by_id rs (upsert by_id r table)

  -- UPDATE … SET parent_id = %s WHERE key = %s
  unfoldable pub set_parent : Row K A → List (Row K A) → List (Row K A)
  set_parent r = map (λ x. if x.key == r.key then record x { parent_id = r.parent_id } else x)

  unfoldable pub set_parents : List (Row K A) → List (Row K A) → List (Row K A)
  unfolding set_parent
  set_parents [] table = table
  set_parents (r ∷ rs) table = set_parents rs (set_parent r table)

  abbrev pub without_parent : Row K A → Row K A
  without_parent r = record r { parent_id = none }

  -- The rows go in, in two passes if they refer to one another.
  unfoldable pub write_rows : SyncedTable → List (Row K A) → List (Row K A) → List (Row K A)
  unfolding upsert_all set_parents
  write_rows table rows old =
      if table.self_referencing
      then set_parents rows (upsert_all table.by_id (map without_parent rows) old)
      else upsert_all table.by_id rows old

  unfoldable pub cursor_row : SyncedTable → List (Row K A) → Option Cursor → Cursor
  cursor_row table rows old = record {
    last_id = if table.by_id then last_position 0 rows else 0;
    last_updated_at = if table.by_id then never_synced else last_position 0 rows;
    rows_synced = already_synced old + length rows;
  }

  -- The transaction: the rows and the cursor.
  unfoldable pub send_batch : SyncedTable → List (Row K A) → Replica K A → Replica K A
  unfolding write_rows cursor_row
  send_batch table rows cloud = record {
    rows = write_rows table rows cloud.rows;
    cursor = some (cursor_row table rows cloud.cursor);
  }
