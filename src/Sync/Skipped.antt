-- ===== src/Sync/Skipped.antt =====
-- Rows that no batch reads: `read_batch` of src/tasker_rfid/services/sync/service.py asks for rows
-- beyond the cursor only, and the cursor never goes back.
use tasker_rfid.Prelude.{
  take-All, ℕ, ◌≤◌, ◌<◌, ◌≡◌, refl, Bool, true, false, Option, none, some, List, [], ◌∷◌, not, ◌&&◌,
  ◌||◌, Eq, ◌==◌, nat_eq, if◌then◌else◌, if_ind, Bool-cases, inl, inr, leb, ltb, arith, select,
  length, All, All-imp, All-map, map,
}
use tasker_rfid.Sync.Tables.{SyncedTable, Row, Replica, never_synced, row_at}
use tasker_rfid.Sync.Read.{
  insert_by_position, order_by_position, next_page, read_batch, stamped, one_stamp, shared,
}
use tasker_rfid.Sync.Write.{
  upsert, upsert_all, set_parent, set_parents, write_rows, without_parent, last_position,
  send_batch, cursor_row,
}
use tasker_rfid.Sync.Cycle.{
  Weather, Delivery, committed, foreign_key_violation, rolled_back, unacknowledged, Step,
  cursor_value_of, deliver, send, sync_table, TableTurn, cycles,
}

-- The stamp that all rows share is that of the first.
IsOneOf : Option ℕ → ℕ → Type 0
IsOneOf none stamp = Unit
IsOneOf (some s) stamp = s ≡ stamp

module _ {K A : Type 0} where
  module _ (P : Row K A → Type 0) where
    insert_by_position-All :
        (r : Row K A) (rs : List (Row K A)) → P r → All P rs → All P (insert_by_position r rs)
    unfolding insert_by_position
    insert_by_position-All r [] h k = (h, tt)
    insert_by_position-All r (x ∷ xs) h k =
        if_ind (All P) (leb r.position x.position) (λ _. (h, k))
          (λ _. (k.0, insert_by_position-All r xs h k.1))

    order_by_position-All : (rs : List (Row K A)) → All P rs → All P (order_by_position rs)
    unfolding order_by_position
    order_by_position-All [] h = tt
    order_by_position-All (r ∷ rs) h = insert_by_position-All r _ h.0 (order_by_position-All rs h.1)

  shared-IsOneOf : (stamp : ℕ) (rs : List (Row K A)) → IsOneOf (shared stamp rs) stamp
  unfolding IsOneOf
  shared-IsOneOf stamp [] = refl
  shared-IsOneOf stamp (r ∷ rs) =
      if_ind (λ o. IsOneOf o stamp) (r.position == stamp) (λ _. shared-IsOneOf stamp rs) (λ _. tt)

  -- What a batch is made of: rows of the local table, with a property that all of these have, that
  -- lie beyond the cursor.
  module _ (Q : Row K A → Type 0) (c : ℕ) (local : List (Row K A)) (all : All Q local) where
    abbrev IsFresh : Row K A → Type 0
    IsFresh r = (c < r.position) × Q r

    select-IsFresh :
        (p : Row K A → Bool)
        → ((r : Row K A) → p r ≡ true → c < r.position)
        → All IsFresh (select p local)
    select-IsFresh p h = go local all
      where
        go : (rs : List (Row K A)) → All Q rs → All IsFresh (select p rs)
        go [] q = tt
        go (r ∷ rs) q = if_ind (All IsFresh) (p r) (λ e. ((h r e, q.0), go rs q.1)) (λ _. go rs q.1)

    page_or_stamped :
        (rows : List (Row K A))
        → All IsFresh rows
        → All IsFresh (elim (one_stamp rows) [ none ↦ rows | some stuck ↦ stamped stuck local ])
    unfolding stamped IsOneOf
    page_or_stamped [] h = tt
    page_or_stamped (r ∷ rs) h = go (shared r.position rs) (shared-IsOneOf r.position rs)
      where
        go :
            (o : Option ℕ)
            → IsOneOf o r.position
            → All IsFresh (elim o [ none ↦ r ∷ rs | some stuck ↦ stamped stuck local ])
        go none same = h
        go (some stuck) same =
            order_by_position-All IsFresh _
              (select-IsFresh (λ x. x.position == stuck) (λ x k. ground (arith, h.0.0, same)))

    read_batch-IsFresh :
        (batch : ℕ) (table : SyncedTable) → All IsFresh (read_batch batch table c local)
    unfolding read_batch next_page stamped
    read_batch-IsFresh batch table =
        let rows = next_page batch c local in
        let beyond = take-All IsFresh batch _ (
          order_by_position-All IsFresh _
            (select-IsFresh (λ r. ltb c r.position) (λ r k. ground arith))) in
        if_ind (All IsFresh) (not table.by_id && length rows == batch)
          (λ _. page_or_stamped rows beyond) (λ _. beyond)

  last_position_le :
      (c : ℕ) (rs : List (Row K A)) → All (λ r. c < r.position) rs → c ≤ last_position c rs
  last_position_le c [] h = omega arith
  last_position_le c (r ∷ rs) h = last_from r.position rs h.1 (omega (arith, h.0))
    where
      last_from :
          (d : ℕ) (xs : List (Row K A))
          → All (λ x. c < x.position) xs
          → c ≤ d
          → c ≤ last_position d xs
      last_from d [] h k = k
      last_from d (x ∷ xs) h k = last_from x.position xs h.1 (omega (arith, h.0))

module _ {K A : Type 0} ⦃e : Eq K⦄ (k : K) where
  -- No row of that key.
  abbrev IsOther : Row K A → Type 0
  IsOther r = (r.key == k) ≡ false

  row_at-none : (xs : List (Row K A)) → All IsOther xs → row_at k xs ≡ none
  unfolding row_at
  row_at-none [] h = refl
  row_at-none (x ∷ xs) h = ground (arith, h.0, row_at-none xs h.1)

  none_of_them : (xs : List (Row K A)) → row_at k xs ≡ none → All IsOther xs
  unfolding row_at
  none_of_them [] n = tt
  none_of_them (x ∷ xs) n = elim (Bool-cases (x.key == k)) [
    | inl h ↦ ground (arith, n, h)
    | inr h ↦ (h, none_of_them xs (ground (arith, n, h)))
  ]

  upsert-IsOther :
      (by_id : Bool) (r : Row K A) (xs : List (Row K A))
      → IsOther r
      → All IsOther xs
      → All IsOther (upsert by_id r xs)
  unfolding upsert
  upsert-IsOther by_id r [] h k = (h, tt)
  upsert-IsOther by_id r (x ∷ xs) h k =
      if_ind (All IsOther) (x.key == r.key) (λ _. (if_ind IsOther by_id (λ _. k.0) (λ _. h), k.1))
        (λ _. (k.0, upsert-IsOther by_id r xs h k.1))

  upsert_all-IsOther :
      (by_id : Bool) (rs xs : List (Row K A))
      → All IsOther rs
      → All IsOther xs
      → All IsOther (upsert_all by_id rs xs)
  unfolding upsert_all
  upsert_all-IsOther by_id [] xs h n = n
  upsert_all-IsOther by_id (r ∷ rs) xs h n =
      upsert_all-IsOther by_id rs _ h.1 (upsert-IsOther by_id r xs h.0 n)

  set_parents-IsOther : (rs xs : List (Row K A)) → All IsOther xs → All IsOther (set_parents rs xs)
  unfolding set_parents set_parent
  set_parents-IsOther [] xs n = n
  set_parents-IsOther (r ∷ rs) xs n = set_parents-IsOther rs _ (
      All-map IsOther _ xs
        (All-imp IsOther _ xs (λ x h. if_ind IsOther (x.key == r.key) (λ _. h) (λ _. h)) n))

  write_rows-IsOther :
      (table : SyncedTable) (rs old : List (Row K A))
      → All IsOther rs
      → All IsOther old
      → All IsOther (write_rows table rs old)
  unfolding write_rows
  write_rows-IsOther table rs old h n =
      if_ind (All IsOther) table.self_referencing
        (λ _.
          set_parents-IsOther rs _
            (upsert_all-IsOther table.by_id _ old (All-map IsOther without_parent rs h) n))
        (λ _. upsert_all-IsOther table.by_id rs old h n)

  -- A row with another key, or one that the cursor has passed.
  abbrev pub is_behind : ℕ → Row K A → Bool
  is_behind c r = not (r.key == k) || leb r.position c

  -- A place in the table that no later batch reads.
  module _ (batch : ℕ) (table : SyncedTable) where
    record IsSkipped (locals : List (List (Row K A))) (cloud : Replica K A) : Type 0 where
      pub absent : All IsOther cloud.rows
      pub behind : All (All (λ r. is_behind (cursor_value_of table cloud.cursor) r ≡ true)) locals

    written :
        (locals : List (List (Row K A))) (r : Row K A) (rs : List (Row K A)) (cloud : Replica K A)
        → IsSkipped locals cloud
        → All
            (λ x.
              (cursor_value_of table cloud.cursor < x.position)
              × (is_behind (cursor_value_of table cloud.cursor) x ≡ true))
            (r ∷ rs)
        → IsSkipped locals (send_batch table (r ∷ rs) cloud)
    unfolding send_batch cursor_row cursor_value_of
    written locals r rs cloud h o = record {
      absent =
          write_rows-IsOther table (r ∷ rs) cloud.rows
            (All-imp _ _ (r ∷ rs) (λ x f. ground (arith, f.0, f.1)) o) h.absent;
      behind =
          let c = cursor_value_of table cloud.cursor in
          let far = last_position_le c (r ∷ rs) (All-imp _ _ (r ∷ rs) (λ x f. f.0) o) in
          All-imp _ _ locals
            (λ local.
              All-imp _ _ local (λ x b. further c (last_position c (r ∷ rs)) far table.by_id x b))
            h.behind;
    }
      where
        further :
            (c d : ℕ)
            → c ≤ d
            → (by_id : Bool) (x : Row K A) → is_behind c x ≡ true
            → is_behind
                (if by_id then (if by_id then d else 0) else (if by_id then never_synced else d))
                x
              ≡ true
        further c d far true x b = ground (arith, b, far)
        further c d far false x b = ground (arith, b, far)

    send-IsSkipped :
        (locals : List (List (Row K A))) (d : Delivery) (rows : List (Row K A))
        (cloud : Replica K A)
        → IsSkipped locals cloud
        → All
            (λ r.
              (cursor_value_of table cloud.cursor < r.position)
              × (is_behind (cursor_value_of table cloud.cursor) r ≡ true))
            rows
        → IsSkipped locals (send batch d table rows cloud).0
    unfolding send deliver send_batch cursor_row
    send-IsSkipped locals d [] cloud h o = h
    send-IsSkipped locals foreign_key_violation (r ∷ rs) cloud h o = h
    send-IsSkipped locals rolled_back (r ∷ rs) cloud h o = h
    send-IsSkipped locals committed (r ∷ rs) cloud h o = written locals r rs cloud h o
    send-IsSkipped locals unacknowledged (r ∷ rs) cloud h o = written locals r rs cloud h o

    -- The promise of the copy is broken for these rows.
    sync_table-IsSkipped :
        (local : List (Row K A)) (rest : List (List (Row K A))) (w : Weather) (cloud : Replica K A)
        → IsSkipped (local ∷ rest) cloud
        → IsSkipped (local ∷ rest) (sync_table batch w table local cloud).0
    unfolding sync_table
    sync_table-IsSkipped local rest w cloud h =
        let c = cursor_value_of table cloud.cursor in
        if_ind (λ (s : Step K A). IsSkipped (local ∷ rest) s.0) (not w.position_readable) (λ _. h)
          (λ _.
            if_ind (λ (s : Step K A). IsSkipped (local ∷ rest) s.0) (not w.local_readable) (λ _. h)
              (λ _.
                send-IsSkipped (local ∷ rest) w.delivery _ cloud h
                  (read_batch-IsFresh (λ r. is_behind c r ≡ true) c local h.behind.0 batch table)))

    cycles-absent :
        (turns : List (TableTurn K A)) (cloud : Replica K A)
        → IsSkipped (map (λ turn. turn.local) turns) cloud
        → All IsOther (cycles batch table turns cloud).rows
    unfolding cycles
    cycles-absent [] cloud h = h.absent
    cycles-absent (turn ∷ turns) cloud h =
        let after = sync_table-IsSkipped turn.local _ turn.weather cloud h in
        cycles-absent turns _ (record { absent = after.absent; behind = after.behind.1 })

    -- If the replica has no row with a key, and at every cycle every local row with that key has a
    -- position that the cursor has reached now, then no number of cycles sends a row with that key,
    -- whatever happens in them and whatever else changes in the local table.
    pub cycles-row_at-none :
        (turns : List (TableTurn K A)) (cloud : Replica K A)
        → row_at k cloud.rows ≡ none
        → All
            (λ turn. All (λ r. is_behind (cursor_value_of table cloud.cursor) r ≡ true) turn.local)
            turns
        → row_at k (cycles batch table turns cloud).rows ≡ none
    cycles-row_at-none turns cloud absent behind = row_at-none _ (
        cycles-absent turns cloud (record {
          absent = none_of_them cloud.rows absent;
          behind =
              All-map (All (λ r. is_behind (cursor_value_of table cloud.cursor) r ≡ true))
                (λ turn. turn.local) turns behind;
        }))
