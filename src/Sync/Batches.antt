-- ===== src/Sync/Batches.antt =====
-- What one batch leaves in the replica, for each key: `send_batch` of
-- src/tasker_rfid/services/sync/service.py, for the tables that are read by updated_at.
use tasker_rfid.Prelude.{
  ◌≡◌, refl, sym, ap, ◌∙◌, Bool, true, false, Option, none, some, List, [], ◌∷◌, map, Eq, ◌==◌,
  if◌then◌else◌, if_ind, arith,
}
use tasker_rfid.Sync.Tables.{SyncedTable, Row, row_at}
use tasker_rfid.Sync.Write.{upsert, upsert_all, set_parent, set_parents, without_parent, write_rows}

abbrev pub or_else : {A : Type 0} → Option A → Option A → Option A
or_else none o = o
or_else (some a) o = some a

or_else_assoc :
    {A : Type 0} → (a b c : Option A) → or_else (or_else a b) c ≡ or_else a (or_else b c)
or_else_assoc none b c = refl
or_else_assoc (some x) b c = refl

module _ {K A : Type 0} ⦃e : Eq K⦄ where
  -- The last row of a batch with a key.
  abbrev pub last_row : K → List (Row K A) → Option (Row K A)
  last_row k [] = none
  last_row k (r ∷ rs) = or_else (last_row k rs) (if r.key == k then some r else none)

  abbrev with_parent : Row K A → Row K A → Row K A
  with_parent r x = record x { parent_id = r.parent_id }

  -- The parent that a row gets.
  abbrev adopt : Option (Row K A) → Option (Row K A) → Option (Row K A)
  adopt none o = o
  adopt (some r) none = none
  adopt (some r) (some x) = some (with_parent r x)

  adopt-or_else : (f g o : Option (Row K A)) → adopt (or_else f g) o ≡ adopt f (adopt g o)
  adopt-or_else none g o = refl
  adopt-or_else (some r) none o = refl
  adopt-or_else (some r) (some s) none = refl
  adopt-or_else (some r) (some s) (some x) = refl

  module _ (k : K) where
    row_at-upsert :
        (r : Row K A) (xs : List (Row K A))
        → row_at k (upsert false r xs) ≡ (if r.key == k then some r else row_at k xs)
    unfolding row_at upsert
    row_at-upsert r [] = refl
    row_at-upsert r (x ∷ xs) =
        ground
          (arith, row_at-upsert r xs, e.beq_iff x.key r.key, e.beq_iff r.key k, e.beq_iff x.key k)

    row_at-set_parent :
        (r : Row K A) (xs : List (Row K A))
        → row_at k (set_parent r xs) ≡ adopt (if r.key == k then some r else none) (row_at k xs)
    unfolding row_at set_parent
    row_at-set_parent r [] = ground arith
    row_at-set_parent r (x ∷ xs) =
        go (x.key == r.key) (r.key == k) (λ h. ap (λ y. y == k) ((e.beq_iff x.key r.key).0 h))
          (λ h b. ground (arith, e.beq_iff x.key r.key, e.beq_iff r.key k, e.beq_iff x.key k))
          (row_at-set_parent r xs)
      where
        same_row :
            (b c : Bool) (o' o : Option (Row K A))
            → c ≡ b
            → o' ≡ adopt (if b then some r else none) o
            → (if c then some (with_parent r x) else o')
              ≡ adopt (if b then some r else none) (if c then some x else o)
        same_row true true o' o h k = refl
        same_row false false o' o h k = k
        same_row true false o' o h k = ground arith
        same_row false true o' o h k = ground arith

        other_row :
            (b c : Bool) (o' o : Option (Row K A))
            → (b ≡ true → c ≡ false)
            → o' ≡ adopt (if b then some r else none) o
            → (if c then some x else o')
              ≡ adopt (if b then some r else none) (if c then some x else o)
        other_row true true o' o h k = ground (arith, h refl)
        other_row false true o' o h k = refl
        other_row true false o' o h k = k
        other_row false false o' o h k = k

        go :
            (a b : Bool)
            → (a ≡ true → (x.key == k) ≡ b)
            → (a ≡ false → b ≡ true → (x.key == k) ≡ false)
            → {o' : Option (Row K A)} → o' ≡ adopt (if b then some r else none) (row_at k xs)
            → (if (if a then with_parent r x else x).key == k
                then some (if a then with_parent r x else x)
                else o')
              ≡ adopt (if b then some r else none) (if x.key == k then some x else row_at k xs)
        go true b same other {o'} ih = same_row b (x.key == k) o' (row_at k xs) (same refl) ih
        go false b same other {o'} ih = other_row b (x.key == k) o' (row_at k xs) (other refl) ih

    row_at-upsert_all :
        (rs xs : List (Row K A))
        → row_at k (upsert_all false rs xs) ≡ or_else (last_row k rs) (row_at k xs)
    unfolding upsert_all
    row_at-upsert_all [] xs = refl
    row_at-upsert_all (r ∷ rs) xs =
        row_at-upsert_all rs (upsert false r xs)
        ∙ ap (or_else (last_row k rs)) (row_at-upsert r xs ∙ pick (r.key == k))
        ∙ sym (or_else_assoc (last_row k rs) (if r.key == k then some r else none) (row_at k xs))
      where
        pick :
            (b : Bool)
            → (if b then some r else row_at k xs)
              ≡ or_else (if b then some r else none) (row_at k xs)
        pick true = refl
        pick false = refl

    row_at-set_parents :
        (rs xs : List (Row K A))
        → row_at k (set_parents rs xs) ≡ adopt (last_row k rs) (row_at k xs)
    unfolding set_parents
    row_at-set_parents [] xs = refl
    row_at-set_parents (r ∷ rs) xs =
        row_at-set_parents rs (set_parent r xs)
        ∙ ap (adopt (last_row k rs)) (row_at-set_parent r xs)
        ∙ sym (adopt-or_else (last_row k rs) (if r.key == k then some r else none) (row_at k xs))

    -- The row as the first pass writes it.
    abbrev bare : Option (Row K A) → Option (Row K A)
    bare none = none
    bare (some r) = some (without_parent r)

    last_row-without_parent :
        (rs : List (Row K A)) → last_row k (map without_parent rs) ≡ bare (last_row k rs)
    last_row-without_parent [] = refl
    last_row-without_parent (r ∷ rs) =
        ap (λ o. or_else o (if r.key == k then some (without_parent r) else none))
          (last_row-without_parent rs)
        ∙ bare_or (last_row k rs) (r.key == k)
      where
        bare_or :
            (o : Option (Row K A)) (b : Bool)
            → or_else (bare o) (if b then some (without_parent r) else none)
              ≡ bare (or_else o (if b then some r else none))
        bare_or none true = refl
        bare_or none false = refl
        bare_or (some x) b = refl

    adopt-bare : (f o : Option (Row K A)) → adopt f (or_else (bare f) o) ≡ or_else f o
    adopt-bare none o = refl
    adopt-bare (some r) o = refl

    -- After a batch of a table that is read by updated_at, the row of each key is the batch's last
    -- row with that key, its parent included, or what was there if the batch has none: also where
    -- the rows go in without their parents first and the parents are set in a second pass.
    pub row_at-write_rows :
        (table : SyncedTable) (rs old : List (Row K A))
        → table.by_id ≡ false
        → row_at k (write_rows table rs old) ≡ or_else (last_row k rs) (row_at k old)
    unfolding write_rows
    row_at-write_rows table rs old h =
        let in_passes = λ (by_id : Bool). row_at k (
          if table.self_referencing
          then set_parents rs (upsert_all by_id (map without_parent rs) old)
          else upsert_all by_id rs old) in
        ap in_passes h
        ∙ if_ind (λ t. row_at k t ≡ or_else (last_row k rs) (row_at k old)) table.self_referencing
            (λ _.
              row_at-set_parents rs _
              ∙ ap (adopt (last_row k rs)) (
                  row_at-upsert_all (map without_parent rs) old
                  ∙ ap (λ f. or_else f (row_at k old)) (last_row-without_parent rs))
              ∙ adopt-bare (last_row k rs) (row_at k old))
            (λ _. row_at-upsert_all rs old)

    -- A batch whose answer was lost, and that is sent again, leaves the row of every key as the
    -- first time.
    pub row_at-write_rows_again :
        (table : SyncedTable) (rs old : List (Row K A))
        → table.by_id ≡ false
        → row_at k (write_rows table rs (write_rows table rs old))
          ≡ row_at k (write_rows table rs old)
    unfolding write_rows
    row_at-write_rows_again table rs old h =
        row_at-write_rows table rs _ h
        ∙ ap (or_else (last_row k rs)) (row_at-write_rows table rs old h)
        ∙ twice (last_row k rs)
        ∙ sym (row_at-write_rows table rs old h)
      where
        twice :
            (o : Option (Row K A)) → or_else o (or_else o (row_at k old)) ≡ or_else o (row_at k old)
        twice none = refl
        twice (some r) = refl
