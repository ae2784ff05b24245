-- ===== src/Sync/Serial.antt =====
-- Rows in the order of their ids, which are their keys: what sorting and upserts do to them.
use tasker_rfid.Prelude.{
  ℕ, ◌≤◌, ◌<◌, ◌≡◌, refl, sym, ap, ◌∙◌, Bool, List, [], ◌∷◌, ◌++◌, arith, nat_eq, if_ind, select,
  All, All-append, All-select, All-imp, leb,
}
use mathlib.Core.List.{append_assoc, append-nil}
use tasker_rfid.Prelude.Pages
use tasker_rfid.Sync.Tables.{Row}
use tasker_rfid.Sync.Read.{insert_by_position, order_by_position}
use tasker_rfid.Sync.Write.{upsert, upsert_all}

module _ {A : Type 0} where
  abbrev pub position : Row ℕ A → ℕ
  position r = r.position

  -- The key of the row is the id that the cursor goes by.
  abbrev pub IsOwnKey : Row ℕ A → Type 0
  IsOwnKey r = r.key ≡ r.position

  -- The ids go up, and are the keys.
  pub record IsSerial (local : List (Row ℕ A)) : Type 0 where
    pub rising : Pages.Rising position 0 local
    pub own : All IsOwnKey local

  insert_by_position_first :
      (c : ℕ) (r : Row ℕ A) (rs : List (Row ℕ A))
      → Pages.Rising position c (r ∷ rs)
      → insert_by_position r rs ≡ r ∷ rs
  unfolding insert_by_position
  insert_by_position_first c r [] h = refl
  insert_by_position_first c r (x ∷ xs) h = ground arith

  pub order_of_Rising :
      (c : ℕ) (rs : List (Row ℕ A)) → Pages.Rising position c rs → order_by_position rs ≡ rs
  unfolding order_by_position
  order_of_Rising c [] h = refl
  order_of_Rising c (r ∷ rs) h =
      ap (insert_by_position r) (order_of_Rising r.position rs h.1)
      ∙ insert_by_position_first c r rs h

  upsert_new :
      (by_id : Bool) (r : Row ℕ A) (xs : List (Row ℕ A))
      → All (λ x. x.key < r.key) xs
      → upsert by_id r xs ≡ xs ++ r ∷ []
  unfolding upsert
  upsert_new by_id r [] h = refl
  upsert_new by_id r (x ∷ xs) h = ground (arith, upsert_new by_id r xs)

  pub upsert_all_new :
      (by_id : Bool) (c : ℕ) (rs xs : List (Row ℕ A))
      → All (λ x. x.key ≤ c) xs
      → Pages.Rising position c rs
      → All IsOwnKey rs
      → upsert_all by_id rs xs ≡ xs ++ rs
  unfolding upsert_all
  upsert_all_new by_id c [] xs h rising own = sym (append-nil xs)
  upsert_all_new by_id c (r ∷ rs) xs h rising own =
      rw (upsert_new by_id r xs (All-imp _ _ xs (λ x k. omega (arith, own.0, rising.0)) h)) (
        upsert_all_new by_id r.position rs (xs ++ r ∷ [])
          (All-append _ xs (r ∷ []) (All-imp _ _ xs (λ x k. omega (arith, rising.0)) h)
            (omega (arith, own.0), tt))
          rising.1 own.1
        ∙ append_assoc xs (r ∷ []) rs)

  pub passed-le :
      (c : ℕ) (rs : List (Row ℕ A))
      → All IsOwnKey rs
      → All (λ x. x.key ≤ c) (Pages.passed position c rs)
  passed-le c [] own = tt
  passed-le c (r ∷ rs) own =
      if_ind (All (λ x. x.key ≤ c)) (leb r.position c)
        (λ e. (ground (arith, own.0), passed-le c rs own.1)) (λ _. passed-le c rs own.1)

  pub select-own :
      (p : Row ℕ A → Bool) (rs : List (Row ℕ A)) → All IsOwnKey rs → All IsOwnKey (select p rs)
  select-own p rs own = All-select IsOwnKey p rs own
