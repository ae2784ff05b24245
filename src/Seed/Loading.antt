-- ===== src/Seed/Loading.antt =====
-- Seeding twice is seeding once.
use tasker_rfid.Prelude.{
  ℕ, ◌+◌, ◌≡◌, refl, sym, ap, ◌∙◌, subst, String, Bool, true, false, Option, none, some, List, [],
  ◌∷◌, ◌++◌, map, elem, true≢false, string_eq, ◌==◌, if◌then◌else◌, Bool-cases, inl, inr, All,
  arith, eq_iff,
}
use tasker_rfid.Prelude.Results.{Result, ok, err, ok-injective}
use tasker_rfid.Seed.{
  Stop, problems, value_error, check_raises, Texts, SkuRow, CustomerRow, Problem, Sku, Customer,
  key_problem, sku_problems, check_skus_from, check_skus, customer_problems, check_customers_from,
  check_customers, sku_params, customer_params, upsert, upsert_all, Tables, sku_key, customer_key,
  seed,
}

module _ {A : Type 0} (key : A → String) where
  -- The row of a key.
  abbrev pub row_of : String → List A → Option A
  row_of k [] = none
  row_of k (x ∷ xs) = if key x == k then some x else row_of k xs

  -- No two rows have one key, nor one of those that came before.
  abbrev pub AllNew : List String → List A → Type 0
  AllNew seen [] = Unit
  AllNew seen (r ∷ rs) = (elem (key r) seen ≡ false) × AllNew (key r ∷ seen) rs

  row_of-upsert : (r : A) (xs : List A) → row_of (key r) (upsert key r xs) ≡ some r
  unfolding upsert
  row_of-upsert r [] = ground (arith, (eq_iff (key r) (key r)).1 refl)
  row_of-upsert r (x ∷ xs) = ground (arith, (eq_iff (key r) (key r)).1 refl, row_of-upsert r xs)

  row_of-upsert_other :
      (k : String) (r : A) (xs : List A)
      → (key r == k) ≡ false
      → row_of k (upsert key r xs) ≡ row_of k xs
  unfolding upsert
  row_of-upsert_other k r [] h = ground (arith, h)
  row_of-upsert_other k r (x ∷ xs) h =
      ground (arith, h, row_of-upsert_other k r xs h, eq_iff (key x) (key r))

  -- Rows with new keys do not touch the row of an old one.
  row_of-upsert_all :
      (k : String) (seen : List String) (rs xs : List A)
      → elem k seen ≡ true
      → AllNew seen rs
      → row_of k (upsert_all key rs xs) ≡ row_of k xs
  unfolding upsert_all
  row_of-upsert_all k seen [] xs h new = refl
  row_of-upsert_all k seen (r ∷ rs) xs h new =
      row_of-upsert_all k (key r ∷ seen) rs (upsert key r xs) (ground (arith, h)) new.1
      ∙ row_of-upsert_other k r xs (elim (Bool-cases (key r == k)) [
        | inl e ↦
            absurd
              (true≢false (sym h ∙ sym (ap (λ x. elem x seen) ((eq_iff (key r) k).0 e)) ∙ new.0))
        | inr e ↦ e
      ])

  -- The rows are all in the table after they have been written.
  upsert_all-row_of :
      (seen : List String) (rs xs : List A)
      → AllNew seen rs
      → All (λ r. row_of (key r) (upsert_all key rs xs) ≡ some r) rs
  unfolding upsert_all
  upsert_all-row_of seen [] xs new = tt
  upsert_all-row_of seen (r ∷ rs) xs new = (
    row_of-upsert_all (key r) (key r ∷ seen) rs (upsert key r xs)
          (ground (arith, (eq_iff (key r) (key r)).1 refl)) new.1
        ∙ row_of-upsert r xs,
    upsert_all-row_of (key r ∷ seen) rs (upsert key r xs) new.1,
  )

  -- A row that is there already changes nothing.
  upsert_same : (r : A) (xs : List A) → row_of (key r) xs ≡ some r → upsert key r xs ≡ xs
  unfolding upsert
  upsert_same r [] h = cc
  upsert_same r (x ∷ xs) h = ground (arith, h, upsert_same r xs)

  upsert_all_same :
      (rs xs : List A) → All (λ r. row_of (key r) xs ≡ some r) rs → upsert_all key rs xs ≡ xs
  unfolding upsert_all
  upsert_all_same [] xs h = refl
  upsert_all_same (r ∷ rs) xs h =
      ap (upsert_all key rs) (upsert_same r xs h.0) ∙ upsert_all_same rs xs h.1

module _ {A : Type 0} where
  nil_of_append : (xs ys : List A) → xs ++ ys ≡ [] → (xs ≡ []) × (ys ≡ [])
  nil_of_append [] ys e = (refl, e)
  nil_of_append (x ∷ xs) ys e = cc

new_key :
    (n : ℕ) (key : String) (seen : List String)
    → key_problem n key seen ≡ []
    → elem key seen ≡ false
new_key n key seen e = ground (arith, e)

module _ (texts : Texts) where
  skus-AllNew :
      (n : ℕ) (seen : List String) (rows : List SkuRow)
      → check_skus_from texts n seen rows ≡ []
      → AllNew sku_key seen (map (sku_params texts) rows)
  unfolding check_skus_from sku_params sku_problems
  skus-AllNew n seen [] e = tt
  skus-AllNew n seen (row ∷ rows) e =
      let (here, later) = nil_of_append (sku_problems texts n seen row) _ e in
      (
        new_key n row.sku_id seen (nil_of_append (key_problem n row.sku_id seen) _ here).0,
        skus-AllNew (n + 1) (row.sku_id ∷ seen) rows later,
      )

  customers-AllNew :
      (n : ℕ) (seen : List String) (rows : List CustomerRow)
      → check_customers_from texts n seen rows ≡ []
      → AllNew customer_key seen (map (customer_params texts) rows)
  unfolding check_customers_from customer_params customer_problems
  customers-AllNew n seen [] e = tt
  customers-AllNew n seen (row ∷ rows) e =
      let (here, later) = nil_of_append (customer_problems texts n seen row) _ e in
      (
        new_key n row.customer_id seen
            (nil_of_append (key_problem n row.customer_id seen) _ here).0,
        customers-AllNew (n + 1) (row.customer_id ∷ seen) rows later,
      )

  -- What has been loaded.
  pub record IsLoaded (skus : List SkuRow) (customers : List CustomerRow) (t t' : Tables)
      : Type 0 where
    pub skus_there :
        All (λ (s : Sku). row_of sku_key s.sku_id t'.skus ≡ some s) (map (sku_params texts) skus)
    pub customers_there :
        All
          (λ (c : Customer). row_of customer_key c.customer_id t'.customers ≡ some c)
          (map (customer_params texts) customers)

  loaded :
      (skus : List SkuRow) (customers : List CustomerRow) (t t' : Tables)
      → seed texts skus customers t ≡ ok t'
      → IsLoaded skus customers t t' × (seed texts skus customers t' ≡ ok t')
  unfolding seed
  loaded skus customers t t' e =
      go (check_raises texts skus) refl (check_skus texts skus ++ check_customers texts customers)
        refl e
    where
      written : List Sku → List Customer → Tables
      written old old' = record {
        skus = upsert_all sku_key (map (sku_params texts) skus) old;
        customers = upsert_all customer_key (map (customer_params texts) customers) old';
      }

      -- The end of the script, by what the checks gave.
      ended : Bool → List Problem → Tables → Result Stop Tables
      ended b ps t = if b then err value_error else elim ps as (λ _. Result Stop Tables) [
        | p ∷ ps ↦ err (problems (p ∷ ps))
        | [] ↦ ok (written t.skus t.customers)
      ]

      there :
          check_skus texts skus ++ check_customers texts customers ≡ []
          → IsLoaded skus customers t (written t.skus t.customers)
      there h =
          let (good, good') = nil_of_append (check_skus texts skus) _ h in
          record {
            skus_there = upsert_all-row_of sku_key [] _ t.skus (skus-AllNew 2 [] skus good);
            customers_there =
                upsert_all-row_of customer_key [] _ t.customers
                  (customers-AllNew 2 [] customers good');
          }

      same : (new : Tables) → IsLoaded skus customers t new → written new.skus new.customers ≡ new
      same new l = λ i. record {
        skus = upsert_all_same sku_key (map (sku_params texts) skus) new.skus l.skus_there i;
        customers =
            upsert_all_same customer_key (map (customer_params texts) customers) new.customers
              l.customers_there i;
      }

      go :
          (b : Bool)
          → check_raises texts skus ≡ b
          → (ps : List Problem) → check_skus texts skus ++ check_customers texts customers ≡ ps
          → ended b ps t ≡ ok t'
          → IsLoaded skus customers t t' × (seed texts skus customers t' ≡ ok t')
      go true hb ps hp k = cc
      go false hb (p ∷ ps) hp k = cc
      go false hb [] hp k =
          let l = subst (IsLoaded skus customers t) (ok-injective k) (there hp) in
          (
            l,
            ap (λ b. ended b (check_skus texts skus ++ check_customers texts customers) t') hb
                ∙ ap (λ ps. ended false ps t') hp
                ∙ ap ok (same t' l),
          )

  -- If the files are accepted, then every row of them stands in its table with the values of the file.
  pub seed-IsLoaded :
      (skus : List SkuRow) (customers : List CustomerRow) (t t' : Tables)
      → seed texts skus customers t ≡ ok t'
      → IsLoaded skus customers t t'
  seed-IsLoaded skus customers t t' e = (loaded skus customers t t' e).0

  -- Loading the same files again changes no row and adds none.
  pub seed_again :
      (skus : List SkuRow) (customers : List CustomerRow) (t t' : Tables)
      → seed texts skus customers t ≡ ok t'
      → seed texts skus customers t' ≡ ok t'
  seed_again skus customers t t' e = (loaded skus customers t t' e).1
