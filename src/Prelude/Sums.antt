-- ===== src/Prelude/Sums.antt =====
-- Sums over lists, SQL's GROUP BY with SUM, and ORDER BY.
use Prim.Native.Nat.{ℕ, ◌+◌, ◌≤◌}
use mathlib.Core.Path.{◌≡◌, refl, sym, ap, ◌∙◌}
use mathlib.Core.Bool.{Bool, false}
use mathlib.Core.List.{List, [], ◌∷◌, ◌++◌, map}
use native.Mathlib.Omega.{arith}
use tasker_rfid.Prelude.Tests.{if◌then◌else◌, Eq, ◌==◌}
use tasker_rfid.Prelude.Lists.{select, flat_map, All, All-imp, length}
use tasker_rfid.Prelude.Dict.{Dict}

-- `n` if the test holds, and else nothing.
abbrev pub only_if : Bool → ℕ → ℕ
only_if b n = if b then n else 0

module _ {ℓ} {A : Type ℓ} where
  abbrev pub total : (A → ℕ) → List A → ℕ
  total f [] = 0
  total f (x ∷ xs) = f x + total f xs

  pub total-append : (f : A → ℕ) (xs ys : List A) → total f (xs ++ ys) ≡ total f xs + total f ys
  total-append f [] ys = omega arith
  total-append f (x ∷ xs) ys = omega (arith, total-append f xs ys)

  pub total-eq_of_All :
      (f g : A → ℕ) (xs : List A) → All (λ x. f x ≡ g x) xs → total f xs ≡ total g xs
  total-eq_of_All f g [] h = refl
  total-eq_of_All f g (x ∷ xs) h = omega (arith, h.0, total-eq_of_All f g xs h.1)

  pub total_congr : (f g : A → ℕ) (xs : List A) → ((x : A) → f x ≡ g x) → total f xs ≡ total g xs
  total_congr f g [] h = refl
  total_congr f g (x ∷ xs) h = omega (arith, h x, total_congr f g xs h)

  pub total-zero : (xs : List A) → total (λ _. 0) xs ≡ 0
  total-zero [] = refl
  total-zero (x ∷ xs) = omega (arith, total-zero xs)

  pub total_alone : (q : ℕ) (xs : List A) → length xs ≡ 1 → total (λ _. q) xs ≡ q
  total_alone q [] h = ground arith
  total_alone q (x ∷ []) h = omega arith
  total_alone q (x ∷ y ∷ xs) h = ground arith

  pub total-add : (f g : A → ℕ) (xs : List A) → total (λ x. f x + g x) xs ≡ total f xs + total g xs
  total-add f g [] = refl
  total-add f g (x ∷ xs) = omega (arith, total-add f g xs)

  pub total-select :
      (f : A → ℕ) (p : A → Bool) (xs : List A)
      → total f (select p xs) ≡ total (λ x. only_if (p x) (f x)) xs
  total-select f p [] = refl
  total-select f p (x ∷ xs) = ground (arith, total-select f p xs)

  -- Under a test that does not depend on the element.
  pub total-only_if :
      (b : Bool) (f : A → ℕ) (xs : List A)
      → total (λ x. only_if b (f x)) xs ≡ only_if b (total f xs)
  total-only_if b f [] = ground arith
  total-only_if b f (x ∷ xs) = ground (arith, total-only_if b f xs)

module _ {ℓ κ} {A : Type ℓ} {B : Type κ} where
  pub total-map :
      (f : B → ℕ) (g : A → B) (xs : List A) → total f (map g xs) ≡ total (λ x. f (g x)) xs
  total-map f g [] = refl
  total-map f g (x ∷ xs) = omega (arith, total-map f g xs)

  pub total-flat_map :
      (f : B → ℕ) (g : A → List B) (xs : List A)
      → total f (flat_map g xs) ≡ total (λ x. total f (g x)) xs
  total-flat_map f g [] = refl
  total-flat_map f g (x ∷ xs) =
      omega (arith, total-append f (g x) (flat_map g xs), total-flat_map f g xs)

  pub total_comm :
      (f : A → B → ℕ) (xs : List A) (ys : List B)
      → total (λ x. total (f x) ys) xs ≡ total (λ y. total (λ x. f x y) xs) ys
  total_comm f [] ys = omega (arith, total-zero ys)
  total_comm f (x ∷ xs) ys =
      omega (arith, total_comm f xs ys, total-add (f x) (λ y. total (λ x'. f x' y) xs) ys)

-- SELECT k, SUM(q) … GROUP BY k, on the rows (k, q).
module _ {ℓ} {K : Type ℓ} ⦃e : Eq K⦄ where
  unfoldable pub add_sum : K → ℕ → Dict K ℕ → Dict K ℕ
  add_sum k q [] = (k, q) ∷ []
  add_sum k q ((j, n) ∷ d) = if j == k then (j, n + q) ∷ d else (j, n) ∷ add_sum k q d

  unfoldable pub group_sums : List (K × ℕ) → Dict K ℕ
  unfolding add_sum
  group_sums [] = []
  group_sums ((k, q) ∷ rows) = add_sum k q (group_sums rows)

  -- The part of the sums that belongs to the keys that pass a test.
  abbrev pub sum_where : (K → Bool) → List (K × ℕ) → ℕ
  sum_where p = total (λ r. only_if (p r.0) r.1)

  add_sum-sum_where :
      (p : K → Bool) (k : K) (q : ℕ) (d : Dict K ℕ)
      → sum_where p (add_sum k q d) ≡ only_if (p k) q + sum_where p d
  unfolding add_sum
  add_sum-sum_where p k q [] = refl
  add_sum-sum_where p k q ((j, n) ∷ d) = ground (arith, e.beq_iff j k, add_sum-sum_where p k q d)

  -- Grouping loses nothing and adds nothing, whichever groups are looked at.
  pub group_sums-sum_where :
      (p : K → Bool) (rows : List (K × ℕ)) → sum_where p (group_sums rows) ≡ sum_where p rows
  unfolding group_sums
  group_sums-sum_where p [] = refl
  group_sums-sum_where p ((k, q) ∷ rows) =
      omega (arith, add_sum-sum_where p k q (group_sums rows), group_sums-sum_where p rows)

  abbrev pub times : K → Dict K ℕ → ℕ
  times k = total (λ r. only_if (r.0 == k) 1)

  add_sum-times_self : (k : K) (q : ℕ) (d : Dict K ℕ) → times k d ≤ 1 → times k (add_sum k q d) ≡ 1
  unfolding add_sum
  add_sum-times_self k q [] h = ground (arith, e.beq_iff k k)
  add_sum-times_self k q ((j, n) ∷ d) h = ground (arith, e.beq_iff j k, add_sum-times_self k q d)

  add_sum-times_other :
      (k j : K) (q : ℕ) (d : Dict K ℕ) → (j == k) ≡ false → times k (add_sum j q d) ≡ times k d
  unfolding add_sum
  add_sum-times_other k j q [] h = ground arith
  add_sum-times_other k j q ((i, n) ∷ d) h =
      ground (arith, e.beq_iff i j, e.beq_iff i k, e.beq_iff j k, add_sum-times_other k j q d)

  -- Each key has one line at most.
  pub group_sums-times : (k : K) (rows : List (K × ℕ)) → times k (group_sums rows) ≤ 1
  unfolding group_sums
  group_sums-times k [] = omega arith
  group_sums-times k ((j, q) ∷ rows) = ground (
    arith,
    e.beq_iff j k,
    group_sums-times k rows,
    add_sum-times_self j q (group_sums rows),
    add_sum-times_other k j q (group_sums rows),
  )

-- ORDER BY, with a test for `may stand before`: a stable insertion sort.
module _ {ℓ} {A : Type ℓ} (before : A → A → Bool) where
  unfoldable pub insert_by : A → List A → List A
  insert_by x [] = x ∷ []
  insert_by x (y ∷ ys) = if before x y then x ∷ y ∷ ys else y ∷ insert_by x ys

  unfoldable pub sort_by : List A → List A
  unfolding insert_by
  sort_by [] = []
  sort_by (x ∷ xs) = insert_by x (sort_by xs)

  insert_by-total : (f : A → ℕ) (x : A) (xs : List A) → total f (insert_by x xs) ≡ f x + total f xs
  unfolding insert_by
  insert_by-total f x [] = refl
  insert_by-total f x (y ∷ ys) = ground (arith, insert_by-total f x ys)

  -- The order does not change what the rows add up to.
  pub sort_by-total : (f : A → ℕ) (xs : List A) → total f (sort_by xs) ≡ total f xs
  unfolding sort_by
  sort_by-total f [] = refl
  sort_by-total f (x ∷ xs) = omega (arith, insert_by-total f x (sort_by xs), sort_by-total f xs)

-- A join on a key. `matched` is what the joined rows with key `k` add up to.
module _ {ℓ κ} {A : Type ℓ} {K : Type κ} ⦃e : Eq K⦄ (key : A → K) where
  abbrev pub matched : K → K → ℕ → List A → ℕ
  matched k other q = total (λ x. only_if (key x == other) (only_if (key x == k) q))

  matched_none :
      (k other : K) (q : ℕ) (xs : List A)
      → length (select (λ x. key x == k) xs) ≡ 0
      → matched k other q xs ≡ 0
  matched_none k other q [] h = refl
  matched_none k other q (x ∷ xs) h = ground (arith, matched_none k other q xs)

  -- If one row has the key, then a row of another table that refers to it is joined once.
  pub matched_once :
      (k other : K) (q : ℕ) (xs : List A)
      → length (select (λ x. key x == k) xs) ≡ 1
      → matched k other q xs ≡ only_if (other == k) q
  matched_once k other q [] h = ground arith
  matched_once k other q (x ∷ xs) h = ground (
    arith,
    e.beq_iff (key x) other,
    e.beq_iff (key x) k,
    e.beq_iff other k,
    matched_none k other q xs,
    matched_once k other q xs,
  )

  -- One row has the key `k`, and it is the row of that name, which no other row has.
  abbrev pub IsNamed : (A → K) → K → K → List A → Type 0
  IsNamed name n k xs =
      (length (select (λ x. key x == k) xs) ≡ 1) × All (λ x. (key x == k) ≡ (name x == n)) xs

  pub named_once :
      (name : A → K) (n k other : K) (q : ℕ) (xs : List A)
      → IsNamed name n k xs
      → total (λ x. only_if (key x == other) (only_if (name x == n) q)) xs ≡ only_if (other == k) q
  named_once name n k other q xs h =
      total-eq_of_All _ (λ x. only_if (key x == other) (only_if (key x == k) q)) xs
        (All-imp _ _ xs (λ x same. ap (λ b. only_if (key x == other) (only_if b q)) (sym same)) h.1)
      ∙ matched_once k other q xs h.0
