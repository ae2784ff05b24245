-- ===== src/Prelude/Lists.antt =====
-- Lists by Boolean tests and native lengths; predicates that compute to tuples.
use Prim.Native.Nat.{ℕ, zero, suc, ◌+◌, ◌-◌, ◌≤◌}
use mathlib.Core.Path.{◌≡◌, refl, ap}
use mathlib.Core.Bool.{Bool, true, false, ◌||◌}
use mathlib.Core.List.{List, [], ◌∷◌, ◌++◌, map}
use native.Mathlib.Omega.{arith}
use tasker_rfid.Prelude.Tests.{if◌then◌else◌, Eq, ◌==◌}

module _ {ℓ} {A : Type ℓ} where
  abbrev pub length : List A → ℕ
  length [] = 0
  length (x ∷ xs) = suc (length xs)

  -- The rows that pass a test.
  abbrev pub select : (A → Bool) → List A → List A
  select p [] = []
  select p (x ∷ xs) = if p x then x ∷ select p xs else select p xs

  abbrev pub take : ℕ → List A → List A
  take zero xs = []
  take (suc n) [] = []
  take (suc n) (x ∷ xs) = x ∷ take n xs

  -- `rows[-1]`'s value, or `c` if there is none.
  abbrev pub last_at : (A → ℕ) → ℕ → List A → ℕ
  last_at at c [] = c
  last_at at c (x ∷ xs) = last_at at (at x) xs

  abbrev pub any : (A → Bool) → List A → Bool
  any p [] = false
  any p (x ∷ xs) = p x || any p xs

  abbrev pub All {κ} : (A → Type κ) → List A → Type κ
  All P [] = Unit
  All P (x ∷ xs) = P x × All P xs

  pub length-append : (xs ys : List A) → length (xs ++ ys) ≡ length xs + length ys
  length-append [] ys = omega arith
  length-append (x ∷ xs) ys = omega (arith, length-append xs ys)

  pub length-take : (n : ℕ) (xs : List A) → length (take n xs) + (length xs - n) ≡ length xs
  length-take zero xs = omega arith
  length-take (suc n) [] = omega arith
  length-take (suc n) (x ∷ xs) = omega (arith, length-take n xs)

  pub length-select_yes :
      (p : A → Bool) (x : A) (xs : List A)
      → p x ≡ true
      → length (select p (x ∷ xs)) ≡ suc (length (select p xs))
  length-select_yes p x xs e = ground arith

  pub length-select_no :
      (p : A → Bool) (x : A) (xs : List A)
      → p x ≡ false
      → length (select p (x ∷ xs)) ≡ length (select p xs)
  length-select_no p x xs e = ground arith

  pub length-select-le : (p : A → Bool) (xs : List A) → length (select p xs) ≤ length xs
  length-select-le p [] = omega arith
  length-select-le p (x ∷ xs) = ground (arith, length-select-le p xs)

  pub All-append {κ} : (P : A → Type κ) (xs ys : List A) → All P xs → All P ys → All P (xs ++ ys)
  All-append P [] ys left right = right
  All-append P (z ∷ zs) ys left right = (left.0, All-append P zs ys left.1 right)

  pub All-imp {κ μ} :
      (P : A → Type κ) (Q : A → Type μ) (xs : List A) → ((x : A) → P x → Q x) → All P xs → All Q xs
  All-imp P Q [] f h = tt
  All-imp P Q (x ∷ xs) f h = (f x h.0, All-imp P Q xs f h.1)

  pub take-All {κ} : (P : A → Type κ) (n : ℕ) (xs : List A) → All P xs → All P (take n xs)
  take-All P zero xs h = tt
  take-All P (suc n) [] h = tt
  take-All P (suc n) (x ∷ xs) h = (h.0, take-All P n xs h.1)

  pub All-zip {μ ν} :
      (P : A → Type μ) (Q : A → Type ν) (xs : List A)
      → All P xs
      → All Q xs
      → All (λ x. P x × Q x) xs
  All-zip P Q [] hp hq = tt
  All-zip P Q (x ∷ xs) hp hq = ((hp.0, hq.0), All-zip P Q xs hp.1 hq.1)

  pub All-select {κ} :
      (P : A → Type κ) (p : A → Bool) (xs : List A) → All P xs → All P (select p xs)
  All-select P p [] h = tt
  All-select P p (x ∷ xs) h = keep (p x) h.0 (All-select P p xs h.1)
    where
      keep :
          (b : Bool)
          → P x
          → All P (select p xs)
          → All P (if b then x ∷ select p xs else select p xs)
      keep true hx hs = (hx, hs)
      keep false hx hs = hs

module _ {ℓ κ} {A : Type ℓ} {B : Type κ} where
  pub length-map : (f : A → B) (xs : List A) → length (map f xs) ≡ length xs
  length-map f [] = refl
  length-map f (x ∷ xs) = ap suc (length-map f xs)

  pub All-map {μ} :
      (P : B → Type μ) (f : A → B) (xs : List A) → All (λ x. P (f x)) xs → All P (map f xs)
  All-map P f [] h = tt
  All-map P f (x ∷ xs) h = (h.0, All-map P f xs h.1)

  abbrev pub flat_map : (A → List B) → List A → List B
  flat_map f [] = []
  flat_map f (x ∷ xs) = f x ++ flat_map f xs

-- Membership as Python's `in`.
abbrev pub elem {ℓ} : {A : Type ℓ} ⦃e : Eq A⦄ → A → List A → Bool
elem a = any (λ x. x == a)

module _ {ℓ κ} {A : Type ℓ} {B : Type κ} where
  -- Two maps that agree on the elements of a list.
  pub map-eq_of_All : (f g : A → B) (xs : List A) → All (λ x. f x ≡ g x) xs → map f xs ≡ map g xs
  map-eq_of_All f g [] h = refl
  map-eq_of_All f g (x ∷ xs) h = λ i. h.0 i ∷ map-eq_of_All f g xs h.1 i

  pub All-flat_map {μ} :
      (P : B → Type μ) (f : A → List B) (xs : List A)
      → ((x : A) → All P (f x))
      → All P (flat_map f xs)
  All-flat_map P f [] h = tt
  All-flat_map P f (x ∷ xs) h = All-append P (f x) _ (h x) (All-flat_map P f xs h)
