-- ===== src/Simulator/Sorting.antt =====
-- `list.sort` changes the order only.
use tasker_rfid.Prelude.{ℕ, ◌+◌, ◌≡◌, refl, List, [], ◌∷◌, arith, leb, All, Bool-cases, inl, inr}
use tasker_rfid.Prelude.Sums.{total}
use tasker_rfid.Simulator.{insert_at, sort_at}

module _ {A : Type 0} (at : A → ℕ) where
  insert_at-total :
      (f : A → ℕ) (x : A) (xs : List A) → total f (insert_at at x xs) ≡ f x + total f xs
  unfolding insert_at
  insert_at-total f x [] = refl
  insert_at-total f x (y ∷ ys) = ground (arith, insert_at-total f x ys)

  pub sort_at-total : (f : A → ℕ) (xs : List A) → total f (sort_at at xs) ≡ total f xs
  unfolding sort_at
  sort_at-total f [] = refl
  sort_at-total f (x ∷ xs) = omega (arith, insert_at-total f x (sort_at at xs), sort_at-total f xs)

  insert_at-All :
      (P : A → Type 0) (x : A) (xs : List A) → P x → All P xs → All P (insert_at at x xs)
  unfolding insert_at
  insert_at-All P x [] p h = (p, tt)
  insert_at-All P x (y ∷ ys) p h = elim (Bool-cases (leb (at x) (at y))) [
    | inl e ↦ rw e (p, h)
    | inr e ↦ rw e (h.0, insert_at-All P x ys p h.1)
  ]

  pub sort_at-All : (P : A → Type 0) (xs : List A) → All P xs → All P (sort_at at xs)
  unfolding sort_at
  sort_at-All P [] h = tt
  sort_at-All P (x ∷ xs) h = insert_at-All P x (sort_at at xs) h.0 (sort_at-All P xs h.1)
