-- ===== src/Prelude/Members.antt =====
-- The library's membership for the lists that Boolean tests pick.
use mathlib.Core.Logic.Or
use mathlib.Core.Path.{◌≡◌, ◌∙◌, sym, subst}
use mathlib.Core.Logic.{inl, inr}
use mathlib.Core.Bool.{Bool, true}
use mathlib.Core.List.{
  List, [], ◌∷◌, Mem, Mem-prop, not-mem-nil, mem-cons, mem-append, mem-append_left,
  mem-append_right, mem-cons_self, mem-cons_of_mem,
}
use tasker_rfid.Prelude.Tests.{if_ind, Bool-cases, true≢false}
use tasker_rfid.Prelude.Lists.{select, flat_map, All}

module _ {ℓ} {A : Type ℓ} where
  pub mem-select_of_mem :
      (p : A → Bool) (x : A) (xs : List A) → Mem x xs → p x ≡ true → Mem x (select p xs)
  mem-select_of_mem p x [] m e = m
  mem-select_of_mem p x (y ∷ xs) m e =
      Or.elim Mem-prop (mem-cons.0 m)
        (λ same.
          subst (λ (z : A). Mem z (select p (y ∷ xs))) (sym same)
            (if_ind (Mem y) (p y) (λ _. mem-cons_self)
              (λ f. absurd (true≢false (sym (rw same at e) ∙ f)))))
        (λ later.
          if_ind (Mem x) (p y) (λ _. mem-cons_of_mem y (mem-select_of_mem p x xs later e))
            (λ _. mem-select_of_mem p x xs later e))

  -- What is picked was there, and passes the test.
  pub mem-select :
      (p : A → Bool) (x : A) (xs : List A) → Mem x (select p xs) → Mem x xs × (p x ≡ true)
  mem-select p x [] m = absurd (not-mem-nil m)
  mem-select p x (y ∷ xs) m = elim (Bool-cases (p y)) [
    | inl e ↦
        Or.elim (hlevel Mem-prop) (mem-cons.0 (rw e at m))
          (λ same. (subst (λ (z : A). Mem z (y ∷ xs)) (sym same) mem-cons_self, rw same e))
          (λ later.
            let (there, passes) = mem-select p x xs later in (mem-cons_of_mem y there, passes))
    | inr e ↦
        let (there, passes) = mem-select p x xs (rw e at m) in (mem-cons_of_mem y there, passes)
  ]

module _ {ℓ κ} {A : Type ℓ} {B : Type κ} where
  pub mem-flat_map_of_mem :
      (f : A → List B) (x : A) (y : B) (xs : List A)
      → Mem x xs
      → Mem y (f x)
      → Mem y (flat_map f xs)
  mem-flat_map_of_mem f x y [] m n = absurd (not-mem-nil m)
  mem-flat_map_of_mem f x y (z ∷ xs) m n =
      Or.elim Mem-prop (mem-cons.0 m) (λ same. mem-append_left _ (rw same at n))
        (λ later. mem-append_right (f z) (mem-flat_map_of_mem f x y xs later n))

  -- What holds of each element that a member contributes holds of all.
  pub mem-flat_map_elim {μ} :
      (Q : B → Type μ)
      → ((y : B) → IsProp (Q y))
      → (f : A → List B) (xs : List A) (y : B) → ((x : A) → Mem x xs → Mem y (f x) → Q y)
      → Mem y (flat_map f xs)
      → Q y
  mem-flat_map_elim Q prop f [] y step m = absurd (not-mem-nil m)
  mem-flat_map_elim Q prop f (x ∷ xs) y step m =
      Or.elim (prop y) (mem-append.0 m) (step x mem-cons_self)
        (mem-flat_map_elim Q prop f xs y (λ z there. step z (mem-cons_of_mem x there)))

-- What holds of all holds of each member.
pub all_of_mem {ℓ κ} :
    {A : Type ℓ} (P : A → Type κ)
    → ((x : A) → IsProp (P x))
    → (x : A) (xs : List A) → All P xs
    → Mem x xs
    → P x
all_of_mem P prop x [] h m = absurd (not-mem-nil m)
all_of_mem P prop x (y ∷ xs) h m =
    Or.elim (prop x) (mem-cons.0 m) (λ same. subst P (sym same) h.0)
      (λ later. all_of_mem P prop x xs h.1 later)
