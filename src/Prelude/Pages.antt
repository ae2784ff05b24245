-- ===== src/Prelude/Pages.antt =====
-- A table that is read in pages, from a cursor on, by a value that goes up from row to row.
use Prim.Native.Nat.{ℕ, zero, suc, ◌+◌, ◌≤◌, ◌<◌}
use mathlib.Core.Path.{◌≡◌, refl, sym, ap, ◌∙◌, subst}
use mathlib.Core.Logic.{inl, inr}
use mathlib.Core.Bool.{true, false}
use mathlib.Core.List.{List, [], ◌∷◌, ◌++◌, append-nil}
use native.Mathlib.Omega.{arith}
use tasker_rfid.Prelude.Tests.{ltb, leb, Bool-cases}
use tasker_rfid.Prelude.Lists.{select, take, length, last_at, All, take-All, All-select}

module _ {ℓ} {A : Type ℓ} (at : A → ℕ) where
  -- The positions go up.
  abbrev pub Rising : ℕ → List A → Type 0
  Rising low [] = Unit
  Rising low (r ∷ rs) = (low < at r) × Rising (at r) rs

  -- The elements that the cursor has passed.
  abbrev pub passed : ℕ → List A → List A
  passed cursor_id = select (λ r. leb (at r) cursor_id)

  abbrev pub ahead : ℕ → List A → List A
  ahead cursor_id = select (λ r. ltb cursor_id (at r))

  Rising-weaken : (low high : ℕ) (rs : List A) → low ≤ high → Rising high rs → Rising low rs
  Rising-weaken low high [] h k = tt
  Rising-weaken low high (r ∷ rs) h k = (omega arith, k.1)

  ahead_all : (c : ℕ) (rs : List A) → Rising c rs → ahead c rs ≡ rs
  ahead_all c [] h = refl
  ahead_all c (r ∷ rs) h =
      ground (arith, ahead_all c rs (Rising-weaken c (at r) rs (omega arith) h.1))

  passed_none : (c : ℕ) (rs : List A) → Rising c rs → passed c rs ≡ []
  passed_none c [] h = refl
  passed_none c (r ∷ rs) h =
      ground (arith, passed_none c rs (Rising-weaken c (at r) rs (omega arith) h.1))

  le-last_at : (c n : ℕ) (rs : List A) → Rising c rs → c ≤ last_at at c (take n rs)
  le-last_at c zero rs h = omega arith
  le-last_at c (suc n) [] h = omega arith
  le-last_at c (suc n) (r ∷ rs) h = omega (arith, le-last_at (at r) n rs h.1, h.0)

  passed_taken :
      (c n : ℕ) (rs : List A) → Rising c rs → passed (last_at at c (take n rs)) rs ≡ take n rs
  passed_taken c zero rs h = passed_none c rs h
  passed_taken c (suc n) [] h = refl
  passed_taken c (suc n) (r ∷ rs) h =
      ground (arith, le-last_at (at r) n rs h.1, passed_taken (at r) n rs h.1)

  -- An element that the cursor has passed is not ahead of it.
  ahead-passed : (c : ℕ) (r : A) (rs : List A) → leb (at r) c ≡ true → ahead c (r ∷ rs) ≡ ahead c rs
  ahead-passed c r rs e = ground arith

  passed-here : (c : ℕ) (r : A) (rs : List A) → (at r) ≤ c → passed c (r ∷ rs) ≡ r ∷ passed c rs
  passed-here c r rs h = ground arith

  from_here :
      (low c : ℕ) (r : A) (rs : List A)
      → Rising low (r ∷ rs)
      → leb (at r) c ≡ false
      → Rising c (r ∷ rs)
  from_here low c r rs h e = (ground arith, h.1)

  ahead-le : (low c n : ℕ) (rs : List A) → Rising low rs → c ≤ last_at at c (take n (ahead c rs))
  ahead-le low c zero rs h = omega arith
  ahead-le low c (suc n) [] h = omega arith
  ahead-le low c (suc n) (r ∷ rs) h = elim (Bool-cases (leb (at r) c)) [
    | inl e ↦ rw (ahead-passed c r rs e) (ahead-le (at r) c (suc n) rs h.1)
    | inr e ↦
        let k = from_here low c r rs h e in
        rw (ahead_all c (r ∷ rs) k) (le-last_at c (suc n) (r ∷ rs) k)
  ]

  -- The cursor that moves over the first `n` of `l` passes what it had passed and those.
  abbrev Splits : ℕ → ℕ → List A → List A → Type ℓ
  Splits c n rs l = passed (last_at at c (take n l)) rs ≡ passed c rs ++ take n l

  -- If the positions go up, then moving the cursor to the last element of a batch passes exactly
  -- the elements that it had passed before and those of the batch.
  pub passed-page :
      (low c n : ℕ) (rs : List A)
      → Rising low rs
      → passed (last_at at c (take n (ahead c rs))) rs ≡ passed c rs ++ take n (ahead c rs)
  passed-page low c zero [] h = refl
  passed-page low c (suc n) [] h = refl
  passed-page low c n (r ∷ rs) h = elim (Bool-cases (leb (at r) c)) [
    | inl e ↦ subst (Splits c n (r ∷ rs)) (sym (ahead-passed c r rs e)) (
        passed-here _ r rs (ground (arith, ahead-le (at r) c n rs h.1))
        ∙ ap (λ (l : List A). r ∷ l) (passed-page (at r) c n rs h.1)
        ∙ ap (λ (l : List A). l ++ take n (ahead c rs)) (sym (passed-here c r rs (ground arith))))
    | inr e ↦
        let k = from_here low c r rs h e in
        subst (Splits c n (r ∷ rs)) (sym (ahead_all c (r ∷ rs) k)) (
          passed_taken c n (r ∷ rs) k
          ∙ ap (λ (l : List A). l ++ take n (r ∷ rs)) (sym (passed_none c (r ∷ rs) k)))
  ]

  pub length-passed : (c : ℕ) (rs : List A) → length (passed c rs) + length (ahead c rs) ≡ length rs
  length-passed c [] = refl
  length-passed c (r ∷ rs) = ground (arith, length-passed c rs)

  -- A cursor with nothing ahead of it has passed all.
  pub passed_all : (c : ℕ) (rs : List A) → length (ahead c rs) ≡ 0 → passed c rs ≡ rs
  passed_all c [] e = refl
  passed_all c (r ∷ rs) e = ground (arith, passed_all c rs)

  -- What is ahead goes up from the cursor on, and so does a page of it.
  pub ahead-Rising : (low c : ℕ) (rs : List A) → Rising low rs → Rising c (ahead c rs)
  ahead-Rising low c [] h = tt
  ahead-Rising low c (r ∷ rs) h = elim (Bool-cases (leb (at r) c)) [
    | inl e ↦ rw (ahead-passed c r rs e) (ahead-Rising (at r) c rs h.1)
    | inr e ↦ let k = from_here low c r rs h e in rw (ahead_all c (r ∷ rs) k) k
  ]

  pub take-Rising : (c n : ℕ) (rs : List A) → Rising c rs → Rising c (take n rs)
  take-Rising c zero rs h = tt
  take-Rising c (suc n) [] h = tt
  take-Rising c (suc n) (r ∷ rs) h = (h.0, take-Rising (at r) n rs h.1)

  -- The last position is the highest.
  le-highest : (c : ℕ) (rs : List A) → Rising c rs → c ≤ last_at at c rs
  le-highest c [] h = omega arith
  le-highest c (r ∷ rs) h = omega (arith, le-highest (at r) rs h.1, h.0)

  All-le-highest : (low : ℕ) (rs : List A) → Rising low rs → All (λ r. at r ≤ last_at at low rs) rs
  All-le-highest low [] h = tt
  All-le-highest low (r ∷ rs) h = (le-highest (at r) rs h.1, All-le-highest (at r) rs h.1)

  last_at-le :
      (c top : ℕ) (rs : List A) → c ≤ top → All (λ r. at r ≤ top) rs → last_at at c rs ≤ top
  last_at-le c top [] h k = h
  last_at-le c top (r ∷ rs) h k = last_at-le (at r) top rs k.0 k.1

  -- A cursor that no position outruns stays so when it moves to the end of a page.
  pub page-le-highest :
      (low c n : ℕ) (rs : List A)
      → Rising low rs
      → c ≤ last_at at low rs
      → last_at at c (take n (ahead c rs)) ≤ last_at at low rs
  page-le-highest low c n rs h k =
      last_at-le c (last_at at low rs) (take n (ahead c rs)) k
        (take-All _ n (ahead c rs) (All-select _ _ rs (All-le-highest low rs h)))

  -- What comes after the last position.
  Rising-after : (low : ℕ) (xs ys : List A) → Rising low (xs ++ ys) → Rising (last_at at low xs) ys
  Rising-after low [] ys h = h
  Rising-after low (x ∷ xs) ys h = Rising-after (at x) xs ys h.1

  pub last_at-append :
      (low : ℕ) (xs ys : List A)
      → Rising low (xs ++ ys)
      → last_at at low xs ≤ last_at at low (xs ++ ys)
  last_at-append low [] ys h = le-highest low ys h
  last_at-append low (x ∷ xs) ys h = last_at-append (at x) xs ys h.1

  passed-append : (c : ℕ) (xs ys : List A) → passed c (xs ++ ys) ≡ passed c xs ++ passed c ys
  passed-append c [] ys = refl
  passed-append c (x ∷ xs) ys = ground (arith, passed-append c xs ys)

  -- Rows that are added beyond the last position are ahead of a cursor that is not.
  pub passed_added :
      (low c : ℕ) (xs ys : List A)
      → Rising low (xs ++ ys)
      → c ≤ last_at at low xs
      → passed c (xs ++ ys) ≡ passed c xs
  passed_added low c xs ys h k =
      passed-append c xs ys
      ∙ ap (λ (l : List A). passed c xs ++ l)
          (passed_none c ys (Rising-weaken c (last_at at low xs) ys k (Rising-after low xs ys h)))
      ∙ append-nil (passed c xs)
