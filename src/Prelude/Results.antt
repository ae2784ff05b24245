-- ===== src/Prelude/Results.antt =====
-- Code that may raise returns a `Result`.
use mathlib.Core.Path.{◌≡◌, refl}
use mathlib.Core.Bool.{Bool, true, false}
use tasker_rfid.Prelude.Tests.{if◌then◌else◌}
use mathlib.Core.Logic.{◌⊎◌, inl, inr}

pub data Result {ℓ κ} (E : Type ℓ) (A : Type κ) : Type (ℓ ⊔ κ) where
  ok : A → Result E A
  err : E → Result E A

infixl 5 ◌>>=◌ ◌>>◌
abbrev pub ◌>>=◌ {ℓ κ μ} :
    {E : Type ℓ} {A : Type κ} {B : Type μ} → Result E A → (A → Result E B) → Result E B
ok x >>= next = next x
err why >>= next = err why

abbrev pub ◌>>◌ {ℓ μ} : {E : Type ℓ} {B : Type μ} → Result E (Unit {0}) → Result E B → Result E B
m >> k = m >>= λ _. k

pub Result-cases {ℓ κ} :
    {E : Type ℓ} {A : Type κ} (r : Result E A) → ((e : E) × (r ≡ err e)) ⊎ ((a : A) × (r ≡ ok a))
Result-cases (err e) = inl (e, refl)
Result-cases (ok a) = inr (a, refl)

-- Inversion of a successful bind.
pub >>=-eq-ok {ℓ κ μ} :
    {E : Type ℓ} {A : Type κ} {B : Type μ} (first : Result E A) (next : A → Result E B) {result : B}
    → (first >>= next) ≡ ok result
    → (x : A) × (first ≡ ok x) × (next x ≡ ok result)
>>=-eq-ok (ok x) next done = (x, refl, done)
>>=-eq-ok (err why) next done = cc

-- Inversion of a test that must pass.
pub if-eq-ok {ℓ κ} :
    {E : Type ℓ} {A : Type κ} (b : Bool) {x : A} (y : E) {z : A}
    → (if b then ok x else err y) ≡ ok z
    → (b ≡ true) × (x ≡ z)
if-eq-ok true y h = (refl, cc)
if-eq-ok false y h = cc

-- Inversion of a test before the rest.
pub if-eq-ok_then {ℓ κ} :
    {E : Type ℓ} {A : Type κ} (b : Bool) {rest : Result E A} (y : E) {z : A}
    → (if b then rest else err y) ≡ ok z
    → (b ≡ true) × (rest ≡ ok z)
if-eq-ok_then true y h = (refl, h)
if-eq-ok_then false y h = cc

-- Inversion of a test that raises.
pub if-eq-ok_else {ℓ κ} :
    {E : Type ℓ} {A : Type κ} (b : Bool) {rest : Result E A} (y : E) {z : A}
    → (if b then err y else rest) ≡ ok z
    → (b ≡ false) × (rest ≡ ok z)
if-eq-ok_else true y h = cc
if-eq-ok_else false y h = (refl, h)

pub ok-injective {ℓ κ} :
    {E : Type ℓ} {A : Type κ} {x y : A} → ◌≡◌ {A = Result E A} (ok x) (ok y) → x ≡ y
ok-injective h = cc
