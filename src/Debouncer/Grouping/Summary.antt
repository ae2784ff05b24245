-- ===== src/Debouncer/Grouping/Summary.antt =====
-- A group is a faithful summary of its reads, whatever the order in which they came.
use tasker_rfid.Prelude.{
  ℕ, ◌≤◌, ◌≡◌, ◌⊎◌, ◌↔◌, inl, inr, refl, sym, subst, String, Bool, true, false, Option, none, some,
  List, [], ◌∷◌, arith, ltb, if◌then◌else◌, All, All-imp, length, Bool-cases,
}
use tasker_rfid.Prelude.Int.{ℤ, ◌≤ℤ◌, ltb_ℤ}
use tasker_rfid.Debouncer.Grouping.{
  below_floor, OpenGroup, stronger, add, start_group, Observation, rejection_reason,
}

-- One read, as the group sees it.
pub record Read : Type 0 where
  pub read_at : ℕ
  pub rssi : Option ℤ

-- Some element has the property.
abbrev pub Any {ℓ} : {A : Type ℓ} → (A → Type 0) → List A → Type 0
Any P [] = ⊥
Any P (x ∷ xs) = P x ⊎ Any P xs

-- No signal is below every signal.
abbrev pub NotAbove : Option ℤ → Option ℤ → Type 0
NotAbove none b = Unit
NotAbove (some a) none = ⊥
NotAbove (some a) (some b) = a ≤ℤ b

-- The group counts its reads, spans exactly from the earliest to the latest, and its peak is the
-- strongest signal that any of them reported (none if none did).
pub record Summarises (reads : List Read) (g : OpenGroup) : Type 0 where
  pub counted : g.read_count ≡ length reads
  pub earliest : All (λ r. g.first_read ≤ r.read_at) reads
  pub first_attained : Any (λ r. r.read_at ≡ g.first_read) reads
  pub latest : All (λ r. r.read_at ≤ g.last_read) reads
  pub last_attained : Any (λ r. r.read_at ≡ g.last_read) reads
  pub strongest : All (λ r. NotAbove r.rssi g.peak_rssi) reads
  pub peak_attained : Any (λ r. r.rssi ≡ g.peak_rssi) reads

NotAbove-trans : (a b c : Option ℤ) → NotAbove a b → NotAbove b c → NotAbove a c
NotAbove-trans none b c h k = tt
NotAbove-trans (some a) none c h k = absurd h
NotAbove-trans (some a) (some b) none h k = absurd k
NotAbove-trans (some a) (some b) (some c) h k = omega arith

stronger_upper :
    (peak rssi : Option ℤ) → NotAbove peak (stronger peak rssi) × NotAbove rssi (stronger peak rssi)
unfolding stronger
stronger_upper none none = (tt, tt)
stronger_upper none (some b) = (tt, omega arith)
stronger_upper (some a) none = (omega arith, tt)
stronger_upper (some a) (some b) = elim (Bool-cases (ltb_ℤ a b)) [
  | inl e ↦ rw e (ground arith)
  | inr e ↦ rw e (ground arith)
]

stronger_one : (peak rssi : Option ℤ) → (stronger peak rssi ≡ peak) ⊎ (rssi ≡ stronger peak rssi)
unfolding stronger
stronger_one none none = inl refl
stronger_one none (some b) = inr refl
stronger_one (some a) none = inl refl
stronger_one (some a) (some b) = elim (Bool-cases (ltb_ℤ a b)) [
  | inl e ↦ inr (rw e)
  | inr e ↦ inl (rw e)
]

NotAbove-refl : (a : Option ℤ) → NotAbove a a
NotAbove-refl none = tt
NotAbove-refl (some a) = omega arith

start_group-Summarises :
    (tid portal : String) (r : Read) (now : ℕ)
    → Summarises (r ∷ []) (start_group tid portal r.read_at r.rssi now)
unfolding start_group
start_group-Summarises tid portal r now = record {
  counted = refl;
  earliest = (omega arith, tt);
  first_attained = inl refl;
  latest = (omega arith, tt);
  last_attained = inl refl;
  strongest = (NotAbove-refl r.rssi, tt);
  peak_attained = inl refl;
}

replaced :
    (b : Bool) (x y : ℕ) (reads : List Read)
    → Any (λ r. r.read_at ≡ y) reads
    → (x ≡ (if b then x else y)) ⊎ Any (λ r. r.read_at ≡ (if b then x else y)) reads
replaced true x y reads h = inl refl
replaced false x y reads h = inr h

add-Summarises :
    {reads : List Read} (g : OpenGroup) (r : Read) (now : ℕ)
    → Summarises reads g
    → Summarises (r ∷ reads) (add g r.read_at r.rssi now)
unfolding add
add-Summarises {reads} g r now h = record {
  counted = omega (arith, h.counted);
  earliest = (ground arith, All-imp _ _ reads (λ x k. ground arith) h.earliest);
  first_attained =
      replaced (ltb r.read_at g.first_read) r.read_at g.first_read reads h.first_attained;
  latest = (ground arith, All-imp _ _ reads (λ x k. ground arith) h.latest);
  last_attained = replaced (ltb g.last_read r.read_at) r.read_at g.last_read reads h.last_attained;
  strongest = (
    (stronger_upper g.peak_rssi r.rssi).1,
    All-imp _ _ reads
        (λ x k.
          NotAbove-trans x.rssi g.peak_rssi (stronger g.peak_rssi r.rssi) k
            (stronger_upper g.peak_rssi r.rssi).0)
        h.strongest,
  );
  peak_attained = elim (stronger_one g.peak_rssi r.rssi) [
    | inl e ↦ inr (subst (λ p. Any (λ x. x.rssi ≡ p) reads) (sym e) h.peak_attained)
    | inr e ↦ inl e
  ];
}

-- The reads of one event, added in the order in which they arrive at the times of `clock`.
abbrev pub add_all : (Read → ℕ) → OpenGroup → List Read → OpenGroup
add_all clock g [] = g
add_all clock g (r ∷ rs) = add_all clock (add g r.read_at r.rssi (clock r)) rs

abbrev pub onto : List Read → List Read → List Read
onto [] reads = reads
onto (r ∷ rs) reads = onto rs (r ∷ reads)

add_all-Summarises :
    (clock : Read → ℕ) (g : OpenGroup) (reads more : List Read)
    → Summarises reads g
    → Summarises (onto more reads) (add_all clock g more)
add_all-Summarises clock g reads [] h = h
add_all-Summarises clock g reads (r ∷ rs) h =
    add_all-Summarises clock (add g r.read_at r.rssi (clock r)) (r ∷ reads) rs
      (add-Summarises g r (clock r) h)

-- A group that a read starts and to which any more reads are added, in whatever order of their
-- times, counts them all, spans exactly from the earliest to the latest, and has as its peak the
-- strongest signal reported, or none if no read reported one.
pub group-Summarises :
    (clock : Read → ℕ) (tid portal : String) (r : Read) (more : List Read)
    → Summarises
        (onto more (r ∷ []))
        (add_all clock (start_group tid portal r.read_at r.rssi (clock r)) more)
group-Summarises clock tid portal r more =
    add_all-Summarises clock _ (r ∷ []) more (start_group-Summarises tid portal r (clock r))

-- A peak that is not below the floor; no peak cannot be judged.
abbrev pub AtFloor : ℤ → Option ℤ → Type 0
AtFloor rssi_floor_dbm none = Unit
AtFloor rssi_floor_dbm (some peak) = rssi_floor_dbm ≤ℤ peak

below_floor_iff :
    (peak : Option ℤ) (floor : ℤ) → (below_floor peak floor ≡ none) ↔ AtFloor floor peak
below_floor_iff none floor = (λ _. tt, λ _. refl)
below_floor_iff (some peak) floor = (λ h. ground arith, λ h. ground arith)

-- An observation is kept exactly if it has the reads that are asked for, and its peak, if it has
-- one, is not below the floor.
pub rejection_reason_iff :
    (o : Observation) (rssi_floor_dbm : ℤ) (min_read_count : ℕ)
    → (rejection_reason o rssi_floor_dbm min_read_count ≡ none)
      ↔ ((min_read_count ≤ o.read_count) × AtFloor rssi_floor_dbm o.peak_rssi)
unfolding rejection_reason
rejection_reason_iff o floor least = (
  λ h. (ground arith, (below_floor_iff o.peak_rssi floor).0 (ground arith)),
  λ (enough, strong). let passes = (below_floor_iff o.peak_rssi floor).1 strong in ground arith,
)
