-- ===== src/Simulator/Reads/Passing.antt =====
-- The reads of one tag that passes a portal.
use tasker_rfid.Prelude.{
  ℕ, zero, suc, ◌+◌, ◌*◌, ◌/◌, ◌≤◌, ◌<◌, ◌≡◌, refl, true, Option, none, some, List, [], ◌∷◌, arith,
  ltb, flat_map, length, if◌then◌else◌, All, All-append, elem, Bool-cases, inl, inr, leb, ap,
}
use tasker_rfid.Prelude.Int.{ℤ, int_eq, int_beq_iff}
use tasker_rfid.Simulator.{insert_at, sort_at}
use tasker_rfid.Simulator.Sorting.{sort_at-All}
use tasker_rfid.Simulator.Reads.{Read, attempts, Setup, answer, antenna_reads, pass_reads}

-- The read is one of this tag, at this reader, by one of the antennas, while the tag is there.
pub record IsPass (setup : Setup) (duration : ℕ) (antennas : List ℤ) (r : Read) : Type 0 where
  pub tid : r.tid ≡ setup.tag.tid
  pub epc : r.epc ≡ setup.tag.epc
  pub reader_id : r.reader_id ≡ setup.reader_id
  pub antenna_id : elem r.antenna_id antennas ≡ true
  pub begins : setup.start ≤ r.read_at
  pub ends : r.read_at < setup.start + duration

-- The fuel does not matter, once it reaches the end: the loop has then ended by itself.
pub attempts_enough :
    (fuel other elapsed step duration : ℕ)
    → 1 ≤ step
    → duration ≤ elapsed + fuel
    → duration ≤ elapsed + other
    → attempts fuel elapsed step duration ≡ attempts other elapsed step duration
unfolding attempts
attempts_enough zero zero elapsed step duration h k l = refl
attempts_enough zero (suc other) elapsed step duration h k l = ground arith
attempts_enough (suc fuel) zero elapsed step duration h k l = ground arith
attempts_enough (suc fuel) (suc other) elapsed step duration h k l =
    ap (λ rest. if ltb elapsed duration then elapsed ∷ rest else [])
      (attempts_enough fuel other (elapsed + step) step duration h (omega arith) (omega arith))

module _ (setup : Setup) (duration : ℕ) (all_antennas : List ℤ) where
  answer-IsPass :
      (antenna_id : ℤ) (elapsed : ℕ) (o : Option ℤ)
      → elem antenna_id all_antennas ≡ true
      → elapsed < duration
      → All (IsPass setup duration all_antennas) (answer setup antenna_id elapsed o)
  answer-IsPass antenna_id elapsed none known inside = tt
  answer-IsPass antenna_id elapsed (some rssi) known inside = (
    record {
      tid = refl;
      epc = refl;
      reader_id = refl;
      antenna_id = known;
      begins = omega arith;
      ends = omega arith;
    },
    tt,
  )

  answers-IsPass :
      (antenna_id : ℤ) (heard : ℕ → Option ℤ)
      → elem antenna_id all_antennas ≡ true
      → (fuel elapsed step : ℕ)
      → All (IsPass setup duration all_antennas) (
          flat_map (λ t. answer setup antenna_id t (heard t)) (attempts fuel elapsed step duration))
  unfolding attempts
  answers-IsPass antenna_id heard known zero elapsed step = tt
  answers-IsPass antenna_id heard known (suc fuel) elapsed step =
      elim (Bool-cases (ltb elapsed duration)) [
        | inl e ↦ rw e (
            All-append _ (answer setup antenna_id elapsed (heard elapsed)) _
              (answer-IsPass antenna_id elapsed (heard elapsed) known (ground arith))
              (answers-IsPass antenna_id heard known fuel (elapsed + step) step))
        | inr e ↦ rw e tt
      ]

  antenna_reads-IsPass :
      (count step : ℕ) (heard : ℕ → ℕ → Option ℤ) (index : ℕ) (antennas : List ℤ)
      → All (λ a. elem a all_antennas ≡ true) antennas
      → All
          (IsPass setup duration all_antennas)
          (antenna_reads setup count step duration heard index antennas)
  unfolding antenna_reads
  antenna_reads-IsPass count step heard index [] known = tt
  antenna_reads-IsPass count step heard index (a ∷ antennas) known =
      All-append _
        (flat_map (λ t. answer setup a t (heard index t))
          (attempts duration (index * step / count) step duration))
        _ (answers-IsPass a (heard index) known.0 duration (index * step / count) step)
        (antenna_reads-IsPass count step heard (suc index) antennas known.1)

elem_weaken :
    (b : ℤ) (xs ys : List ℤ) → All (λ a. elem a ys ≡ true) xs → All (λ a. elem a (b ∷ ys) ≡ true) xs
elem_weaken b [] ys h = tt
elem_weaken b (x ∷ xs) ys h = (ground (arith, h.0), elem_weaken b xs ys h.1)

elem_all : (xs : List ℤ) → All (λ a. elem a xs ≡ true) xs
elem_all [] = tt
elem_all (x ∷ xs) = (ground (arith, int_beq_iff x x), elem_weaken x xs xs (elem_all xs))

-- Times that do not go down, from `low` on.
abbrev pub IsTimed : ℕ → List Read → Type 0
IsTimed low [] = Unit
IsTimed low (r ∷ rs) = (low ≤ r.read_at) × IsTimed r.read_at rs

insert_at-IsTimed :
    (low : ℕ) (r : Read) (rs : List Read)
    → low ≤ r.read_at
    → IsTimed low rs
    → IsTimed low (insert_at (λ x. x.read_at) r rs)
unfolding insert_at
insert_at-IsTimed low r [] h k = (h, tt)
insert_at-IsTimed low r (s ∷ rs) h k = elim (Bool-cases (leb r.read_at s.read_at)) [
  | inl e ↦ rw e (h, (ground arith, k.1))
  | inr e ↦ rw e (k.0, insert_at-IsTimed s.read_at r rs (ground arith) k.1)
]

sort_at-IsTimed : (rs : List Read) → IsTimed 0 (sort_at (λ x. x.read_at) rs)
unfolding sort_at
sort_at-IsTimed [] = tt
sort_at-IsTimed (r ∷ rs) =
    insert_at-IsTimed 0 r (sort_at (λ x. x.read_at) rs) (omega arith) (sort_at-IsTimed rs)

-- Every read of a pass is one of the tag, at the reader, by one of the antennas, from the start of the
-- pass on and before its end; and the reads come in the order of their times.
pub pass_reads-IsPass :
    (setup : Setup) (step duration : ℕ) (heard : ℕ → ℕ → Option ℤ) (antennas : List ℤ)
    → All (IsPass setup duration antennas) (pass_reads setup step duration heard antennas)
      × IsTimed 0 (pass_reads setup step duration heard antennas)
unfolding pass_reads
pass_reads-IsPass setup step duration heard antennas =
    let reads = antenna_reads setup (length antennas) step duration heard 0 antennas in
    (
      sort_at-All (λ r. r.read_at) (IsPass setup duration antennas) reads
          (antenna_reads-IsPass setup duration antennas (length antennas) step heard 0 antennas
            (elem_all antennas)),
      sort_at-IsTimed reads,
    )
