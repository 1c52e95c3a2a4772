-- ===== src/Core/Tensor/Counts.antt =====
-- `elementCount` of Runtime/include/core/tensor.hpp, and the guards of the loops against overflow.
use native.Mathlib.Nat.{le-div_iff_mul-le, div-lt_iff_lt-mul, one-mul, mul_assoc}
use vision_runtime.Prelude.{
  ℕ, suc, ◌*◌, ◌/◌, ◌≤◌, ◌<◌, true, false, ◌≡◌, refl, ap, ◌⊎◌, inl, inr, List, [], ◌∷◌, arith,
  size_max, ltb, Bool-cases,
}
use vision_runtime.Prelude.Int.{pos}
use vision_runtime.Core.Shape.{TensorShape, is_concrete, is_concrete-cons}
use vision_runtime.Core.Tensor.{wrap, size_of_int, count_from, element_count}

-- The number of elements, as an unbounded product of the dimensions.
abbrev pub product : TensorShape → ℕ
product [] = 1
product (d ∷ ds) = size_of_int d * product ds

-- Row-major strides in bytes, as unbounded products.
abbrev pub row_major : ℕ → TensorShape → List ℕ
row_major size [] = []
row_major size (d ∷ ds) = (size * product ds) ∷ row_major size ds

pub product_pos : (s : TensorShape) → is_concrete s ≡ true → 0 < product s
product_pos [] h = omega arith
product_pos (d ∷ ds) h =
    let (n, e, r) = is_concrete-cons d ds h in rw e (grind (arith, product_pos ds r))

pub wrap_small : (n : ℕ) → n ≤ size_max → wrap n ≡ n
wrap_small n h = omega arith

pub quotient_guard : (a c m : ℕ) → 0 < c → ltb (m / c) a ≡ false → a * c ≤ m
quotient_guard a c m p h = (le-div_iff_mul-le p).0 (ground arith)

quotient_guard_fails : (a c m : ℕ) → 0 < c → ltb (m / c) a ≡ true → m < a * c
quotient_guard_fails a c m p h = (div-lt_iff_lt-mul p).0 (ground arith)

pub quotient_guard_holds : (a c m : ℕ) → 0 < c → a * c ≤ m → ltb (m / c) a ≡ false
quotient_guard_holds a c m p h = ground (arith, (le-div_iff_mul-le {k = c} {x = a} {y = m} p).1 h)

pub grows : (a p : ℕ) → 0 < p → a ≤ a * p
grows a p h = grind arith

count_from_stops :
    (c n : ℕ) (ds : TensorShape)
    → ltb (size_max / suc n) c ≡ true
    → count_from c (pos (suc n) ∷ ds) ≡ 0
unfolding count_from
count_from_stops c n ds h = ground arith

count_from_goes_on :
    (c n : ℕ) (ds : TensorShape)
    → ltb (size_max / suc n) c ≡ false
    → count_from c (pos (suc n) ∷ ds) ≡ count_from (c * suc n) ds
unfolding count_from
count_from_goes_on c n ds h = ground (
  arith,
  ap (λ k. count_from k ds)
      (wrap_small (c * suc n) (quotient_guard c (suc n) size_max (omega arith) h)),
)

-- The count so far times what is left, if that is a size_t, and 0 otherwise.
abbrev CountIs : ℕ → ℕ → Type 0
CountIs r total = ((r ≡ total) × (total ≤ size_max)) ⊎ ((r ≡ 0) × (size_max < total))

count_from_lem :
    (c : ℕ) (s : TensorShape)
    → is_concrete s ≡ true
    → 0 < c
    → c ≤ size_max
    → CountIs (count_from c s) (c * product s)
unfolding count_from
count_from_lem c [] h p l = inl (omega arith, omega arith)
count_from_lem c (d ∷ ds) h p l =
    let (n, e, r) = is_concrete-cons d ds h in
    rw e (elim (Bool-cases (ltb (size_max / suc n) c)) [
      | inl big ↦ rw (count_from_stops c n ds big) (inr (refl, overflow n big (product_pos ds r)))
      | inr small ↦
          rw (count_from_goes_on c n ds small, ← mul_assoc c (suc n) (product ds))
            (count_from_lem (c * suc n) ds r (grind arith)
              (quotient_guard c (suc n) size_max (omega arith) small))
    ])
  where
    overflow :
        (n : ℕ)
        → ltb (size_max / suc n) c ≡ true
        → 0 < product ds
        → size_max < c * (suc n * product ds)
    overflow n big q = rw (← mul_assoc c (suc n) (product ds)) (
        omega (
          arith,
          quotient_guard_fails c (suc n) size_max (omega arith) big,
          grows (c * suc n) (product ds) q,
        ))

-- For a shape with positive extents, the count is the product of the extents if that is a size_t,
-- and 0 if it is not.
pub element_count_lem :
    (s : TensorShape)
    → is_concrete s ≡ true
    → ((element_count s ≡ product s) × (product s ≤ size_max))
      ⊎ ((element_count s ≡ 0) × (size_max < product s))
unfolding element_count
element_count_lem s h = rw (one-mul) at (count_from_lem 1 s h (omega arith) (omega arith))
