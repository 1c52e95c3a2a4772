-- ===== src/Core/Tensor/Layout.antt =====
-- `contiguousByteStrides` and `validateMetadata` of Runtime/include/core/tensor.hpp.
use native.Mathlib.Nat.{mul-one, zero-mul, mul_comm}
use vision_runtime.Prelude.{
  ℕ, zero, suc, ◌+◌, ◌-◌, ◌*◌, ◌/◌, ◌≤◌, ◌<◌, Bool, true, false, ◌&&◌, not, ◌==◌, ◌≡◌, refl, ap,
  ◌∙◌, ◌||◌, inl, inr, some, List, [], ◌∷◌, arith, length, size_max, ltb, Bool-cases,
}
use vision_runtime.Prelude.Int.{pos}
use vision_runtime.Core.Status.{success, failure, error, invalid_argument}
use vision_runtime.Core.DataType.{DataType, data_type_size, data_type_size_pos}
use vision_runtime.Core.Shape.{TensorShape, is_concrete, is_concrete-cons}
use vision_runtime.Core.Tensor.{
  wrap, element_count, extend_strides, strides_from, contiguous_byte_strides, bytes_from, measure,
  validate_metadata,
}
use vision_runtime.Core.Tensor.Counts.{
  product, row_major, product_pos, wrap_small, quotient_guard, quotient_guard_holds, grows,
  element_count_lem,
}

extend_strides_lem :
    (n st : ℕ) (found : List ℕ)
    → st * suc n ≤ size_max
    → extend_strides (pos (suc n)) (some (st, found)) ≡ some (st * suc n, st ∷ found)
unfolding extend_strides
extend_strides_lem n st found h =
    ground
      (arith, wrap_small (st * suc n) h, quotient_guard_holds st (suc n) size_max (omega arith) h)

-- The products of a row-major layout, regrouped.
regroup : (size n p : ℕ) → size * (suc n * p) ≡ size * p * suc n
regroup size n p = grind arith

strides_step :
    (size n : ℕ) (ds : TensorShape)
    → size * (suc n * product ds) ≤ size_max
    → strides_from size ds ≡ some (size * product ds, row_major size ds)
    → strides_from size (pos (suc n) ∷ ds)
      ≡ some (size * (suc n * product ds), size * product ds ∷ row_major size ds)
unfolding strides_from
strides_step size n ds l ih =
    let fits : size * product ds * suc n ≤ size_max = rw (← regroup size n (product ds)) l in
    rw (
      ih,
      extend_strides_lem n (size * product ds) (row_major size ds) fits,
      regroup size n (product ds),
    )

rest_fits : (size n p : ℕ) → size * (suc n * p) ≤ size_max → size * p ≤ size_max
rest_fits size n p l = omega (arith, regroup size n p, grows (size * p) (suc n) (omega arith))

strides_from_lem :
    (size : ℕ) (s : TensorShape)
    → is_concrete s ≡ true
    → size * product s ≤ size_max
    → strides_from size s ≡ some (size * product s, row_major size s)
unfolding strides_from
strides_from_lem size [] h l = rw mul-one
strides_from_lem size (d ∷ ds) h l =
    let (n, e, r) = is_concrete-cons d ds h in
    rw e (
      strides_step size n ds (rw e at l)
        (strides_from_lem size ds r (rest_fits size n (product ds) (rw e at l))))

abbrev overflows : ℕ → ℕ → ℕ → Bool
overflows required extent st = not (extent == 0) && ltb ((size_max - required) / extent) st

overflows_of_le :
    (required extent st : ℕ)
    → required + extent * st ≤ size_max
    → overflows required extent st ≡ false
overflows_of_le required zero st h = refl
overflows_of_le required (suc n) st h =
    ground (arith, quotient_guard_holds st (suc n) (size_max - required) (omega arith) (fits))
  where
    fits : st * suc n ≤ size_max - required
    fits = rw (mul_comm st (suc n)) (omega arith)

le_of_overflows :
    (required extent st : ℕ)
    → required ≤ size_max
    → overflows required extent st ≡ false
    → required + extent * st ≤ size_max
le_of_overflows required zero st h e = omega (arith, zero-mul st)
le_of_overflows required (suc n) st h e = omega (
  arith,
  quotient_guard st (suc n) (size_max - required) (omega arith) (ground arith),
  mul_comm st (suc n),
)

wrap_sum : (required e : ℕ) → required + e ≤ size_max → wrap (required + wrap e) ≡ required + e
wrap_sum required e h = omega arith

-- One round of the loop of `validateMetadata` where the sum fits.
bytes_from_goes_on :
    (required n st : ℕ) (ds : TensorShape) (ss : List ℕ)
    → required + n * st ≤ size_max
    → bytes_from required (pos (suc n) ∷ ds) (st ∷ ss) ≡ bytes_from (required + n * st) ds ss
unfolding bytes_from
bytes_from_goes_on required n st ds ss h =
    rw (overflows_of_le required n st h, wrap_sum required (n * st) h)

-- A round that does not fail adds a sum that fits.
pub bytes_from_inv :
    (required n st : ℕ) (ds : TensorShape) (ss : List ℕ) {t : ℕ}
    → required ≤ size_max
    → bytes_from required (pos (suc n) ∷ ds) (st ∷ ss) ≡ success t
    → (required + n * st ≤ size_max) × (bytes_from (required + n * st) ds ss ≡ success t)
unfolding bytes_from
bytes_from_inv required n st ds ss h e = elim (Bool-cases (overflows required n st)) [
  | inl bad ↦ cc (rw bad at e)
  | inr good ↦
      let fits = le_of_overflows required n st h good in
      (fits, rw (good, wrap_sum required (n * st) fits) at e)
]

row_split : (size n p : ℕ) → size * (suc n * p) ≡ n * (size * p) + size * p
row_split size n p = grind arith

bytes_step :
    (required size n : ℕ) (ds : TensorShape)
    → 0 < product ds
    → required + size * (suc n * product ds) ≤ size_max + size
    → bytes_from (required + n * (size * product ds)) ds (row_major size ds)
      ≡ success (required + n * (size * product ds) + (size * product ds - size))
    → bytes_from required (pos (suc n) ∷ ds) (size * product ds ∷ row_major size ds)
      ≡ success (required + (size * (suc n * product ds) - size))
bytes_step required size n ds p l ih =
    let q = grows size (product ds) p in
    let e = row_split size n (product ds) in
    rw (bytes_from_goes_on required n (size * product ds) ds (row_major size ds) (omega arith), ih)
      (ap success (omega arith))

-- Over a row-major layout the loop adds up to the product of the extents.
bytes_from-row_major :
    (required size : ℕ) (s : TensorShape)
    → is_concrete s ≡ true
    → required + size * product s ≤ size_max + size
    → bytes_from required s (row_major size s) ≡ success (required + (size * product s - size))
unfolding bytes_from
bytes_from-row_major required size [] h l = ap success (omega (arith, mul-one size))
bytes_from-row_major required size (d ∷ ds) h l =
    let (n, e, r) = is_concrete-cons d ds h in
    let l' = rw e at l in
    rw e (
      bytes_step required size n ds (product_pos ds r) l' (
        bytes_from-row_major (required + n * (size * product ds)) size ds r
          (omega (arith, row_split size n (product ds)))))

length-row_major : (size : ℕ) (s : TensorShape) → length (row_major size s) ≡ length s
length-row_major size [] = refl
length-row_major size (d ∷ ds) = ap suc (length-row_major size ds)

contiguous_lem :
    (t : DataType) (s : TensorShape)
    → is_concrete s ≡ true
    → product s * data_type_size t ≤ size_max
    → contiguous_byte_strides s t ≡ row_major (data_type_size t) s
unfolding contiguous_byte_strides
contiguous_lem t s h l = rw (strides_from_lem (data_type_size t) s h (rw mul_comm l))

-- Whenever the extents are positive and the tensor's bytes fit in a size_t, the default layout is
-- accepted: it has as many elements as the product of the extents, row-major strides, and exactly
-- the elements' bytes.
pub validate_metadata_default :
    (t : DataType) (s : TensorShape)
    → is_concrete s ≡ true
    → product s * data_type_size t ≤ size_max
    → validate_metadata t s []
      ≡ success (record {
        count = product s;
        byte_size = product s * data_type_size t;
        byte_strides = row_major (data_type_size t) s;
      })
unfolding validate_metadata measure
validate_metadata_default t s h l = rw (h, counted, fits, contiguous_lem t s h l, ranks, bytes) refl
  where
    z : 0 < data_type_size t
    z = data_type_size_pos t

    counted : element_count s ≡ product s
    counted = ground (arith, element_count_lem s h, grows (product s) (data_type_size t) z)

    fits : (product s == 0 || ltb (size_max / data_type_size t) (product s)) ≡ false
    fits =
        ground
          (arith, product_pos s h, quotient_guard_holds (product s) (data_type_size t) size_max z l)

    ranks : (length (row_major (data_type_size t) s) == length s) ≡ true
    ranks = ground (arith, length-row_major (data_type_size t) s)

    bytes :
        bytes_from (data_type_size t) s (row_major (data_type_size t) s)
        ≡ success (product s * data_type_size t)
    bytes =
        bytes_from-row_major (data_type_size t) (data_type_size t) s h
          (omega (arith, mul_comm (product s) (data_type_size t)))
        ∙ ap success (
            omega (
              arith,
              mul_comm (product s) (data_type_size t),
              grows (data_type_size t) (product s) (product_pos s h),
            ))

-- For a shape with positive extents whose elements do not fit in a size_t, every layout is refused,
-- whatever the strides.
pub validate_metadata_overflow :
    (t : DataType) (s : TensorShape) (strides : List ℕ)
    → is_concrete s ≡ true
    → size_max < product s * data_type_size t
    → validate_metadata t s strides
      ≡ failure (error invalid_argument "tensor element count overflows size_t")
unfolding validate_metadata
validate_metadata_overflow t s strides h l = rw (h, refused) refl
  where
    refused : (element_count s == 0 || ltb (size_max / data_type_size t) (element_count s)) ≡ true
    refused = ground (
      arith,
      element_count_lem s h,
      λ (e : ltb (size_max / data_type_size t) (product s) ≡ false).
          quotient_guard (product s) (data_type_size t) size_max (data_type_size_pos t) e,
    )
