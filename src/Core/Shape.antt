-- ===== src/Core/Shape.antt =====
-- Runtime/include/core/tensorShape.hpp. A dimension is an int64_t; -1 stands for any extent.
use vision_runtime.Prelude.{
  ℕ, zero, suc, Bool, true, false, ◌&&◌, ◌||◌, ◌≡◌, refl, List, [], ◌∷◌, arith, length, ◌==◌, ltb,
  and_left, and_right, and_intro,
}
use vision_runtime.Prelude.Int.{ℤ, pos, negsuc, eqb_ℤ, eqb_ℤ_iff}

abbrev pub TensorShape : Type 0
TensorShape = List ℤ

-- `dimension == 0 || dimension < -1` is false.
abbrev pub is_valid_dimension : ℤ → Bool
is_valid_dimension (pos n) = ltb 0 n
is_valid_dimension (negsuc n) = n == 0

-- `dimension <= 0` is false.
abbrev pub is_positive : ℤ → Bool
is_positive (pos n) = ltb 0 n
is_positive (negsuc n) = false

unfoldable pub shape_is_valid : TensorShape → Bool
shape_is_valid [] = true
shape_is_valid (d ∷ ds) = is_valid_dimension d && shape_is_valid ds

unfoldable pub is_concrete : TensorShape → Bool
is_concrete [] = true
is_concrete (d ∷ ds) = is_positive d && is_concrete ds

abbrev pub minus_one : ℤ
minus_one = negsuc 0

-- `requiredDimension != -1 && requiredDimension != producedDimension` is false.
abbrev pub accepts_dimension : ℤ → ℤ → Bool
accepts_dimension required produced = eqb_ℤ required minus_one || eqb_ℤ required produced

-- The loop of `accepts` over the indices of two shapes of equal rank.
unfoldable pub accepts_dimensions : TensorShape → TensorShape → Bool
accepts_dimensions (r ∷ rs) (p ∷ ps) = accepts_dimension r p && accepts_dimensions rs ps
accepts_dimensions _ _ = true

unfoldable pub shape_accepts : TensorShape → TensorShape → Bool
shape_accepts required produced =
    shape_is_valid required
    && shape_is_valid produced
    && length required == length produced
    && accepts_dimensions required produced

-- A shape with extents only is valid.
pub is_concrete-is_valid : (s : TensorShape) → is_concrete s ≡ true → shape_is_valid s ≡ true
unfolding is_concrete shape_is_valid
is_concrete-is_valid [] h = refl
is_concrete-is_valid (d ∷ ds) h = ground (arith, is_concrete-is_valid ds)

-- A concrete shape splits into a positive extent and a concrete rest.
pub is_concrete-cons :
    (d : ℤ) (ds : TensorShape)
    → is_concrete (d ∷ ds) ≡ true
    → (n : ℕ) × (d ≡ pos (suc n)) × (is_concrete ds ≡ true)
unfolding is_concrete
is_concrete-cons (pos zero) ds h = cc
is_concrete-cons (pos (suc n)) ds h = (n, refl, and_right (ltb 0 (suc n)) _ h)
is_concrete-cons (negsuc n) ds h = cc

pub accepts_dimension_refl : (d : ℤ) → accepts_dimension d d ≡ true
accepts_dimension_refl d = ground (arith, eqb_ℤ_iff d d)

pub accepts_dimension_trans :
    (a b c : ℤ)
    → accepts_dimension a b ≡ true
    → accepts_dimension b c ≡ true
    → accepts_dimension a c ≡ true
accepts_dimension_trans a b c h k = ground (
  arith,
  eqb_ℤ_iff a minus_one,
  eqb_ℤ_iff b minus_one,
  eqb_ℤ_iff a b,
  eqb_ℤ_iff b c,
  eqb_ℤ_iff a c,
)

accepts_dimensions_refl : (s : TensorShape) → accepts_dimensions s s ≡ true
unfolding accepts_dimensions
accepts_dimensions_refl [] = refl
accepts_dimensions_refl (d ∷ ds) =
    ground (arith, accepts_dimension_refl d, accepts_dimensions_refl ds)

accepts_dimensions_trans :
    (a b c : TensorShape)
    → length a ≡ length b
    → length b ≡ length c
    → accepts_dimensions a b ≡ true
    → accepts_dimensions b c ≡ true
    → accepts_dimensions a c ≡ true
unfolding accepts_dimensions
accepts_dimensions_trans [] b c l m h k = refl
accepts_dimensions_trans (x ∷ a) [] c l m h k = absurd (omega arith)
accepts_dimensions_trans (x ∷ a) (y ∷ b) [] l m h k = absurd (omega arith)
accepts_dimensions_trans (x ∷ a) (y ∷ b) (z ∷ c) l m h k =
    and_intro (accepts_dimension x z) _
      (accepts_dimension_trans x y z (and_left _ _ h) (and_left _ _ k))
      (accepts_dimensions_trans a b c (omega arith) (omega arith) (and_right _ _ h)
        (and_right _ _ k))

-- A valid shape accepts itself.
pub shape_accepts_refl : (s : TensorShape) → shape_is_valid s ≡ true → shape_accepts s s ≡ true
unfolding shape_accepts
shape_accepts_refl s h = ground (arith, accepts_dimensions_refl s)

-- What an accepted shape accepts is accepted.
pub shape_accepts_trans :
    (a b c : TensorShape)
    → shape_accepts a b ≡ true
    → shape_accepts b c ≡ true
    → shape_accepts a c ≡ true
unfolding shape_accepts
shape_accepts_trans a b c h k = ground (arith, accepts_dimensions_trans a b c)
