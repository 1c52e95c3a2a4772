-- ===== src/Core/Spec.antt =====
-- Runtime/include/core/tensorSpec.hpp.
use vision_runtime.Prelude.{Bool, true, false, ◌&&◌, ◌≡◌, refl, Option, none, some, arith}
use vision_runtime.Core.DataType.{
  DataType, data_type_eq, Device, device_is_valid, device_eq, device_eq_iff,
}
use vision_runtime.Core.Shape.{
  TensorShape, shape_is_valid, shape_accepts, shape_accepts_refl, shape_accepts_trans,
}

pub data TensorLayout : Type 0 where
  any nchw nhwc : TensorLayout

pub record TensorSpec : Type 0 where
  pub data_type : Option DataType
  pub shape : Option TensorShape
  pub device : Option Device
  pub layout : TensorLayout

unfoldable pub all_some {ℓ} : {A : Type ℓ} → (A → Bool) → Option A → Bool
all_some p none = true
all_some p (some a) = p a

-- `required && (!produced || !test(*required, *produced))` is false.
unfoldable pub covers {ℓ} : {A : Type ℓ} → (A → A → Bool) → Option A → Option A → Bool
covers test none produced = true
covers test (some r) none = false
covers test (some r) (some p) = test r p

-- `layout != TensorLayout::Any && layout != produced.layout` is false.
unfoldable pub layout_accepts : TensorLayout → TensorLayout → Bool
layout_accepts any p = true
layout_accepts nchw nchw = true
layout_accepts nhwc nhwc = true
layout_accepts _ _ = false

unfoldable pub spec_is_valid : TensorSpec → Bool
spec_is_valid s = all_some shape_is_valid s.shape && all_some (λ d. device_is_valid d) s.device

unfoldable pub spec_accepts : TensorSpec → TensorSpec → Bool
spec_accepts r p =
    spec_is_valid r
    && spec_is_valid p
    && covers (λ a b. data_type_eq a b) r.data_type p.data_type
    && covers shape_accepts r.shape p.shape
    && covers (λ a b. device_eq a b) r.device p.device
    && layout_accepts r.layout p.layout

module _ {ℓ} {A : Type ℓ} (test : A → A → Bool) where
  pub covers_refl :
      (o : Option A) → ((a : A) → o ≡ some a → test a a ≡ true) → covers test o o ≡ true
  unfolding covers
  covers_refl none h = refl
  covers_refl (some a) h = h a refl

  pub covers_trans :
      (o p q : Option A)
      → ((a b c : A) → test a b ≡ true → test b c ≡ true → test a c ≡ true)
      → covers test o p ≡ true
      → covers test p q ≡ true
      → covers test o q ≡ true
  unfolding covers
  covers_trans none p q t h k = refl
  covers_trans (some a) none q t h k = cc
  covers_trans (some a) (some b) none t h k = cc
  covers_trans (some a) (some b) (some c) t h k = t a b c h k

shapes_refl :
    (o : Option TensorShape) → all_some shape_is_valid o ≡ true → covers shape_accepts o o ≡ true
unfolding all_some covers
shapes_refl none h = refl
shapes_refl (some s) h = shape_accepts_refl s h

data_type_eq_refl : (a : DataType) → data_type_eq a a ≡ true
data_type_eq_refl a = ground arith

data_type_eq_trans :
    (a b c : DataType) → data_type_eq a b ≡ true → data_type_eq b c ≡ true → data_type_eq a c ≡ true
data_type_eq_trans a b c h k = ground arith

pub device_eq_trans :
    (a b c : Device) → device_eq a b ≡ true → device_eq b c ≡ true → device_eq a c ≡ true
device_eq_trans a b c h k = ground (arith, device_eq_iff a b, device_eq_iff b c, device_eq_iff a c)

layout_accepts_trans :
    (a b c : TensorLayout)
    → layout_accepts a b ≡ true
    → layout_accepts b c ≡ true
    → layout_accepts a c ≡ true
unfolding layout_accepts
layout_accepts_trans a b c h k = ground arith

layout_accepts_refl : (a : TensorLayout) → layout_accepts a a ≡ true
unfolding layout_accepts
layout_accepts_refl a = ground arith

-- Every valid tensor specification accepts itself.
pub spec_accepts_refl : (s : TensorSpec) → spec_is_valid s ≡ true → spec_accepts s s ≡ true
unfolding spec_accepts spec_is_valid
spec_accepts_refl s h = ground (
  arith,
  covers_refl (λ a b. data_type_eq a b) s.data_type (λ a _. data_type_eq_refl a),
  shapes_refl s.shape,
  covers_refl (λ a b. device_eq a b) s.device (λ a _. (device_eq_iff a a).1 refl),
  layout_accepts_refl s.layout,
)

-- If one specification accepts a second and the second accepts a third, the first accepts the third.
pub spec_accepts_trans :
    (a b c : TensorSpec)
    → spec_accepts a b ≡ true
    → spec_accepts b c ≡ true
    → spec_accepts a c ≡ true
unfolding spec_accepts
spec_accepts_trans a b c h k = ground (
  arith,
  covers_trans (λ a b. data_type_eq a b) a.data_type b.data_type c.data_type data_type_eq_trans,
  covers_trans shape_accepts a.shape b.shape c.shape shape_accepts_trans,
  covers_trans (λ a b. device_eq a b) a.device b.device c.device device_eq_trans,
  layout_accepts_trans a.layout b.layout c.layout,
)
