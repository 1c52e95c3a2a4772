-- ===== src/Core/Tensor/Views.antt =====
-- `subview`, `requiredByteSize` and `isContiguous` of Runtime/include/core/tensor.hpp.
use vision_runtime.Prelude.{
  ℕ, ◌+◌, ◌-◌, ◌≤◌, true, false, ◌≡◌, refl, List, arith, size_max, ltb, Bool-cases, inl, inr, ◌||◌,
  ap, ◌∙◌, list_eq_refl, [],
}
use vision_runtime.Core.Status.{success, failure, Result, >>=-eq-success}
use vision_runtime.Core.DataType.{DataType}
use vision_runtime.Core.Shape.{TensorShape}
use vision_runtime.Core.Spec.{TensorLayout}
use vision_runtime.Core.Buffer.{TensorBuffer, buffer_empty}
use vision_runtime.Core.Tensor.{
  Tensor, TensorOwnership, shared, wrap, validate_metadata, create, view_of, check_view, subview,
  required_byte_size, is_contiguous, contiguous_byte_strides, measure,
}
use vision_runtime.Core.Tensor.Bounds.{IsTensor, create-IsTensor}

success_injective : {a b : Tensor} → ◌≡◌ {A = Result Tensor} (success a) (success b) → a ≡ b
success_injective e = cc

check_view_inv :
    (room : ℕ) (r : Result Tensor) {v : Tensor}
    → check_view room r ≡ success v
    → (r ≡ success v) × (v.byte_size ≤ room)
unfolding check_view
check_view_inv room (success w) {v} e = elim (Bool-cases (ltb room w.byte_size)) [
  | inl bad ↦ cc (rw bad at e)
  | inr good ↦
      let q : success w ≡ success v = rw good at e in
      let same : w.byte_size ≡ v.byte_size =
        ap (λ (x : Tensor). x.byte_size) (success_injective q) in
      (q, ground arith)
]
check_view_inv room (failure s) e = cc

ground_le : (n r : ℕ) → ltb n r ≡ false → r ≤ n
ground_le n r h = ground arith

-- A view that `subview` returns is well formed, shares the parent's buffer, starts at the given
-- offset in the parent and ends within the parent, if the parent is well formed and its buffer's
-- capacity is a size_t.
pub subview-inside :
    (p : Tensor) (relative : ℕ) (t : DataType) (s : TensorShape) (layout : TensorLayout)
    (strides : List ℕ) {v : Tensor}
    → IsTensor p
    → p.buffer.capacity ≤ size_max
    → subview p relative t s layout strides ≡ success v
    → IsTensor v
      × (v.buffer ≡ p.buffer)
      × (v.byte_offset ≡ p.byte_offset + relative)
      × (v.byte_offset + v.byte_size ≤ p.byte_offset + p.byte_size)
unfolding subview
subview-inside p relative t s layout strides {v} w c e =
    elim (Bool-cases (ltb p.byte_size relative)) [
      | inl bad ↦ cc (rw bad at e)
      | inr good ↦
          let (made, room) = check_view_inv (p.byte_size - relative) _ (rw good at e) in
          let (x, b, o, _) =
            create-IsTensor p.buffer (wrap (p.byte_offset + relative)) t s layout strides shared
              made in
          let start : wrap (p.byte_offset + relative) ≡ p.byte_offset + relative =
            omega (arith, w.inside, ground_le (p.byte_size) relative good) in
          (x, b, o ∙ start, omega (arith, ground_le (p.byte_size) relative good))
    ]

-- A buffer that holds the bytes that `requiredByteSize` returns is large enough: `create` at offset
-- 0 succeeds, with exactly that many bytes.
pub required_byte_size-create :
    (b : TensorBuffer) (t : DataType) (s : TensorShape) (layout : TensorLayout) (strides : List ℕ)
    (ownership : TensorOwnership) {n : ℕ}
    → buffer_empty b ≡ false
    → required_byte_size t s strides ≡ success n
    → n ≤ b.capacity
    → (v : Tensor) × (create b 0 t s layout strides ownership ≡ success v) × (v.byte_size ≡ n)
unfolding required_byte_size create view_of
required_byte_size-create b t s layout strides ownership {n} h e l =
    let (m, valid, e1) = >>=-eq-success (validate_metadata t s strides) _ e in
    let size : m.byte_size ≡ n = ground arith in
    let fits : (ltb b.capacity 0 || ltb (b.capacity - 0) m.byte_size) ≡ false = ground arith in
    (view_of b 0 t s layout ownership m, rw (h, valid, fits) refl, size)

-- The default strides make a contiguous tensor.
pub default_is_contiguous :
    (b : TensorBuffer) (offset : ℕ) (t : DataType) (s : TensorShape) (layout : TensorLayout)
    (ownership : TensorOwnership) {v : Tensor}
    → create b offset t s layout [] ownership ≡ success v
    → is_contiguous v ≡ true
unfolding is_contiguous create validate_metadata measure view_of
default_is_contiguous b offset t s layout ownership {v} e =
    ground (arith, list_eq_refl (contiguous_byte_strides s t))
