-- ===== src/Core/Tensor/Bounds.antt =====
-- The bytes of the tensors of Runtime/include/core/tensor.hpp, and where their elements lie.
use native.Mathlib.Nat.{mul-le-mul_right}
use vision_runtime.Prelude.{
  ℕ, suc, ◌+◌, ◌-◌, ◌*◌, ◌≤◌, ◌<◌, true, false, ◌≡◌, refl, List, [], ◌∷◌, arith, length, size_max,
  ltb, ◌||◌,
}
use mathlib.Core.Path.{subst}
use vision_runtime.Core.Status.{>>=-eq-success, reject_if-eq-success, success, failure, Result}
use vision_runtime.Core.DataType.{DataType, data_type_size, data_type_size-le}
use vision_runtime.Core.Shape.{TensorShape, is_concrete, is_concrete-cons}
use vision_runtime.Core.Spec.{TensorLayout}
use vision_runtime.Core.Buffer.{TensorBuffer, buffer_empty}
use vision_runtime.Core.Tensor.{
  Metadata, Tensor, TensorOwnership, size_of_int, bytes_from, strides_or, measure,
  validate_metadata, contiguous_byte_strides, element_count, create, view_of,
}
use vision_runtime.Core.Tensor.Layout.{bytes_from_inv}

-- One index for each dimension, each below its extent.
abbrev pub InRange : List ℕ → TensorShape → Type 0
InRange [] [] = Unit
InRange (i ∷ is) (d ∷ ds) = (i < size_of_int d) × InRange is ds
InRange _ _ = ⊥

-- The byte offset of an element, as an unbounded sum.
abbrev pub element_offset : List ℕ → List ℕ → ℕ
element_offset (i ∷ is) (s ∷ ss) = i * s + element_offset is ss
element_offset _ _ = 0

bytes_from-bound :
    (required : ℕ) (shape : TensorShape) (strides index : List ℕ) {t : ℕ}
    → is_concrete shape ≡ true
    → required ≤ size_max
    → InRange index shape
    → bytes_from required shape strides ≡ success t
    → (required + element_offset index strides ≤ t) × (t ≤ size_max)
unfolding bytes_from
bytes_from-bound required [] strides [] h l i e = ground arith
bytes_from-bound required [] strides (k ∷ index) h l i e = absurd i
bytes_from-bound required (d ∷ ds) strides [] h l i e = absurd i
bytes_from-bound required (d ∷ ds) [] (k ∷ index) h l i e = ground arith
bytes_from-bound required (d ∷ ds) (s ∷ ss) (k ∷ index) h l i e =
    let (n, q, r) = is_concrete-cons d ds h in
    let (fits, e') = bytes_from_inv required n s ds ss l (rw q at e) in
    let below : k < suc n = rw q at (i.0) in
    let reach : k * s ≤ n * s = mul-le-mul_right s (omega arith) in
    let (o, m) = bytes_from-bound (required + n * s) ds ss index r fits i.1 e' in (omega arith, m)

-- What a successful validation has established.
pub record IsValidated (t : DataType) (s : TensorShape) (m : Metadata) : Type 0 where
  pub concrete : is_concrete s ≡ true
  pub counted : m.count ≡ element_count s
  pub ranks : length m.byte_strides ≡ length s
  pub bytes : bytes_from (data_type_size t) s m.byte_strides ≡ success m.byte_size

measure-IsValidated :
    (t : DataType) (s : TensorShape) (strides : List ℕ) {m : Metadata}
    → is_concrete s ≡ true
    → measure t s strides ≡ success m
    → IsValidated t s m
unfolding measure
measure-IsValidated t s strides h e = record {
  concrete = h;
  counted = ground arith;
  ranks = ground arith;
  bytes = ground arith;
}

pub validate_metadata-IsValidated :
    (t : DataType) (s : TensorShape) (strides : List ℕ) {m : Metadata}
    → validate_metadata t s strides ≡ success m
    → IsValidated t s m
unfolding validate_metadata
validate_metadata-IsValidated t s strides {m} e =
    measure-IsValidated t s (strides_or strides (contiguous_byte_strides s t)) (ground arith)
      (ground arith)

-- Every element of an accepted layout lies inside its bytes, whatever the strides: the element's
-- offset and its size do not pass the byte size, and the byte size is a size_t.
pub validate_metadata-bound :
    (t : DataType) (s : TensorShape) (strides index : List ℕ) {m : Metadata}
    → validate_metadata t s strides ≡ success m
    → InRange index s
    → (element_offset index m.byte_strides + data_type_size t ≤ m.byte_size)
      × (m.byte_size ≤ size_max)
validate_metadata-bound t s strides index {m} e i =
    let v = validate_metadata-IsValidated t s strides e in
    omega (
      arith,
      bytes_from-bound (data_type_size t) s m.byte_strides index v.concrete
          (omega (arith, data_type_size-le t)) i v.bytes,
    )

-- What `create` establishes of a tensor over its buffer.
pub record IsTensor (v : Tensor) : Type 0 where
  pub nonempty : buffer_empty v.buffer ≡ false
  pub concrete : is_concrete v.shape ≡ true
  pub counted : v.count ≡ element_count v.shape
  pub ranks : length v.byte_strides ≡ length v.shape
  pub bytes : bytes_from (data_type_size v.data_type) v.shape v.byte_strides ≡ success v.byte_size
  pub inside : v.byte_offset + v.byte_size ≤ v.buffer.capacity

created :
    (b : TensorBuffer) (offset : ℕ) (t : DataType) (s : TensorShape) (layout : TensorLayout)
    (ownership : TensorOwnership) (m : Metadata)
    → IsValidated t s m
    → buffer_empty b ≡ false
    → (ltb b.capacity offset || ltb (b.capacity - offset) m.byte_size) ≡ false
    → (v : Tensor) → success (view_of b offset t s layout ownership m) ≡ success v
    → IsTensor v × (v.buffer ≡ b) × (v.byte_offset ≡ offset) × (v.ownership ≡ ownership)
unfolding view_of
created b offset t s layout ownership m w has fits v e =
    subst (λ (r : Result Tensor). Holds r) e
      (
        record {
          nonempty = has;
          concrete = w.concrete;
          counted = refl;
          ranks = w.ranks;
          bytes = w.bytes;
          inside = ground arith;
        },
        refl,
        refl,
        refl,
      )
  where
    Holds : Result Tensor → Type 0
    Holds (success v) =
        IsTensor v × (v.buffer ≡ b) × (v.byte_offset ≡ offset) × (v.ownership ≡ ownership)
    Holds (failure s) = ⊥

-- A created tensor is well formed: its bytes lie inside the buffer's capacity.
pub create-IsTensor :
    (b : TensorBuffer) (offset : ℕ) (t : DataType) (s : TensorShape) (layout : TensorLayout)
    (strides : List ℕ) (ownership : TensorOwnership) {v : Tensor}
    → create b offset t s layout strides ownership ≡ success v
    → IsTensor v × (v.buffer ≡ b) × (v.byte_offset ≡ offset) × (v.ownership ≡ ownership)
unfolding create view_of
create-IsTensor b offset t s layout strides ownership {v} e =
    let (_, full, e1) = >>=-eq-success _ _ e in
    let (m, ok, e2) = >>=-eq-success (validate_metadata t s strides) _ e1 in
    let (_, room, e3) = >>=-eq-success _ _ e2 in
    let w = validate_metadata-IsValidated t s strides ok in
    let has = reject_if-eq-success (buffer_empty b) _ full in
    let fits =
      reject_if-eq-success (ltb b.capacity offset || ltb (b.capacity - offset) m.byte_size) _
        room in
    (created b offset t s layout ownership m w has fits v e3)

-- Every element of a well-formed tensor lies inside the tensor's bytes and inside its buffer.
pub element-in-buffer :
    (v : Tensor) (index : List ℕ)
    → IsTensor v
    → InRange index v.shape
    → (element_offset index v.byte_strides + data_type_size v.data_type ≤ v.byte_size)
      × (v.byte_offset + element_offset index v.byte_strides + data_type_size v.data_type
          ≤ v.buffer.capacity)
element-in-buffer v index w i = omega (
  arith,
  bytes_from-bound (data_type_size v.data_type) v.shape v.byte_strides index w.concrete
      (omega (arith, data_type_size-le v.data_type)) i w.bytes,
  w.inside,
)
