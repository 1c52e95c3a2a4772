-- ===== src/Pipeline/Concat/Copies.antt =====
-- The memory that `concatBatchTensors` of Runtime/include/pipeline/batchTensors.hpp leaves.
use vision_runtime.Prelude.{
  ℕ, zero, suc, ◌+◌, ◌-◌, ◌*◌, ◌≤◌, ◌<◌, some, List, [], ◌∷◌, ◌≡◌, refl, ap, sym, ◌∙◌, ◌⊎◌, arith,
  String, length, get_elem?, some-injective,
}
use vision_runtime.Service.Map.{find, string_key}
use vision_runtime.Pipeline.Batch.{TensorMap}
use vision_runtime.Core.Status.{success}
use vision_runtime.Core.Tensor.{Tensor}
use vision_runtime.Pipeline.Concat.{Memory, data_of, copy_bytes, matching, concat_members}

-- The inputs hold these tensors of the given size under the name, all outside an area.
pub data AreMembers (name : String) (size low high : ℕ)
    : List TensorMap → List Tensor → Type 0 where
  no_members : AreMembers name size low high [] []
  member :
      {i : TensorMap} {t : Tensor} {rest : List TensorMap} {ts : List Tensor}
      → find name i ≡ some t
      → t.byte_size ≡ size
      → (data_of t + size ≤ low) ⊎ (high ≤ data_of t)
      → AreMembers name size low high rest ts
      → AreMembers name size low high (i ∷ rest) (t ∷ ts)

-- The memory after the tensors are copied one behind the other.
unfoldable pub copied : ℕ → ℕ → List Tensor → Memory → Memory
copied size to [] m = m
copied size to (t ∷ ts) m = copied size (to + size) ts (copy_bytes to (data_of t) size m)

next_place : (i size : ℕ) → (i + 1) * size ≡ i * size + size
next_place i size = grind arith

matching_same : (size : ℕ) (t : Tensor) → t.byte_size ≡ size → matching size (some t) ≡ success t
matching_same size t h = ground arith

pub concat_members-copied :
    (name : String) (size storage index low high : ℕ) (inputs : List TensorMap) (ts : List Tensor)
    (m : Memory)
    → AreMembers name size low high inputs ts
    → concat_members name size storage index inputs m
      ≡ success (copied size (storage + index * size) ts m)
unfolding concat_members copied
concat_members-copied name size storage index low high [] [] m no_members = refl
concat_members-copied name size storage index low high [] (t ∷ ts) m h = elim h [ ]
concat_members-copied name size storage index low high (i ∷ rest) [] m h = elim h [ ]
concat_members-copied name size storage index low high (i ∷ rest) (t ∷ ts) m (member f s apart r) =
    rw (f, matching_same size t s)
      (concat_members-copied name size storage (index + 1) low high rest ts
          (copy_bytes (storage + index * size) (data_of t) size m) r
        ∙ ap
            (λ p.
              success (copied size p ts (copy_bytes (storage + index * size) (data_of t) size m)))
            {y = storage + index * size + size} (omega (arith, next_place index size)))

copied-below :
    (size to a : ℕ) (ts : List Tensor) (m : Memory) → a < to → copied size to ts m a ≡ m a
unfolding copied
copied-below size to a [] m l = refl
copied-below size to a (t ∷ ts) m l =
    copied-below size (to + size) a ts _ (omega arith) ∙ ground arith

member-apart :
    (name : String) (size low high i : ℕ) (inputs : List TensorMap) (ts : List Tensor) (t : Tensor)
    → AreMembers name size low high inputs ts
    → get_elem? ts i ≡ some t
    → (data_of t + size ≤ low) ⊎ (high ≤ data_of t)
member-apart name size low high i inputs [] t h g = ground (arith, g)
member-apart name size low high i [] (x ∷ ts) t h g = elim h [ ]
member-apart name size low high zero (y ∷ ys) (x ∷ ts) t (member f s apart h) g =
    rw (sym (some-injective g)) apart
member-apart name size low high (suc i) (y ∷ ys) (x ∷ ts) t (member f s apart h) g =
    member-apart name size low high i ys ts t h g

-- A byte of an area that a copy leaves out.
copy_bytes-apart :
    (to from size low high source a : ℕ) (m : Memory)
    → low ≤ to
    → to + size ≤ high
    → (source + size ≤ low) ⊎ (high ≤ source)
    → a < size
    → copy_bytes to from size m (source + a) ≡ m (source + a)
copy_bytes-apart to from size low high source a m l r apart k = ground arith

copy_bytes-read :
    (to from size a : ℕ) (m : Memory) → a < size → copy_bytes to from size m (to + a) ≡ m (from + a)
copy_bytes-read to from size a m k =
    ground arith ∙ ap (λ b. m (from + b)) {x = to + a - to} (omega arith)

pub copied-read :
    (name : String) (size low high to i a : ℕ) (inputs : List TensorMap) (ts : List Tensor)
    (m : Memory) (t : Tensor)
    → AreMembers name size low high inputs ts
    → low ≤ to
    → to + length ts * size ≤ high
    → get_elem? ts i ≡ some t
    → a < size
    → copied size to ts m (to + i * size + a) ≡ m (data_of t + a)
unfolding copied
copied-read name size low high to i a inputs [] m t h l r g k = ground (arith, g)
copied-read name size low high to i a [] (x ∷ ts) m t h l r g k = elim h [ ]
copied-read name size low high to zero a (y ∷ ys) (x ∷ ts) m t (member f s apart h) l r g k =
    ap (copied size (to + size) ts (copy_bytes to (data_of x) size m)) {y = to + a} (omega arith)
    ∙ copied-below size (to + size) (to + a) ts _ (omega arith)
    ∙ copy_bytes-read to (data_of x) size a m k
    ∙ ap (λ u. m (data_of u + a)) (some-injective g)
copied-read name size low high to (suc i) a (y ∷ ys) (x ∷ ts) m t (member f s apart h) l r g k =
    ap (copied size (to + size) ts (copy_bytes to (data_of x) size m))
      {y = to + size + i * size + a} (omega (arith, next_place i size))
    ∙ copied-read name size low high (to + size) i a ys ts (copy_bytes to (data_of x) size m) t h
        (omega arith) (omega (arith, r, next_place (length ts) size)) g k
    ∙ copy_bytes-apart to (data_of x) size low high (data_of t) a m l
        (omega (arith, r, next_place (length ts) size))
        (member-apart name size low high i ys ts t h g) k

pub AreMembers-length :
    (name : String) (size low high : ℕ) (inputs : List TensorMap) (ts : List Tensor)
    → AreMembers name size low high inputs ts
    → length ts ≡ length inputs
AreMembers-length name size low high [] [] no_members = refl
AreMembers-length name size low high [] (t ∷ ts) h = elim h [ ]
AreMembers-length name size low high (i ∷ rest) [] h = elim h [ ]
AreMembers-length name size low high (i ∷ rest) (t ∷ ts) (member f s apart h) =
    ap suc (AreMembers-length name size low high rest ts h)

pub get_elem?-below :
    (ts : List Tensor) (i : ℕ) (t : Tensor) → get_elem? ts i ≡ some t → i < length ts
get_elem?-below [] i t g = ground (arith, g)
get_elem?-below (x ∷ ts) zero t g = omega arith
get_elem?-below (x ∷ ts) (suc i) t g = omega (arith, get_elem?-below ts i t g)
