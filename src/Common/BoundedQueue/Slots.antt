-- ===== src/Common/BoundedQueue/Slots.antt =====
-- The slots of the ring buffer of Runtime/include/common/boundedBlockingQueue.hpp.
use native.Mathlib.Nat.{div-add-mod, mul-le-mul_left}
use vision_runtime.Prelude.{
  ℕ, suc, ◌+◌, ◌/◌, ◌%◌, ◌≤◌, ◌<◌, ◌≡◌, ◌≢◌, refl, ◌∙◌, Option, some, List, [], ◌∷◌, ◌++◌, length,
  set, get_elem?-set_self, get_elem?-set_ne, length-set, arith, ◌⊎◌, inl, inr,
}
use vision_runtime.Common.BoundedQueue.{slot_at}

-- Indices less than a capacity apart fall into different slots.
pub distinct_slots : (c i j : ℕ) → 0 < c → i < j → j < i + c → i % c ≢ j % c
distinct_slots c i j p h k e = elim (le_total (j / c) (i / c)) [
  | inl low ↦ omega (arith, div-add-mod i c, div-add-mod j c, mul-le-mul_left c low)
  | inr high ↦ omega (arith, div-add-mod i c, div-add-mod j c, mul-le-mul_left c high)
]
  where
    le_total : (a b : ℕ) → (a ≤ b) ⊎ (suc b ≤ a)
    le_total a b = omega arith

module _ {ℓ} {A : Type ℓ} where
  pub slot_at-set_self :
      (slots : List (Option A)) (t : ℕ) (o : Option A)
      → 0 < length slots
      → slot_at (set slots (t % length slots) o) t ≡ o
  slot_at-set_self slots t o p =
      rw
        (
          length-set slots (t % length slots) o,
          get_elem?-set_self slots (t % length slots) o (omega arith),
        )
        refl

  pub slot_at-set_ne :
      (slots : List (Option A)) (t i : ℕ) (o : Option A)
      → t % length slots ≢ i % length slots
      → slot_at (set slots (t % length slots) o) i ≡ slot_at slots i
  slot_at-set_ne slots t i o h =
      rw (length-set slots (t % length slots) o, get_elem?-set_ne slots o h) refl

  -- The slots from index `i` on hold these values, in order.
  abbrev pub Holds : List (Option A) → ℕ → List A → Type ℓ
  Holds slots i [] = Unit
  Holds slots i (x ∷ xs) = (slot_at slots i ≡ some x) × Holds slots (i + 1) xs

  -- A write to an index that is out of the run changes none of its slots.
  pub Holds-set :
      (slots : List (Option A)) (t i : ℕ) (o : Option A) (xs : List A)
      → ((k : ℕ) → i ≤ k → k < i + length xs → t % length slots ≢ k % length slots)
      → Holds slots i xs
      → Holds (set slots (t % length slots) o) i xs
  Holds-set slots t i o [] h p = tt
  Holds-set slots t i o (x ∷ xs) h p = (
    slot_at-set_ne slots t i o (h i (omega arith) (omega arith)) ∙ p.0,
    Holds-set slots t (i + 1) o xs (λ k a b. h k (omega arith) (omega arith)) p.1,
  )

  pub Holds-append :
      (slots : List (Option A)) (i : ℕ) (xs : List A) (v : A)
      → Holds slots i xs
      → slot_at slots (i + length xs) ≡ some v
      → Holds slots i (xs ++ v ∷ [])
  Holds-append slots i [] v p e = (rw (i_zero) at e, tt)
    where
      i_zero : i + 0 ≡ i
      i_zero = omega arith
  Holds-append slots i (x ∷ xs) v p e = (p.0, Holds-append slots (i + 1) xs v p.1 (rw (shift) at e))
    where
      shift : i + suc (length xs) ≡ i + 1 + length xs
      shift = omega arith
