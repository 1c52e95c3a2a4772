-- ===== src/Runtime/Cameras/Sums.antt =====
-- Sums over the sources of Runtime/include/runtime/multiCameraSession.hpp.
use vision_runtime.Prelude.{
  ℕ, zero, suc, ◌+◌, ◌^◌, ◌≤◌, ◌<◌, true, ◌≡◌, refl, ap, List, [], ◌∷◌, length, get_elem?, set,
  replicate, some, arith,
}
use vision_runtime.Runtime.Cameras.{increment, SourceThread, idle, all_idle}

abbrev pub sum : List ℕ → ℕ
sum [] = 0
sum (n ∷ ns) = n + sum ns

abbrev pub sum_of {ℓ} : {A : Type ℓ} → (A → ℕ) → List A → ℕ
sum_of f [] = 0
sum_of f (x ∷ xs) = f x + sum_of f xs

pub sum-replicate : (n : ℕ) → sum (replicate n 0) ≡ 0
sum-replicate zero = refl
sum-replicate (suc n) = omega (arith, sum-replicate n)

pub length-increment : (ns : List ℕ) (i : ℕ) → length (increment ns i) ≡ length ns
length-increment [] i = refl
length-increment (n ∷ ns) zero = refl
length-increment (n ∷ ns) (suc i) = ap suc (length-increment ns i)

pub sum-increment :
    (ns : List ℕ) (i : ℕ) → i < length ns → sum ns + 1 < 2 ^ 64 → sum (increment ns i) ≡ sum ns + 1
sum-increment [] i h l = absurd (omega arith)
sum-increment (n ∷ ns) zero h l = omega (arith, l)
sum-increment (n ∷ ns) (suc i) h l =
    omega (arith, sum-increment ns i (omega arith) (omega (arith, l)))

-- One element counts at most as much as all.
pub sum_of-at {ℓ} :
    {A : Type ℓ} (f : A → ℕ) (xs : List A) (i : ℕ) (x : A)
    → get_elem? xs i ≡ some x
    → f x ≤ sum_of f xs
sum_of-at f [] i x h = cc
sum_of-at f (z ∷ xs) zero x h = let same : z ≡ x = cc in omega (arith, ap f same)
sum_of-at f (z ∷ xs) (suc i) x h = omega (arith, sum_of-at f xs i x h)

pub sum_of-below {ℓ} :
    {A : Type ℓ} (f g : A → ℕ) (xs : List A) → ((x : A) → f x ≤ g x) → sum_of f xs ≤ sum_of g xs
sum_of-below f g [] h = omega arith
sum_of-below f g (x ∷ xs) h = omega (arith, h x, sum_of-below f g xs h)

pub length-replicate {ℓ} : {A : Type ℓ} (n : ℕ) (a : A) → length (replicate n a) ≡ n
length-replicate zero a = refl
length-replicate (suc n) a = ap suc (length-replicate n a)

pub get_elem?-range {ℓ} :
    {A : Type ℓ} (xs : List A) (i : ℕ) (x : A) → get_elem? xs i ≡ some x → i < length xs
get_elem?-range [] i x h = cc
get_elem?-range (y ∷ xs) zero x h = omega arith
get_elem?-range (y ∷ xs) (suc i) x h = omega (arith, get_elem?-range xs i x h)

-- A change of one element changes the sum by what the element counts.
pub sum_of-set {ℓ} :
    {A : Type ℓ} (f : A → ℕ) (xs : List A) (i : ℕ) (x y : A)
    → get_elem? xs i ≡ some x
    → sum_of f (set xs i y) + f x ≡ sum_of f xs + f y
sum_of-set f [] i x y h = cc
sum_of-set f (z ∷ xs) zero x y h = let same : z ≡ x = cc in omega (arith, ap f same)
sum_of-set f (z ∷ xs) (suc i) x y h = omega (arith, sum_of-set f xs i x y h)

pub sum_of-replicate {ℓ} :
    {A : Type ℓ} (f : A → ℕ) (n : ℕ) (a : A) → f a ≡ 0 → sum_of f (replicate n a) ≡ 0
sum_of-replicate f zero a h = refl
sum_of-replicate f (suc n) a h = omega (arith, h, sum_of-replicate f n a h)

pub all_idle-set :
    {F : Type 0} (ts : List (SourceThread F)) (i : ℕ)
    → all_idle ts ≡ true
    → all_idle (set ts i idle) ≡ true
all_idle-set [] i h = refl
all_idle-set (t ∷ ts) zero h = ground (arith, h)
all_idle-set (t ∷ ts) (suc i) h = ground (arith, h, all_idle-set ts i)

pub all_idle-get :
    {F : Type 0} (ts : List (SourceThread F)) (i : ℕ) (t : SourceThread F)
    → all_idle ts ≡ true
    → get_elem? ts i ≡ some t
    → t ≡ idle
all_idle-get [] i t h g = cc
all_idle-get (u ∷ ts) zero t h g = ground (arith, h, g)
all_idle-get (u ∷ ts) (suc i) t h g = all_idle-get ts i t (ground (arith, h)) g

pub all_idle-sum :
    {F : Type 0} (f : SourceThread F → ℕ) (ts : List (SourceThread F))
    → f idle ≡ 0
    → all_idle ts ≡ true
    → sum_of f ts ≡ 0
all_idle-sum f [] z h = refl
all_idle-sum f (t ∷ ts) z h =
    let first : t ≡ idle = ground (arith, h) in
    omega (arith, ap f first, z, all_idle-sum f ts z (ground (arith, h)))
