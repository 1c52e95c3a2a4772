-- ===== src/Vision/FrameSpec.antt =====
-- Runtime/include/vision/frameSpec.hpp.
use vision_runtime.Prelude.{
  ℕ, Bool, true, false, ◌&&◌, ◌||◌, ◌≡◌, refl, List, [], ◌∷◌, Option, arith, ltb, ◌==◌, and_left,
  and_right, and_intro, Bool-cases, inl, inr, ==_iff,
}
use vision_runtime.Core.DataType.{Device, device_is_valid, device_eq}
use vision_runtime.Core.Spec.{covers, all_some, covers_trans, device_eq_trans}

pub data PixelFormat : Type 0 where
  gray8 gray16 bgr8 rgb8 bgra8 rgba8 float32_gray : PixelFormat

abbrev pub pixel_format_size : PixelFormat → ℕ
pixel_format_size gray8 = 1
pixel_format_size gray16 = 2
pixel_format_size bgr8 = 3
pixel_format_size rgb8 = 3
pixel_format_size bgra8 = 4
pixel_format_size rgba8 = 4
pixel_format_size float32_gray = 4

-- The value of an enumerator.
abbrev pub pixel_format_value : PixelFormat → ℕ
pixel_format_value gray8 = 0
pixel_format_value gray16 = 1
pixel_format_value bgr8 = 2
pixel_format_value rgb8 = 3
pixel_format_value bgra8 = 4
pixel_format_value rgba8 = 5
pixel_format_value float32_gray = 6

abbrev pub pixel_format_eq : PixelFormat → PixelFormat → Bool
pixel_format_eq a b = pixel_format_value a == pixel_format_value b

pub record FrameSpec : Type 0 where
  pub pixel_formats : List PixelFormat
  pub width : Option ℕ
  pub height : Option ℕ
  pub device : Option Device

unfoldable pub frame_spec_is_valid : FrameSpec → Bool
frame_spec_is_valid s =
    all_some (λ w. ltb 0 w) s.width
    && all_some (λ h. ltb 0 h) s.height
    && all_some (λ d. device_is_valid d) s.device

-- `std::ranges::find(formats, f) != formats.end()`.
unfoldable pub contains_format : PixelFormat → List PixelFormat → Bool
contains_format f [] = false
contains_format f (g ∷ gs) = pixel_format_eq g f || contains_format f gs

unfoldable pub all_contained : List PixelFormat → List PixelFormat → Bool
all_contained required [] = true
all_contained required (f ∷ fs) = contains_format f required && all_contained required fs

unfoldable pub formats_accept : List PixelFormat → List PixelFormat → Bool
formats_accept [] produced = true
formats_accept (r ∷ rs) [] = false
formats_accept (r ∷ rs) (p ∷ ps) = all_contained (r ∷ rs) (p ∷ ps)

unfoldable pub frame_spec_accepts : FrameSpec → FrameSpec → Bool
frame_spec_accepts r p =
    frame_spec_is_valid r
    && frame_spec_is_valid p
    && formats_accept r.pixel_formats p.pixel_formats
    && covers (λ a b. a == b) r.width p.width
    && covers (λ a b. a == b) r.height p.height
    && covers (λ a b. device_eq a b) r.device p.device

contains_of_all :
    (r p : List PixelFormat) (f : PixelFormat)
    → all_contained r p ≡ true
    → contains_format f p ≡ true
    → contains_format f r ≡ true
unfolding all_contained contains_format
contains_of_all r [] f h k = cc
contains_of_all r (g ∷ gs) f h k = elim (Bool-cases (pixel_format_eq g f)) [
  | inl same ↦ same_value r g f ((==_iff _ _).0 same) (and_left _ _ h)
  | inr other ↦ contains_of_all r gs f (and_right _ _ h) (rw other at k)
]
  where
    same_value :
        (r : List PixelFormat) (g f : PixelFormat)
        → pixel_format_value g ≡ pixel_format_value f
        → contains_format g r ≡ true
        → contains_format f r ≡ true
    same_value [] g f e h = cc
    same_value (x ∷ xs) g f e h = ground (arith, same_value xs g f e)

all_contained_trans :
    (a b c : List PixelFormat)
    → all_contained a b ≡ true
    → all_contained b c ≡ true
    → all_contained a c ≡ true
unfolding all_contained
all_contained_trans a b [] h k = refl
all_contained_trans a b (f ∷ fs) h k =
    and_intro _ _ (contains_of_all a b f h (and_left _ _ k))
      (all_contained_trans a b fs h (and_right _ _ k))

formats_trans :
    (a b c : List PixelFormat)
    → formats_accept a b ≡ true
    → formats_accept b c ≡ true
    → formats_accept a c ≡ true
unfolding formats_accept
formats_trans [] b c h k = refl
formats_trans (x ∷ a) [] c h k = cc
formats_trans (x ∷ a) (y ∷ b) [] h k = cc
formats_trans (x ∷ a) (y ∷ b) (z ∷ c) h k = all_contained_trans (x ∷ a) (y ∷ b) (z ∷ c) h k

number_trans : (a b c : ℕ) → (a == b) ≡ true → (b == c) ≡ true → (a == c) ≡ true
number_trans a b c h k = ground arith

-- If one frame specification accepts a second and the second a third, the first accepts the third.
pub frame_spec_accepts_trans :
    (a b c : FrameSpec)
    → frame_spec_accepts a b ≡ true
    → frame_spec_accepts b c ≡ true
    → frame_spec_accepts a c ≡ true
unfolding frame_spec_accepts
frame_spec_accepts_trans a b c h k = ground (
  arith,
  formats_trans a.pixel_formats b.pixel_formats c.pixel_formats,
  covers_trans (λ a b. a == b) a.width b.width c.width number_trans,
  covers_trans (λ a b. a == b) a.height b.height c.height number_trans,
  covers_trans (λ a b. device_eq a b) a.device b.device c.device device_eq_trans,
)
