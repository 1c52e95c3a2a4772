-- ===== src/Core/Status.antt =====
-- Runtime/include/core/status.hpp and Runtime/include/core/result.hpp.
use Prim.Native.String.{◌++◌}
use text.Mathlib.Text.{◌==◌ as str_eq}
use vision_runtime.Prelude.{
  String, Bool, true, false, if◌then◌else◌, ◌||◌, ◌≡◌, refl, ◌⊎◌, inl, inr,
}

pub data StatusCode : Type 0 where
  ok cancelled invalid_argument invalid_state not_found already_exists unsupported : StatusCode
  shape_mismatch resource_exhausted queue_full unavailable deadline_exceeded : StatusCode
  data_loss backend_error internal : StatusCode

unfoldable pub status_code_name : StatusCode → String
status_code_name ok = "Ok"
status_code_name cancelled = "Cancelled"
status_code_name invalid_argument = "InvalidArgument"
status_code_name invalid_state = "InvalidState"
status_code_name not_found = "NotFound"
status_code_name already_exists = "AlreadyExists"
status_code_name unsupported = "Unsupported"
status_code_name shape_mismatch = "ShapeMismatch"
status_code_name resource_exhausted = "ResourceExhausted"
status_code_name queue_full = "QueueFull"
status_code_name unavailable = "Unavailable"
status_code_name deadline_exceeded = "DeadlineExceeded"
status_code_name data_loss = "DataLoss"
status_code_name backend_error = "BackendError"
status_code_name internal = "Internal"

pub record Status : Type 0 where
  pub code : StatusCode
  pub message : String
  pub context : String

abbrev pub ok_status : Status
ok_status = record { code = ok; message = ""; context = "" }

-- The source's assertions on the code and the message state what a caller provides.
abbrev pub error : StatusCode → String → Status
error c m = record { code = c; message = m; context = "" }

abbrev pub is_ok_code : StatusCode → Bool
is_ok_code ok = true
is_ok_code _ = false

abbrev pub is_ok : Status → Bool
is_ok s = is_ok_code s.code

abbrev pub is_empty : String → Bool
is_empty s = str_eq s ""

unfoldable pub prepend_context : Status → String → Status
prepend_context s c =
    if is_ok s || is_empty c
    then s
    else if is_empty s.context
    then record s { context = c }
    else record s { context = (c ++ ": ") ++ s.context }

unfoldable pub with_context : Status → String → Status
unfolding prepend_context
with_context s c = prepend_context s c

unfoldable pub to_string : Status → String
unfolding status_code_name
to_string s =
    if is_ok s
    then status_code_name s.code
    else if is_empty s.context
    then (status_code_name s.code ++ ": ") ++ s.message
    else (((status_code_name s.code ++ ": ") ++ s.context) ++ ": ") ++ s.message

-- `Result<T>`: a value or a failed status. `Result<void>` is `Result (Unit {0})`.
pub data Result {ℓ} (A : Type ℓ) : Type ℓ where
  success : A → Result A
  failure : Status → Result A

abbrev pub has_value {ℓ} : {A : Type ℓ} → Result A → Bool
has_value (success a) = true
has_value (failure s) = false

abbrev pub status {ℓ} : {A : Type ℓ} → Result A → Status
status (success a) = ok_status
status (failure s) = s

-- `if (!r) return failure(r.status());` followed by the rest.
infixl 5 ◌>>=◌ ◌>>◌
abbrev pub ◌>>=◌ {ℓ κ} : {A : Type ℓ} {B : Type κ} → Result A → (A → Result B) → Result B
success a >>= f = f a
failure s >>= f = failure s

abbrev pub ◌>>◌ {ℓ} : {B : Type ℓ} → Result (Unit {0}) → Result B → Result B
m >> k = m >>= λ _. k

-- `if (bad) return failure(...)`.
abbrev pub reject_if : Bool → Status → Result (Unit {0})
reject_if true s = failure s
reject_if false s = success tt

pub Result-cases {ℓ} :
    {A : Type ℓ} (r : Result A) → ((a : A) × (r ≡ success a)) ⊎ ((s : Status) × (r ≡ failure s))
Result-cases (success a) = inl (a, refl)
Result-cases (failure s) = inr (s, refl)

-- Inversion of a successful chain.
pub >>=-eq-success {ℓ κ} :
    {A : Type ℓ} {B : Type κ} (m : Result A) (f : A → Result B) {b : B}
    → (m >>= f) ≡ success b
    → (a : A) × (m ≡ success a) × (f a ≡ success b)
>>=-eq-success (success a) f h = (a, refl, h)
>>=-eq-success (failure s) f h = cc

pub reject_if-eq-success :
    (b : Bool) (s : Status) {u : Unit {0}} → reject_if b s ≡ success u → b ≡ false
reject_if-eq-success true s h = cc
reject_if-eq-success false s h = refl
