-- ===== src/Service/Handlers/Writes.antt =====
-- `writeParameter` of Service/src/endpoints/endpointRegistry.cpp.
use vision_runtime.Prelude.{
  String, true, false, ◌||◌, Option, none, some, ◌≡◌, ◌≢◌, refl, ◌∙◌, ap, arith, inl, inr, ◌⊎◌, sym,
}
use vision_runtime.Core.Status.{Status, Result, success, failure, Result-cases}
use vision_runtime.Service.Map.{string_key, find}
use vision_runtime.Service.Types.{
  Host, ParameterType, decimal, integer, flag, text, parameter_type_eq, ParameterValue,
  parameter_type_of, ParameterDescriptor, ParameterEndpoint, Handler,
}
use vision_runtime.Service.Registry.{Registry}
use vision_runtime.Service.Handlers.{
  returned, numeric, below, above, out_of_range, rejects_number, check_write, write_through,
  write_parameter,
}

-- A value that the descriptor of a parameter admits: the parameter is writable, the value has the
-- declared type, and a number is neither below the minimum nor above the maximum.
pub record IsAdmissible {h : Host} (d : ParameterDescriptor h) (value : ParameterValue h)
    : Type 0 where
  pub writable : d.writable ≡ true
  pub typed : parameter_type_of value ≡ d.type
  pub at_least : (n m : h.Number) → numeric value ≡ some n → d.minimum ≡ some m → h.less n m ≡ false
  pub at_most : (n m : h.Number) → numeric value ≡ some n → d.maximum ≡ some m → h.less m n ≡ false

parameter_type_eq_lem : (a b : ParameterType) → parameter_type_eq a b ≡ true → a ≡ b
parameter_type_eq_lem decimal decimal e = refl
parameter_type_eq_lem integer integer e = refl
parameter_type_eq_lem flag flag e = refl
parameter_type_eq_lem text text e = refl
parameter_type_eq_lem decimal integer e = cc
parameter_type_eq_lem decimal flag e = cc
parameter_type_eq_lem decimal text e = cc
parameter_type_eq_lem integer decimal e = cc
parameter_type_eq_lem integer flag e = cc
parameter_type_eq_lem integer text e = cc
parameter_type_eq_lem flag decimal e = cc
parameter_type_eq_lem flag integer e = cc
parameter_type_eq_lem flag text e = cc
parameter_type_eq_lem text decimal e = cc
parameter_type_eq_lem text integer e = cc
parameter_type_eq_lem text flag e = cc

parameter_type_eq_refl : (a : ParameterType) → parameter_type_eq a a ≡ true
parameter_type_eq_refl decimal = refl
parameter_type_eq_refl integer = refl
parameter_type_eq_refl flag = refl
parameter_type_eq_refl text = refl

success-ne-failure :
    {u : Unit {0}} {s : Status} → ◌≢◌ {A = Result (Unit {0})} (success u) (failure s)
success-ne-failure e = cc

module _ {h : Host} where
  in_range :
      (d : ParameterDescriptor h) (value : ParameterValue h)
      → rejects_number d (numeric value) ≡ false
      → ((n m : h.Number) → numeric value ≡ some n → d.minimum ≡ some m → h.less n m ≡ false)
        × ((n m : h.Number) → numeric value ≡ some n → d.maximum ≡ some m → h.less m n ≡ false)
  unfolding rejects_number out_of_range
  in_range d value e = (λ n m x y. ground (arith, x, y, e), λ n m x y. ground (arith, x, y, e))

  not_rejected :
      (d : ParameterDescriptor h) (o : Option h.Number)
      → ((n m : h.Number) → o ≡ some n → d.minimum ≡ some m → h.less n m ≡ false)
      → ((n m : h.Number) → o ≡ some n → d.maximum ≡ some m → h.less m n ≡ false)
      → rejects_number d o ≡ false
  unfolding rejects_number out_of_range
  not_rejected d none lower upper = refl
  not_rejected d (some n) lower upper =
      ap (λ b. b || above h d.maximum n) (bounded d.minimum lower') ∙ capped d.maximum upper'
    where
      lower' : (m : h.Number) → d.minimum ≡ some m → h.less n m ≡ false
      lower' m e = lower n m refl e

      upper' : (m : h.Number) → d.maximum ≡ some m → h.less m n ≡ false
      upper' m e = upper n m refl e

      bounded :
          (o : Option h.Number)
          → ((m : h.Number) → o ≡ some m → h.less n m ≡ false)
          → below h o n ≡ false
      bounded none k = refl
      bounded (some m) k = k m refl

      capped :
          (o : Option h.Number)
          → ((m : h.Number) → o ≡ some m → h.less m n ≡ false)
          → above h o n ≡ false
      capped none k = refl
      capped (some m) k = k m refl

  -- The checks pass on the admissible values and no others.
  check_write-IsAdmissible :
      (d : ParameterDescriptor h) (name : String) (value : ParameterValue h)
      → check_write d name value ≡ success tt
      → IsAdmissible d value
  unfolding check_write
  check_write-IsAdmissible d name value e =
      let (lower, upper) = in_range d value (ground (arith, e)) in
      record {
        writable = ground (arith, e);
        typed = parameter_type_eq_lem (parameter_type_of value) d.type (ground (arith, e));
        at_least = lower;
        at_most = upper;
      }

  IsAdmissible-check_write :
      (d : ParameterDescriptor h) (name : String) (value : ParameterValue h)
      → IsAdmissible d value
      → check_write d name value ≡ success tt
  unfolding check_write
  IsAdmissible-check_write d name value a = ground (
    arith,
    a.writable,
    not_rejected d (numeric value) a.at_least a.at_most,
    parameter_type_eq_refl d.type,
    a.typed,
  )

  write_through-refusal :
      (f : Option (ParameterValue h → Handler h (Result (Unit {0})))) (value : ParameterValue h)
      (w : h.World) (s : Status)
      → write_through f value w (failure s) ≡ returned (failure s) w
  write_through-refusal none value w s = refl
  write_through-refusal (some f) value w s = refl

  write_parameter-found :
      (name : String) (value : ParameterValue h) (r : Registry h) (w : h.World)
      {e : ParameterEndpoint h}
      → find name r.parameters ≡ some e
      → write_parameter name value r w
        ≡ write_through e.write value w (check_write e.descriptor name value)
  unfolding write_parameter
  write_parameter-found name value r w found = cc

  -- A write to a registered parameter with a handler: either the value is admissible and the call is
  -- that of the handler, with its result and its world; or it is not, and the write is refused with a
  -- failed status and leaves the world as it was.
  pub write_parameter_guarded :
      (name : String) (value : ParameterValue h) (r : Registry h) (w : h.World)
      (e : ParameterEndpoint h) (f : ParameterValue h → Handler h (Result (Unit {0})))
      → find name r.parameters ≡ some e
      → e.write ≡ some f
      → (IsAdmissible e.descriptor value
          × (write_parameter name value r w ≡ returned (f value w).0 (f value w).1))
        ⊎ ((¬ IsAdmissible e.descriptor value)
            × ((s : Status) × (write_parameter name value r w ≡ returned (failure s) w)))
  write_parameter_guarded name value r w e f found handler =
      elim (Result-cases (check_write e.descriptor name value)) [
        | inl (u, good) ↦ inl (
          check_write-IsAdmissible e.descriptor name value good,
          write_parameter-found name value r w found ∙ rw (handler, good) refl,
        )
        | inr (s, bad) ↦ inr (
          λ a. success-ne-failure (sym (IsAdmissible-check_write e.descriptor name value a) ∙ bad),
          (
            s,
            write_parameter-found name value r w found
                ∙ rw bad (write_through-refusal e.write value w s),
          ),
        )
      ]
