-- ===== src/Service/Handlers.antt =====
-- Service/src/endpoints/endpointRegistry.cpp: the calls that run an endpoint's handler on the
-- caller's thread, outside the mutex.
pub mod Writes
use Prim.Native.String.{◌++◌ as ◌^^◌}
use vision_runtime.Prelude.{
  ℕ, String, Bool, true, false, not, ◌&&◌, ◌||◌, Option, none, some, if◌then◌else◌,
}
use vision_runtime.Core.Status.{
  Result, success, failure, Status, error, invalid_argument, not_found, unsupported, internal,
  ◌>>=◌, ◌>>◌, reject_if,
}
use vision_runtime.Service.Map.{string_key, find}
use vision_runtime.Service.Types.{
  Host, ParameterType, parameter_type_eq, ParameterValue, number, int64, boolean, string,
  parameter_type_of, ParameterDescriptor, ParameterEndpoint, CommandEndpoint, Handler, Provided,
  provided, threw, StateSnapshot, StateSlot,
}
use vision_runtime.Service.Registry.{Registry}

-- A call ends in a value and a world, or in the exception of an empty `std::function`.
pub data Call (h : Host) (A : Type 0) : Type 0 where
  returned : A → h.World → Call h A
  bad_function_call : Call h A

-- `(minimum && numeric < *minimum) || (maximum && numeric > *maximum)`.
abbrev pub below : (h : Host) → Option h.Number → h.Number → Bool
below h none n = false
below h (some bound) n = h.less n bound

abbrev pub above : (h : Host) → Option h.Number → h.Number → Bool
above h none n = false
above h (some bound) n = h.less bound n

abbrev pub provider_failed : {A : Type 0} → String → Result A
provider_failed what = failure (error internal ("state snapshot provider failed: " ^^ what))

-- A provider's snapshot, or what `catch (const std::exception&)` makes of its exception; an empty
-- provider throws `std::bad_function_call`, which is caught as well.
unfoldable pub provide :
    (h : Host) → Option (Handler h Provided) → h.World → Result StateSnapshot × h.World
provide h none w = (provider_failed "bad_function_call", w)
provide h (some f) w =
    (elim (f w).0 [ provided s ↦ success s | threw what ↦ provider_failed what ], (f w).1)

module _ {h : Host} where
  abbrev pub call : {A : Type 0} → Option (Handler h A) → h.World → Call h A
  call none w = bad_function_call
  call (some f) w = returned (f w).0 (f w).1

  unfoldable pub read_parameter : String → Registry h → h.World → Call h (Result (ParameterValue h))
  read_parameter name r w = elim (find name r.parameters) [
    | none ↦ returned (failure (error not_found ("parameter not registered: " ^^ name))) w
    | some e ↦ call e.read w
  ]

  unfoldable pub out_of_range : ParameterDescriptor h → h.Number → Bool
  out_of_range d n = below h d.minimum n || above h d.maximum n

  -- The number that the range applies to; flags and texts have none.
  unfoldable pub numeric : ParameterValue h → Option h.Number
  numeric (number n) = some n
  numeric (int64 i) = some (h.from_integer i)
  numeric (boolean b) = none
  numeric (string s) = none

  unfoldable pub rejects_number : ParameterDescriptor h → Option h.Number → Bool
  unfolding out_of_range
  rejects_number d none = false
  rejects_number d (some n) = out_of_range d n

  -- The checks of `writeParameter` before it calls the handler.
  unfoldable pub check_write : ParameterDescriptor h → String → ParameterValue h → Result (Unit {0})
  unfolding parameter_type_of numeric rejects_number
  check_write d name value = do
    reject_if (not d.writable) (error unsupported ("parameter is read-only: " ^^ name))
    reject_if (not (parameter_type_eq (parameter_type_of value) d.type))
        (error invalid_argument ("parameter value type does not match the declared type: " ^^ name))
    reject_if (rejects_number d (numeric value))
        (error invalid_argument ("parameter value is outside its allowed range: " ^^ name))

  abbrev pub write_through :
      Option (ParameterValue h → Handler h (Result (Unit {0})))
      → ParameterValue h
      → h.World
      → Result (Unit {0})
      → Call h (Result (Unit {0}))
  write_through none value w (success u) = bad_function_call
  write_through (some f) value w (success u) = returned (f value w).0 (f value w).1
  write_through f value w (failure s) = returned (failure s) w

  unfoldable pub write_parameter :
      String → ParameterValue h → Registry h → h.World → Call h (Result (Unit {0}))
  unfolding check_write
  write_parameter name value r w = elim (find name r.parameters) [
    | none ↦ returned (failure (error not_found ("parameter not registered: " ^^ name))) w
    | some e ↦ write_through e.write value w (check_write e.descriptor name value)
  ]

  unfoldable pub invoke_command : String → Registry h → h.World → Call h (Result (Unit {0}))
  invoke_command name r w = elim (find name r.commands) [
    | none ↦ returned (failure (error not_found ("command not registered: " ^^ name))) w
    | some e ↦ call e.invoke w
  ]

  abbrev pub version_in : Option (StateSlot h) → ℕ
  version_in none = 0
  version_in (some slot) = slot.latest.version

  abbrev pub current_of : StateSlot h → Option (Handler h Provided)
  current_of slot = slot.endpoint.current

  -- `stateSnapshot`: `later` is the registry when the provider has returned.
  unfoldable pub state_snapshot :
      String → Registry h → Registry h → h.World → Result StateSnapshot × h.World
  unfolding provide
  state_snapshot name r later w = elim (find name r.states) [
    | none ↦ (failure (error not_found ("state endpoint not registered: " ^^ name)), w)
    | some slot ↦ (
      (provide h slot.endpoint.current w).0 >>= λ s.
          success (record s { version = version_in (find name later.states) }),
      (provide h slot.endpoint.current w).1,
    )
  ]
