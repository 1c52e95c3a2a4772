-- ===== src/Service/History/Safety.antt =====
-- Names and handlers in the registry of Service/src/endpoints/endpointRegistry.cpp.
use vision_runtime.Prelude.{◌≤◌, String, true, List, ◌≡◌, ◌≢◌, arith, Option-cases, inl, inr}
use vision_runtime.Service.Map.{string_key, find, all_values-find}
use vision_runtime.Service.Types.{Host, ParameterValue, ParameterEndpoint}
use vision_runtime.Service.Registry.{Registry, empty_registry}
use vision_runtime.Service.Handlers.{
  bad_function_call, read_parameter, write_parameter, invoke_command, write_through, check_write,
}
use vision_runtime.Service.History.{Change, replay, kinds}
use vision_runtime.Service.History.Invariant.{replay-IsRegistry, empty-IsRegistry}
use vision_runtime.Service.History.Registrations.{IsRegistry, parameter_callable, command_callable}

module _ {h : Host} where
  -- Whatever threads do to the registry from its construction on, a name is never held by two kinds
  -- of endpoint at once.
  pub one_kind_per_name :
      (name : String) (history : List (Change h))
      → kinds name (replay (empty_registry h) history) ≤ 1
  one_kind_per_name name history =
      (replay-IsRegistry (empty_registry h) history empty-IsRegistry).unambiguous name

  write_of_callable :
      (e : ParameterEndpoint h) (name : String) (value : ParameterValue h) (w : h.World)
      → parameter_callable e ≡ true
      → write_through e.write value w (check_write e.descriptor name value) ≢ bad_function_call
  unfolding check_write
  write_of_callable e name value w callable bad = ground (arith, callable, bad)

  read_is_bound :
      (name : String) (r : Registry h) (w : h.World)
      → IsRegistry r
      → read_parameter name r w ≢ bad_function_call
  unfolding read_parameter
  read_is_bound name r w v bad = elim (Option-cases (find name r.parameters)) [
    | inl missing ↦ ground (arith, missing, bad)
    | inr (e, found) ↦ ground (
      arith,
      found,
      bad,
      all_values-find parameter_callable name r.parameters v.parameters_callable found,
    )
  ]

  write_is_bound :
      (name : String) (value : ParameterValue h) (r : Registry h) (w : h.World)
      → IsRegistry r
      → write_parameter name value r w ≢ bad_function_call
  unfolding write_parameter
  write_is_bound name value r w v bad = elim (Option-cases (find name r.parameters)) [
    | inl missing ↦ ground (arith, missing, bad)
    | inr (e, found) ↦
        write_of_callable e name value w
          (all_values-find parameter_callable name r.parameters v.parameters_callable found)
          (ground (arith, found, bad))
  ]

  invoke_is_bound :
      (name : String) (r : Registry h) (w : h.World)
      → IsRegistry r
      → invoke_command name r w ≢ bad_function_call
  unfolding invoke_command
  invoke_is_bound name r w v bad = elim (Option-cases (find name r.commands)) [
    | inl missing ↦ ground (arith, missing, bad)
    | inr (e, found) ↦ ground (
      arith,
      found,
      bad,
      all_values-find command_callable name r.commands v.commands_callable found,
    )
  ]

  -- Whatever threads did to the registry from its construction on, a read or a write of a parameter
  -- and the invocation of a command never run an empty handler.
  pub handlers_are_bound :
      (name : String) (value : ParameterValue h) (history : List (Change h)) (w : h.World)
      → let r = replay (empty_registry h) history in
        (read_parameter name r w ≢ bad_function_call)
        × (write_parameter name value r w ≢ bad_function_call)
        × (invoke_command name r w ≢ bad_function_call)
  handlers_are_bound name value history w =
      let r = replay (empty_registry h) history in
      let v = replay-IsRegistry (empty_registry h) history empty-IsRegistry in
      (read_is_bound name r w v, write_is_bound name value r w v, invoke_is_bound name r w v)
