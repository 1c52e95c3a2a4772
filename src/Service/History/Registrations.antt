-- ===== src/Service/History/Registrations.antt =====
-- The registry's invariant, with the registrations and the removal of
-- Service/src/endpoints/endpointRegistry.cpp.
use vision_runtime.Prelude.{
  ◌≤◌, String, Bool, true, false, not, ◌&&◌, ◌||◌, is_some, ◌≡◌, refl, arith,
}
use mathlib.Core.Path.{subst, sym}
use vision_runtime.Core.Status.{Result, success, failure}
use vision_runtime.Service.Map.{
  string_key, token_key, has_key-emplace, has_key-erase_le, all_values, all_values-emplace,
  all_values-erase,
}
use vision_runtime.Service.Types.{
  Host, ParameterEndpoint, CommandEndpoint, StateEndpoint, StreamEndpoint, StateSlot,
}
use vision_runtime.Service.Registry.{
  Registry, contains, check_name_available, check_parameter, check_command, check_state, when_ok,
  new_state, new_stream, register_parameter, register_command, register_state, register_stream,
  remove,
}
use vision_runtime.Service.History.{kinds}

module _ {h : Host} where
  available-fresh :
      (name : String) (r : Registry h)
      → check_name_available name r ≡ success tt
      → contains name r ≡ false
  unfolding check_name_available
  available-fresh name r e = ground (arith, e)

  fresh-kinds :
      (i name : String) (r : Registry h)
      → contains name r ≡ false
      → string_key.same i name ≡ true
      → kinds i r ≡ 0
  unfolding contains kinds
  fresh-kinds i name r fresh s =
      subst (λ j. kinds j r ≡ 0) (sym ((string_key.same_iff i name).0 s)) (ground (arith, fresh))

  -- The handlers that calls run, for an endpoint that a registration accepts.
  abbrev pub parameter_callable : ParameterEndpoint h → Bool
  parameter_callable e = is_some e.read && (not e.descriptor.writable || is_some e.write)

  abbrev pub command_callable : CommandEndpoint h → Bool
  command_callable e = is_some e.invoke

  abbrev pub state_callable : StateSlot h → Bool
  state_callable s = is_some s.endpoint.current

  pub record IsRegistry (r : Registry h) : Type 0 where
    pub unambiguous : (name : String) → kinds name r ≤ 1
    pub parameters_callable : all_values parameter_callable r.parameters ≡ true
    pub commands_callable : all_values command_callable r.commands ≡ true
    pub states_callable : all_values state_callable r.states ≡ true

  when_ok-keeps :
      (P : Registry h → Type 0) (res : Result (Unit {0})) {changed r : Registry h}
      → (res ≡ success tt → P changed)
      → P r
      → P (when_ok res changed r).1
  when_ok-keeps P (success u) k p = k refl
  when_ok-keeps P (failure s) k p = p

  pub register_parameter-IsRegistry :
      (e : ParameterEndpoint h) (r : Registry h)
      → IsRegistry r
      → IsRegistry (register_parameter e r).1
  unfolding register_parameter check_parameter kinds
  register_parameter-IsRegistry e r v =
      when_ok-keeps IsRegistry (check_parameter e r)
        (λ ok.
          let fresh = available-fresh e.descriptor.name r (ground (arith, ok)) in
          record {
            unambiguous = λ i. ground (
              arith,
              v.unambiguous i,
              fresh-kinds i e.descriptor.name r fresh,
              has_key-emplace i e.descriptor.name e r.parameters,
            );
            parameters_callable =
                all_values-emplace parameter_callable e.descriptor.name e r.parameters
                  (ground (arith, ok)) v.parameters_callable;
            commands_callable = v.commands_callable;
            states_callable = v.states_callable;
          })
        v

  pub register_command-IsRegistry :
      (e : CommandEndpoint h) (r : Registry h) → IsRegistry r → IsRegistry (register_command e r).1
  unfolding register_command check_command kinds
  register_command-IsRegistry e r v =
      when_ok-keeps IsRegistry (check_command e r)
        (λ ok.
          let fresh = available-fresh e.name r (ground (arith, ok)) in
          record {
            unambiguous = λ i. ground (
              arith,
              v.unambiguous i,
              fresh-kinds i e.name r fresh,
              has_key-emplace i e.name e r.commands,
              fresh,
            );
            parameters_callable = v.parameters_callable;
            commands_callable =
                all_values-emplace command_callable e.name e r.commands (ground (arith, ok))
                  v.commands_callable;
            states_callable = v.states_callable;
          })
        v

  pub register_state-IsRegistry :
      (e : StateEndpoint h) (r : Registry h) → IsRegistry r → IsRegistry (register_state e r).1
  unfolding register_state check_state kinds
  register_state-IsRegistry e r v =
      when_ok-keeps IsRegistry (check_state e r)
        (λ ok.
          let fresh = available-fresh e.name r (ground (arith, ok)) in
          record {
            unambiguous = λ i. ground (
              arith,
              v.unambiguous i,
              fresh-kinds i e.name r fresh,
              has_key-emplace i e.name (new_state e) r.states,
              fresh,
            );
            parameters_callable = v.parameters_callable;
            commands_callable = v.commands_callable;
            states_callable =
                all_values-emplace state_callable e.name (new_state e) r.states (ground (arith, ok))
                  v.states_callable;
          })
        v

  pub register_stream-IsRegistry :
      (e : StreamEndpoint) (r : Registry h) → IsRegistry r → IsRegistry (register_stream e r).1
  unfolding register_stream kinds
  register_stream-IsRegistry e r v =
      when_ok-keeps IsRegistry (check_name_available e.name r)
        (λ ok.
          let fresh = available-fresh e.name r ok in
          record {
            unambiguous = λ i. ground (
              arith,
              v.unambiguous i,
              fresh-kinds i e.name r fresh,
              has_key-emplace i e.name (new_stream e) r.streams,
              fresh,
            );
            parameters_callable = v.parameters_callable;
            commands_callable = v.commands_callable;
            states_callable = v.states_callable;
          })
        v

  pub remove-IsRegistry :
      (name : String) (r : Registry h) → IsRegistry r → IsRegistry (remove name r).1
  unfolding remove kinds
  remove-IsRegistry name r v = record {
    unambiguous = λ i. ground (
      arith,
      v.unambiguous i,
      has_key-erase_le i name r.parameters,
      has_key-erase_le i name r.commands,
      has_key-erase_le i name r.states,
      has_key-erase_le i name r.streams,
    );
    parameters_callable =
        all_values-erase parameter_callable name r.parameters v.parameters_callable;
    commands_callable = all_values-erase command_callable name r.commands v.commands_callable;
    states_callable = all_values-erase state_callable name r.states v.states_callable;
  }
