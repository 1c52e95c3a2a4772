-- ===== src/Service/History/Invariant.antt =====
-- The changes of the registry of Service/src/endpoints/endpointRegistry.cpp, and its invariant.
use vision_runtime.Prelude.{
  ℕ, String, Bool, true, false, none, some, List, [], ◌∷◌, if◌then◌else◌, ◌≡◌, refl, ◌∙◌, arith,
}
use vision_runtime.Service.Map.{
  string_key, token_key, has_key, has_key-update, has_key-map, all_values-update, all_values-map,
  update, erase_key,
}
use vision_runtime.Service.Types.{Host, ParameterEndpoint, CommandEndpoint, StateSlot, StreamSlot}
use vision_runtime.Service.Registry.{Registry, empty_registry, clear, set_access_level}
use vision_runtime.Service.Publishing.{
  subscribe_state, subscribe_stream, unsubscribe, store_snapshot, offer, collect,
}
use vision_runtime.Service.History.{
  Change, registers_parameter, registers_command, registers_state, registers_stream, removes,
  clears, sets_access_level, subscribes_state, subscribes_stream, unsubscribes, publishes_state,
  publishes_frame, collects_frame, change, replay, kinds,
}
use vision_runtime.Service.History.Registrations.{
  parameter_callable, command_callable, state_callable, IsRegistry, register_parameter-IsRegistry,
  register_command-IsRegistry, register_state-IsRegistry, register_stream-IsRegistry,
  remove-IsRegistry,
}

module _ {h : Host} where
  -- Changes of single values, and of the token counter: the keys stay, and the handlers.
  parameters-IsRegistry :
      (name : String) (f : ParameterEndpoint h → ParameterEndpoint h) (r : Registry h)
      → ((e : ParameterEndpoint h) → parameter_callable (f e) ≡ parameter_callable e)
      → IsRegistry r
      → IsRegistry (record r { parameters = update name f r.parameters })
  unfolding kinds
  parameters-IsRegistry name f r same v = record {
    unambiguous = λ i. rw (has_key-update i name f r.parameters) (v.unambiguous i);
    parameters_callable =
        all_values-update parameter_callable name f r.parameters same ∙ v.parameters_callable;
    commands_callable = v.commands_callable;
    states_callable = v.states_callable;
  }

  commands-IsRegistry :
      (name : String) (f : CommandEndpoint h → CommandEndpoint h) (r : Registry h)
      → ((e : CommandEndpoint h) → command_callable (f e) ≡ command_callable e)
      → IsRegistry r
      → IsRegistry (record r { commands = update name f r.commands })
  unfolding kinds
  commands-IsRegistry name f r same v = record {
    unambiguous = λ i. rw (has_key-update i name f r.commands) (v.unambiguous i);
    parameters_callable = v.parameters_callable;
    commands_callable =
        all_values-update command_callable name f r.commands same ∙ v.commands_callable;
    states_callable = v.states_callable;
  }

  states-IsRegistry :
      (name : String) (f : StateSlot h → StateSlot h) (token : ℕ) (r : Registry h)
      → ((e : StateSlot h) → state_callable (f e) ≡ state_callable e)
      → IsRegistry r
      → IsRegistry (record r { states = update name f r.states; next_token = token })
  unfolding kinds
  states-IsRegistry name f token r same v = record {
    unambiguous = λ i. rw (has_key-update i name f r.states) (v.unambiguous i);
    parameters_callable = v.parameters_callable;
    commands_callable = v.commands_callable;
    states_callable = all_values-update state_callable name f r.states same ∙ v.states_callable;
  }

  streams-IsRegistry :
      (name : String) (f : StreamSlot h → StreamSlot h) (token : ℕ) (r : Registry h)
      → IsRegistry r
      → IsRegistry (record r { streams = update name f r.streams; next_token = token })
  unfolding kinds
  streams-IsRegistry name f token r v = record {
    unambiguous = λ i. rw (has_key-update i name f r.streams) (v.unambiguous i);
    parameters_callable = v.parameters_callable;
    commands_callable = v.commands_callable;
    states_callable = v.states_callable;
  }

  unsubscribe-IsRegistry :
      (token : ℕ) (r : Registry h) → IsRegistry r → IsRegistry (unsubscribe token r)
  unfolding unsubscribe kinds
  unsubscribe-IsRegistry token r v = record {
    unambiguous = λ i. ground (
      arith,
      v.unambiguous i,
      has_key-map i (λ s. record s { subscribers = erase_key token s.subscribers }) r.states,
      has_key-map i (λ s. record s { subscribers = erase_key token s.subscribers }) r.streams,
    );
    parameters_callable = v.parameters_callable;
    commands_callable = v.commands_callable;
    states_callable =
        all_values-map state_callable
          (λ s. record s { subscribers = erase_key token s.subscribers }) r.states (λ s. refl)
        ∙ v.states_callable;
  }

  if-keeps :
      (P : Registry h → Type 0) {A : Type 0} (b : Bool) (x y : A × Registry h)
      → P x.1
      → P y.1
      → P (if b then x else y).1
  if-keeps P true x y p q = p
  if-keeps P false x y p q = q

  change-IsRegistry : (r : Registry h) (c : Change h) → IsRegistry r → IsRegistry (change r c)
  unfolding change clear set_access_level subscribe_state subscribe_stream store_snapshot kinds
  change-IsRegistry r (registers_parameter e) v = register_parameter-IsRegistry e r v
  change-IsRegistry r (registers_command e) v = register_command-IsRegistry e r v
  change-IsRegistry r (registers_state e) v = register_state-IsRegistry e r v
  change-IsRegistry r (registers_stream e) v = register_stream-IsRegistry e r v
  change-IsRegistry r (removes name) v = remove-IsRegistry name r v
  change-IsRegistry r clears v = record {
    unambiguous = λ i. omega arith;
    parameters_callable = refl;
    commands_callable = refl;
    states_callable = refl;
  }
  change-IsRegistry r (sets_access_level name level) v =
      if-keeps IsRegistry (has_key name r.parameters) _ _
        (parameters-IsRegistry name _ r (λ e. refl) v)
        (if-keeps IsRegistry (has_key name r.commands) _ _
          (commands-IsRegistry name _ r (λ e. refl) v)
          (if-keeps IsRegistry (has_key name r.states) _ _
            (states-IsRegistry name _ r.next_token r (λ e. refl) v)
            (if-keeps IsRegistry (has_key name r.streams) _ _
              (streams-IsRegistry name _ r.next_token r v) v)))
  change-IsRegistry r (subscribes_state name none) v = v
  change-IsRegistry r (subscribes_state name (some c)) v =
      if-keeps IsRegistry (has_key name r.states) _ _ (states-IsRegistry name _ _ r (λ e. refl) v) v
  change-IsRegistry r (subscribes_stream name none) v = v
  change-IsRegistry r (subscribes_stream name (some c)) v =
      if-keeps IsRegistry (has_key name r.streams) _ _ (streams-IsRegistry name _ _ r v) v
  change-IsRegistry r (unsubscribes token) v = unsubscribe-IsRegistry token r v
  change-IsRegistry r (publishes_state name s) v =
      states-IsRegistry name (store_snapshot s) r.next_token r (λ e. refl) v
  change-IsRegistry r (publishes_frame name source frame) v =
      streams-IsRegistry name (offer source frame) r.next_token r v
  change-IsRegistry r (collects_frame name) v = streams-IsRegistry name collect r.next_token r v

  pub replay-IsRegistry :
      (r : Registry h) (history : List (Change h)) → IsRegistry r → IsRegistry (replay r history)
  unfolding replay
  replay-IsRegistry r [] v = v
  replay-IsRegistry r (c ∷ rest) v = replay-IsRegistry (change r c) rest (change-IsRegistry r c v)

  pub empty-IsRegistry : IsRegistry (empty_registry h)
  unfolding kinds
  empty-IsRegistry = record {
    unambiguous = λ i. omega arith;
    parameters_callable = refl;
    commands_callable = refl;
    states_callable = refl;
  }
