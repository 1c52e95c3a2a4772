-- ===== src/Service/Registry.antt =====
-- Service/src/endpoints/endpointRegistry.cpp: registration, parameters and subscriptions. Each
-- section that holds the registry's mutex is one step.
use Prim.Native.String.{◌++◌ as ◌^^◌}
use vision_runtime.Prelude.{
  ℕ, ◌+◌, ◌^◌, ◌%◌, String, Bool, false, not, ◌&&◌, ◌||◌, none, List, [], ◌++◌, map, is_some,
  if◌then◌else◌,
}
use vision_runtime.Core.Status.{
  Result, success, failure, error, invalid_argument, not_found, already_exists, ◌>>◌, reject_if,
  is_empty,
}
use vision_runtime.Service.Map.{string_key, token_key, has_key, emplace, erase_key, update}
use vision_runtime.Service.Types.{
  Host, AccessLevel, ParameterEndpoint, CommandEndpoint, StateEndpoint, StreamEndpoint, StateSlot,
  StreamSlot,
}

module _ (h : Host) where
  pub record Registry : Type 0 where
    pub parameters : List (String × ParameterEndpoint h)
    pub commands : List (String × CommandEndpoint h)
    pub states : List (String × StateSlot h)
    pub streams : List (String × StreamSlot h)
    pub next_token : ℕ
    pub generation : ℕ

  abbrev pub empty_registry : Registry
  empty_registry = record {
    parameters = [];
    commands = [];
    states = [];
    streams = [];
    next_token = 1;
    generation = 0;
  }

module _ {h : Host} where
  unfoldable pub contains : String → Registry h → Bool
  contains name r =
      has_key name r.parameters
      || has_key name r.commands
      || has_key name r.states
      || has_key name r.streams

  unfoldable pub check_name_available : String → Registry h → Result (Unit {0})
  unfolding contains
  check_name_available name r = do
    reject_if (is_empty name) (error invalid_argument "endpoint name must not be empty")
    reject_if (contains name r) (error already_exists ("endpoint already registered: " ^^ name))

  -- The rest of a registration, once the name is known to be free: the change, or the failure.
  abbrev pub when_ok : Result (Unit {0}) → Registry h → Registry h → Result (Unit {0}) × Registry h
  when_ok (success u) changed r = (success u, changed)
  when_ok (failure s) changed r = (failure s, r)

  abbrev pub new_state : StateEndpoint h → StateSlot h
  new_state e = record {
    endpoint = e;
    latest = record { version = 0; payload = "" };
    subscribers = [];
  }

  abbrev pub new_stream : StreamEndpoint → StreamSlot h
  new_stream e = record {
    endpoint = e;
    subscribers = [];
    pending = none;
    pending_source_id = 0;
    dispatch_scheduled = false;
    dropped = 0;
  }

  unfoldable pub check_parameter : ParameterEndpoint h → Registry h → Result (Unit {0})
  unfolding check_name_available
  check_parameter e r = do
    reject_if (not (is_some e.read))
        (error invalid_argument "parameter endpoint requires a read callback")
    reject_if (e.descriptor.writable && not (is_some e.write))
        (error invalid_argument "writable parameter endpoint requires a write callback")
    check_name_available e.descriptor.name r

  unfoldable pub register_parameter :
      ParameterEndpoint h → Registry h → Result (Unit {0}) × Registry h
  unfolding check_parameter
  register_parameter e r =
      when_ok (check_parameter e r)
        (record r { parameters = emplace e.descriptor.name e r.parameters }) r

  unfoldable pub check_command : CommandEndpoint h → Registry h → Result (Unit {0})
  unfolding check_name_available
  check_command e r = do
    reject_if (not (is_some e.invoke))
        (error invalid_argument "command endpoint requires an invoke callback")
    check_name_available e.name r

  unfoldable pub register_command : CommandEndpoint h → Registry h → Result (Unit {0}) × Registry h
  unfolding check_command
  register_command e r =
      when_ok (check_command e r) (record r { commands = emplace e.name e r.commands }) r

  unfoldable pub check_state : StateEndpoint h → Registry h → Result (Unit {0})
  unfolding check_name_available
  check_state e r = do
    reject_if (not (is_some e.current))
        (error invalid_argument "state endpoint requires a snapshot provider")
    check_name_available e.name r

  unfoldable pub register_state : StateEndpoint h → Registry h → Result (Unit {0}) × Registry h
  unfolding check_state
  register_state e r =
      when_ok (check_state e r) (record r { states = emplace e.name (new_state e) r.states }) r

  unfoldable pub register_stream : StreamEndpoint → Registry h → Result (Unit {0}) × Registry h
  unfolding check_name_available
  register_stream e r =
      when_ok (check_name_available e.name r)
        (record r { streams = emplace e.name (new_stream e) r.streams }) r

  -- `remove`: the test that something was erased is made on the maps before the erasure.
  unfoldable pub remove : String → Registry h → Result (Unit {0}) × Registry h
  unfolding contains
  remove name r = (
    reject_if (not (contains name r)) (error not_found ("endpoint not registered: " ^^ name)),
    record r {
      parameters = erase_key name r.parameters;
      commands = erase_key name r.commands;
      states = erase_key name r.states;
      streams = erase_key name r.streams;
    },
  )

  unfoldable pub clear : Registry h → Registry h
  clear r = record {
    parameters = [];
    commands = [];
    states = [];
    streams = [];
    next_token = r.next_token;
    generation = (r.generation + 1) % 2 ^ 64;
  }

  unfoldable pub endpoint_names : Registry h → List String
  endpoint_names r =
      map (λ e. e.0) r.parameters
      ++ map (λ e. e.0) r.commands
      ++ map (λ e. e.0) r.states
      ++ map (λ e. e.0) r.streams

  unfoldable pub set_access_level :
      String → AccessLevel → Registry h → Result (Unit {0}) × Registry h
  set_access_level name level r =
      if has_key name r.parameters
      then (
        success tt,
        record r {
          parameters =
              update name
                (λ e. record e { descriptor = record e.descriptor { access_level = level } })
                r.parameters;
        },
      )
      else if has_key name r.commands
      then (
        success tt,
        record r { commands = update name (λ e. record e { access_level = level }) r.commands },
      )
      else if has_key name r.states
      then (
        success tt,
        record r {
          states =
              update name (λ s. record s { endpoint = record s.endpoint { access_level = level } })
                r.states;
        },
      )
      else if has_key name r.streams
      then (
        success tt,
        record r {
          streams =
              update name (λ s. record s { endpoint = record s.endpoint { access_level = level } })
                r.streams;
        },
      )
      else (failure (error not_found ("endpoint not registered: " ^^ name)), r)
