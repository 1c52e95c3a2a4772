-- ===== src/Service/History.antt =====
-- What threads may do to the registry of Service/src/endpoints/endpointRegistry.cpp, one locked
-- section at a time.
pub mod Registrations
pub mod Invariant
pub mod Safety
use vision_runtime.Prelude.{ℕ, ◌+◌, String, Bool, List, [], ◌∷◌, Option, some, if◌then◌else◌}
use vision_runtime.Vision.Frame.{Frame}
use vision_runtime.Service.Map.{string_key, update, has_key}
use vision_runtime.Service.Types.{
  Host, AccessLevel, ParameterEndpoint, CommandEndpoint, StateEndpoint, StreamEndpoint,
  StateSnapshot,
}
use vision_runtime.Service.Registry.{
  Registry, register_parameter, register_command, register_state, register_stream, remove, clear,
  set_access_level,
}
use vision_runtime.Service.Publishing.{
  subscribe_state, subscribe_stream, unsubscribe, store_snapshot, offer, collect,
}

-- One constructor per locked section that changes the registry.
pub data Change (h : Host) : Type 0 where
  registers_parameter : ParameterEndpoint h → Change h
  registers_command : CommandEndpoint h → Change h
  registers_state : StateEndpoint h → Change h
  registers_stream : StreamEndpoint → Change h
  removes : String → Change h
  clears : Change h
  sets_access_level : String → AccessLevel → Change h
  subscribes_state : String → Option h.StateCallback → Change h
  subscribes_stream : String → Option h.StreamCallback → Change h
  unsubscribes : ℕ → Change h
  publishes_state : String → StateSnapshot → Change h
  publishes_frame : String → ℕ → Frame → Change h
  collects_frame : String → Change h

abbrev pub one_if : Bool → ℕ
one_if b = if b then 1 else 0

module _ {h : Host} where
  unfoldable pub change : Registry h → Change h → Registry h
  change r (registers_parameter e) = (register_parameter e r).1
  change r (registers_command e) = (register_command e r).1
  change r (registers_state e) = (register_state e r).1
  change r (registers_stream e) = (register_stream e r).1
  change r (removes name) = (remove name r).1
  change r clears = clear r
  change r (sets_access_level name level) = (set_access_level name level r).1
  change r (subscribes_state name c) = (subscribe_state name c r).1
  change r (subscribes_stream name c) = (subscribe_stream name c r).1
  change r (unsubscribes token) = unsubscribe token r
  change r (publishes_state name s) = record r { states = update name (store_snapshot s) r.states }
  change r (publishes_frame name source frame) = record r {
    streams = update name (offer source frame) r.streams;
  }
  change r (collects_frame name) = record r { streams = update name collect r.streams }

  unfoldable pub replay : Registry h → List (Change h) → Registry h
  unfolding change
  replay r [] = r
  replay r (c ∷ rest) = replay (change r c) rest

  -- How many of the four maps hold a name.
  unfoldable pub kinds : String → Registry h → ℕ
  kinds name r =
      one_if (has_key name r.parameters)
      + one_if (has_key name r.commands)
      + one_if (has_key name r.states)
      + one_if (has_key name r.streams)
