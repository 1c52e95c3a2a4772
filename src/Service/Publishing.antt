-- ===== src/Service/Publishing.antt =====
-- Service/src/endpoints/endpointRegistry.cpp, subscriptions and publication, with
-- Service/src/endpoints/endpointDispatcher.cpp. A task of the dispatcher is what its closure
-- captured; the calls of subscribers are recorded in the order in which they are made.
pub mod Coalescing
use Prim.Native.String.{◌++◌ as ◌^^◌}
use vision_runtime.Prelude.{
  ℕ, ◌+◌, ◌%◌, ◌^◌, String, Bool, true, false, Option, none, some, List, [], ◌∷◌, ◌++◌, map,
  is_some, ◌==◌, if◌then◌else◌,
}
use vision_runtime.Core.Status.{Result, success, failure, error, invalid_argument, not_found}
use vision_runtime.Vision.Frame.{Frame}
use vision_runtime.Service.Map.{string_key, token_key, find, emplace, erase_key, update, values}
use vision_runtime.Service.Types.{Host, StateSnapshot, StateSlot, StreamSlot}
use vision_runtime.Service.Registry.{Registry}
use vision_runtime.Service.Handlers.{provide}

pub data Task (h : Host) : Type 0 where
  deliver_state : List h.StateCallback → StateSnapshot → Task h
  -- The name of the stream, and the generation at the time of the post.
  deliver_frame : String → ℕ → Task h

pub data Delivery (h : Host) : Type 0 where
  state_delivery : h.StateCallback → StateSnapshot → Delivery h
  frame_delivery : h.StreamCallback → ℕ → Frame → Delivery h

-- `EndpointDispatcher`: the head of `tasks` is the front of the deque.
pub record Dispatcher (h : Host) : Type 0 where
  pub tasks : List (Task h)
  pub stopping : Bool

pub record Service (h : Host) : Type 0 where
  pub registry : Registry h
  pub dispatcher : Dispatcher h
  pub deliveries : List (Delivery h)

module _ {h : Host} where
  unfoldable pub post : Task h → Dispatcher h → Dispatcher h
  post t d = if d.stopping then d else record d { tasks = d.tasks ++ t ∷ [] }

  -- `shutdown`, without the join of the worker.
  unfoldable pub shutdown : Dispatcher h → Dispatcher h
  shutdown d = record d { stopping = true }

  unfoldable pub subscribe_state :
      String → Option h.StateCallback → Registry h → Result ℕ × Registry h
  subscribe_state name none r =
      (failure (error invalid_argument "state subscription requires a callback"), r)
  subscribe_state name (some c) r =
      if is_some (find name r.states)
      then (
        success r.next_token,
        record r {
          next_token = (r.next_token + 1) % 2 ^ 64;
          states =
              update name (λ s. record s { subscribers = emplace r.next_token c s.subscribers })
                r.states;
        },
      )
      else (failure (error not_found ("state endpoint not registered: " ^^ name)), r)

  unfoldable pub subscribe_stream :
      String → Option h.StreamCallback → Registry h → Result ℕ × Registry h
  subscribe_stream name none r =
      (failure (error invalid_argument "stream subscription requires a callback"), r)
  subscribe_stream name (some c) r =
      if is_some (find name r.streams)
      then (
        success r.next_token,
        record r {
          next_token = (r.next_token + 1) % 2 ^ 64;
          streams =
              update name (λ s. record s { subscribers = emplace r.next_token c s.subscribers })
                r.streams;
        },
      )
      else (failure (error not_found ("stream endpoint not registered: " ^^ name)), r)

  unfoldable pub unsubscribe : ℕ → Registry h → Registry h
  unsubscribe token r = record r {
    states =
        map (λ e. (e.0, record (e.1) { subscribers = erase_key token (e.1).subscribers })) r.states;
    streams =
        map (λ e. (e.0, record (e.1) { subscribers = erase_key token (e.1).subscribers }))
          r.streams;
  }

  -- The second locked section of `publishState`: the new version with the snapshot's payload.
  unfoldable pub store_snapshot : StateSnapshot → StateSlot h → StateSlot h
  store_snapshot s slot = record slot {
    latest = record { version = (slot.latest.version + 1) % 2 ^ 64; payload = s.payload };
  }

  abbrev pub post_state : List h.StateCallback → StateSnapshot → Dispatcher h → Dispatcher h
  post_state [] s d = d
  post_state (c ∷ cs) s d = post (deliver_state (c ∷ cs) s) d

  -- From the second locked section on, when the provider has returned a snapshot.
  unfoldable pub finish_publish : String → StateSnapshot → Service h → Result (Unit {0}) × Service h
  unfolding store_snapshot post
  finish_publish name s v = elim (find name v.registry.states) [
    | none ↦ (failure (error not_found ("state endpoint not registered: " ^^ name)), v)
    | some slot ↦ (
      success tt,
      record v {
        registry = record v.registry { states = update name (store_snapshot s) v.registry.states };
        dispatcher =
            post_state (values slot.subscribers) (store_snapshot s slot).latest v.dispatcher;
      },
    )
  ]

  abbrev pub publish_provided :
      String → Result StateSnapshot → Service h → Result (Unit {0}) × Service h
  publish_provided name (success s) v = finish_publish name s v
  publish_provided name (failure e) v = (failure e, v)

  -- `publishState`: `meanwhile` is what other threads do while the provider runs.
  unfoldable pub publish_state :
      String
      → (Service h → Service h)
      → h.World
      → Service h
      → (Result (Unit {0}) × Service h) × h.World
  unfolding provide
  publish_state name meanwhile w v = elim (find name v.registry.states) [
    | none ↦ ((failure (error not_found ("state endpoint not registered: " ^^ name)), v), w)
    | some slot ↦ (
      publish_provided name (provide h slot.endpoint.current w).0 (meanwhile v),
      (provide h slot.endpoint.current w).1,
    )
  ]

  -- What the locked section of `publishFrame` does to the stream's slot: the slot, and whether a
  -- dispatch is to be posted.
  unfoldable pub offer : ℕ → Frame → StreamSlot h → StreamSlot h
  offer source frame slot = elim slot.subscribers [
    | [] ↦ record slot { pending = none }
    | c ∷ cs ↦ record slot {
      dropped = if is_some slot.pending then (slot.dropped + 1) % 2 ^ 64 else slot.dropped;
      pending = some frame;
      pending_source_id = source;
      dispatch_scheduled = true;
    }
  ]

  unfoldable pub schedules : StreamSlot h → Bool
  schedules slot = elim slot.subscribers [
    | [] ↦ false
    | c ∷ cs ↦ if slot.dispatch_scheduled then false else true
  ]

  unfoldable pub publish_frame : String → ℕ → Frame → Service h → Service h
  unfolding offer schedules
  publish_frame name source frame v = elim (find name v.registry.streams) [
    | none ↦ v
    | some slot ↦ record v {
      registry = record v.registry {
        streams = update name (offer source frame) v.registry.streams;
      };
      dispatcher =
          if schedules slot
          then post (deliver_frame name v.registry.generation) v.dispatcher
          else v.dispatcher;
    }
  ]

  -- The locked section of a frame's dispatch.
  unfoldable pub collect : StreamSlot h → StreamSlot h
  collect slot = record slot { dispatch_scheduled = false; pending = none }

  abbrev pub frame_deliveries : List h.StreamCallback → ℕ → Option Frame → List (Delivery h)
  frame_deliveries cs source none = []
  frame_deliveries cs source (some f) = map (λ c. frame_delivery c source f) cs

  unfoldable pub deliver_pending : String → ℕ → Service h → Service h
  unfolding collect
  deliver_pending name generation v =
      if generation == v.registry.generation
      then elim (find name v.registry.streams) [
        | none ↦ v
        | some slot ↦ record v {
          registry = record v.registry { streams = update name collect v.registry.streams };
          deliveries =
              v.deliveries
              ++ frame_deliveries (values slot.subscribers) slot.pending_source_id slot.pending;
        }
      ]
      else v

  -- The call of a task; what a subscriber throws is caught and does not stop the others.
  unfoldable pub perform : Task h → Service h → Service h
  unfolding deliver_pending
  perform (deliver_state cs s) v = record v {
    deliveries = v.deliveries ++ map (λ c. state_delivery c s) cs;
  }
  perform (deliver_frame name generation) v = deliver_pending name generation v

  -- One round of the dispatcher's loop: none when the worker leaves it or waits.
  unfoldable pub run_round : Service h → Option (Service h)
  unfolding perform
  run_round v = elim v.dispatcher.tasks [
    | [] ↦ none
    | t ∷ rest ↦ some (perform t (record v { dispatcher = record v.dispatcher { tasks = rest } }))
  ]

  unfoldable pub dropped_frames : String → Registry h → ℕ
  dropped_frames name r = elim (find name r.streams) [ none ↦ 0 | some slot ↦ slot.dropped ]
