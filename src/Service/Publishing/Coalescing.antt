-- ===== src/Service/Publishing/Coalescing.antt =====
-- Bursts of frames in `publishFrame` of Service/src/endpoints/endpointRegistry.cpp.
use vision_runtime.Prelude.{
  ℕ, suc, ◌+◌, ◌%◌, ◌^◌, ◌<◌, String, true, false, none, some, List, [], ◌∷◌, ◌++◌, map, is_some,
  ==_iff, if◌then◌else◌, length, ◌≡◌, ◌≢◌, refl, ◌∙◌, sym, ap, arith,
}
use mathlib.Core.Path.{subst}
use vision_runtime.Vision.Frame.{Frame}
use vision_runtime.Service.Map.{string_key, token_key, find, update, find-update_self, values}
use vision_runtime.Service.Types.{Host, StreamSlot}
use vision_runtime.Service.Registry.{Registry}
use vision_runtime.Service.Publishing.{
  deliver_frame, frame_delivery, Service, post, offer, schedules, publish_frame, deliver_pending,
  perform, dropped_frames,
}

abbrev pub last_of : {A : Type 0} → A → List A → A
last_of a [] = a
last_of a (b ∷ bs) = last_of b bs

module _ {h : Host} where
  -- Frames that a pipeline offers to a stream, with their sources, while the dispatcher is busy.
  unfoldable pub publish_frames : String → List (ℕ × Frame) → Service h → Service h
  publish_frames name [] v = v
  publish_frames name ((source, frame) ∷ rest) v =
      publish_frames name rest (publish_frame name source frame v)

  -- The slot after `n` frames were superseded, with the last frame pending.
  abbrev after_burst : StreamSlot h → ℕ → ℕ × Frame → StreamSlot h
  after_burst slot n last = record slot {
    dropped = (slot.dropped + n) % 2 ^ 64;
    pending = some last.1;
    pending_source_id = last.0;
    dispatch_scheduled = true;
  }

  -- The service during a burst: one delivery of the stream is posted behind the tasks before it.
  record IsBurst (name : String) (before : Service h) (slot : StreamSlot h) (n : ℕ)
      (last : ℕ × Frame) (v : Service h) : Type 0 where
    found : find name v.registry.streams ≡ some (after_burst slot n last)
    same_generation : v.registry.generation ≡ before.registry.generation
    posted :
        v.dispatcher.tasks
        ≡ before.dispatcher.tasks ++ deliver_frame name before.registry.generation ∷ []
    undelivered : v.deliveries ≡ before.deliveries

  -- What an offer does to a stream that somebody listens to, given the count of dropped frames.
  offer-listened :
      (source : ℕ) (frame : Frame) (slot : StreamSlot h) (d : ℕ)
      → slot.subscribers ≢ []
      → (if is_some slot.pending then (slot.dropped + 1) % 2 ^ 64 else slot.dropped) ≡ d
      → offer source frame slot ≡ record slot {
        dropped = d;
        pending = some frame;
        pending_source_id = source;
        dispatch_scheduled = true;
      }
  unfolding offer
  offer-listened source frame slot d listened e = ground (arith, e)

  publish_frame-found :
      (name : String) (source : ℕ) (frame : Frame) (v : Service h) {slot : StreamSlot h}
      → find name v.registry.streams ≡ some slot
      → publish_frame name source frame v ≡ record v {
        registry = record v.registry {
          streams = update name (offer source frame) v.registry.streams;
        };
        dispatcher =
            if schedules slot
            then post (deliver_frame name v.registry.generation) v.dispatcher
            else v.dispatcher;
      }
  unfolding publish_frame
  publish_frame-found name source frame v e = cc

  first_frame :
      (name : String) (frame : ℕ × Frame) (v : Service h) {slot : StreamSlot h}
      → find name v.registry.streams ≡ some slot
      → slot.subscribers ≢ []
      → slot.pending ≡ none
      → slot.dispatch_scheduled ≡ false
      → slot.dropped < 2 ^ 64
      → v.dispatcher.stopping ≡ false
      → IsBurst name v slot 0 frame (publish_frame name frame.0 frame.1 v)
  unfolding schedules post
  first_frame name frame v {slot} e listened idle unscheduled bound running =
      rw (publish_frame-found name frame.0 frame.1 v e) record {
        found =
            find-update_self name (offer frame.0 frame.1) v.registry.streams e ∙ ap some started;
        same_generation = refl;
        posted = ground (arith, listened, unscheduled, running);
        undelivered = refl;
      }
    where
      started : offer frame.0 frame.1 slot ≡ after_burst slot 0 frame
      started = offer-listened frame.0 frame.1 slot _ listened (ground (arith, idle, bound))

  next_frame :
      (name : String) (frame last : ℕ × Frame) (before v : Service h) (slot : StreamSlot h) (n : ℕ)
      → slot.subscribers ≢ []
      → IsBurst name before slot n last v
      → IsBurst name before slot (suc n) frame (publish_frame name frame.0 frame.1 v)
  unfolding schedules
  next_frame name frame last before v slot n listened b =
      rw (publish_frame-found name frame.0 frame.1 v b.found) record {
        found =
            find-update_self name (offer frame.0 frame.1) v.registry.streams b.found
            ∙ ap some superseded;
        same_generation = b.same_generation;
        posted = ground (arith, listened, b.posted);
        undelivered = b.undelivered;
      }
    where
      superseded : offer frame.0 frame.1 (after_burst slot n last) ≡ after_burst slot (suc n) frame
      superseded = offer-listened frame.0 frame.1 (after_burst slot n last) _ listened (omega arith)

  frames-IsBurst :
      (name : String) (rest : List (ℕ × Frame)) (last : ℕ × Frame) (before v : Service h)
      (slot : StreamSlot h) (n : ℕ)
      → slot.subscribers ≢ []
      → IsBurst name before slot n last v
      → IsBurst name before slot (n + length rest) (last_of last rest) (publish_frames name rest v)
  unfolding publish_frames
  frames-IsBurst name [] last before v slot n listened b =
      subst (λ k. IsBurst name before slot k last v) (sym (omega arith)) b
  frames-IsBurst name (frame ∷ rest) last before v slot n listened b =
      subst
        (λ k.
          IsBurst name before slot k (last_of frame rest) (publish_frames name (frame ∷ rest) v))
        (omega arith)
        (frames-IsBurst name rest frame before (publish_frame name frame.0 frame.1 v) slot (suc n)
          listened (next_frame name frame last before v slot n listened b))

  delivery-after_burst :
      (name : String) (slot : StreamSlot h) (n : ℕ) (last : ℕ × Frame) (v : Service h)
      → find name v.registry.streams ≡ some (after_burst slot n last)
      → (deliver_pending name v.registry.generation v).deliveries
        ≡ v.deliveries ++ map (λ c. frame_delivery c last.0 last.1) (values slot.subscribers)
  unfolding deliver_pending
  delivery-after_burst name slot n last v e =
      rw ((==_iff v.registry.generation v.registry.generation).1 refl, e) refl

  dropped_frames-found :
      (name : String) (r : Registry h) {slot : StreamSlot h}
      → find name r.streams ≡ some slot
      → dropped_frames name r ≡ slot.dropped
  unfolding dropped_frames
  dropped_frames-found name r e = cc

  -- Frames published in a row to a stream with subscribers, no frame pending and no delivery
  -- scheduled, while the dispatcher is open: a single delivery is posted, behind the tasks that were
  -- there. All frames but the last are counted as dropped, and the delivery passes the last frame,
  -- with its source, to each of the subscribers once.
  pub only_the_latest_frame :
      (name : String) (first : ℕ × Frame) (rest : List (ℕ × Frame)) (v : Service h)
      {slot : StreamSlot h}
      → find name v.registry.streams ≡ some slot
      → slot.subscribers ≢ []
      → slot.pending ≡ none
      → slot.dispatch_scheduled ≡ false
      → slot.dropped < 2 ^ 64
      → v.dispatcher.stopping ≡ false
      → let v' = publish_frames name (first ∷ rest) v in
        let last = last_of first rest in
        let generation = v.registry.generation in
        (v'.dispatcher.tasks ≡ v.dispatcher.tasks ++ deliver_frame name generation ∷ [])
        × (dropped_frames name v'.registry ≡ (slot.dropped + length rest) % 2 ^ 64)
        × ((perform (deliver_frame name generation) v').deliveries
            ≡ v.deliveries ++ map (λ c. frame_delivery c last.0 last.1) (values slot.subscribers))
  unfolding publish_frames perform
  only_the_latest_frame name first rest v {slot} e listened idle unscheduled bound running = (
    b.posted,
    dropped_frames-found name v'.registry b.found,
    ap (λ g. (deliver_pending name g v').deliveries) (sym b.same_generation)
        ∙ delivery-after_burst name slot (length rest) (last_of first rest) v' b.found
        ∙ ap
            (λ d.
              d
              ++ map (λ c. frame_delivery c (last_of first rest).0 (last_of first rest).1)
                  (values slot.subscribers))
            b.undelivered,
  )
    where
      v' : Service h
      v' = publish_frames name (first ∷ rest) v

      b : IsBurst name v slot (length rest) (last_of first rest) v'
      b =
          subst (λ k. IsBurst name v slot k (last_of first rest) v') (omega arith)
            (frames-IsBurst name rest first v (publish_frame name first.0 first.1 v) slot 0 listened
              (first_frame name first v e listened idle unscheduled bound running))
