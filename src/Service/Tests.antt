-- ===== src/Service/Tests.antt =====
-- Tests of the endpoint registry on small inputs, and instances of what is proved of it.
use vision_runtime.Prelude.{
  ℕ, ◌+◌, ◌%◌, ◌^◌, ◌≤◌, true, false, ◌≡◌, ◌≢◌, refl, none, some, List, [], ◌∷◌, ◌++◌, map, ltb,
  ltb→lt, ◌⊎◌,
}
use vision_runtime.Prelude.Int.{ℤ, pos, negsuc}
use vision_runtime.Core.Status.{
  Status, Result, success, failure, error, already_exists, invalid_argument,
}
use vision_runtime.Core.DataType.{cpu_device}
use vision_runtime.Core.Buffer.{host}
use vision_runtime.Vision.FrameSpec.{gray8}
use vision_runtime.Vision.Frame.{Frame}
use vision_runtime.Service.Types.{
  Host, integer, operator, ParameterValue, int64, parameter_type_of, ParameterEndpoint,
  StreamEndpoint, StreamSlot, Handler,
}
use vision_runtime.Service.Registry.{
  Registry, empty_registry, contains, check_name_available, register_stream, new_stream,
}
use vision_runtime.Service.Handlers.{
  returned, bad_function_call, read_parameter, write_parameter, invoke_command, check_write,
  numeric, rejects_number, out_of_range,
}
use vision_runtime.Service.Handlers.Writes.{IsAdmissible, write_parameter_guarded}
use vision_runtime.Service.Publishing.{
  Service, deliver_frame, frame_delivery, perform, dropped_frames,
}
use vision_runtime.Service.Publishing.Coalescing.{publish_frames, only_the_latest_frame}
use vision_runtime.Service.History.{
  Change, registers_parameter, registers_stream, removes, kinds, replay,
}
use vision_runtime.Service.History.Safety.{one_kind_per_name, handlers_are_bound}

abbrev natural : ℤ → ℕ
natural (pos n) = n
natural (negsuc n) = 0

-- The world is one exposure time, numbers are natural, and subscribers are numbered.
abbrev bench : Host
bench = record {
  World = ℕ;
  Number = ℕ;
  less = ltb;
  from_integer = natural;
  StateCallback = ℕ;
  StreamCallback = ℕ;
}

abbrev store : ParameterValue bench → Handler bench (Result (Unit {0}))
store (int64 i) w = (success tt, natural i)
store v w = (success tt, w)

abbrev exposure : ParameterEndpoint bench
exposure = record {
  descriptor = record {
    name = "exposure";
    description = "";
    type = integer;
    writable = true;
    access_level = operator;
    minimum = some 10;
    maximum = some 100;
  };
  read = some (λ w. (success (int64 (pos w)), w));
  write = some store;
}

abbrev preview : StreamEndpoint
preview = record { name = "preview"; description = ""; access_level = operator; source_id = 0 }

-- A stream under the name of a parameter.
abbrev clash : StreamEndpoint
clash = record preview { name = "exposure" }

abbrev registry : Registry bench
registry = record (empty_registry bench) { parameters = ("exposure", exposure) ∷ [] }

clash_refused :
    register_stream clash registry
    ≡ (failure (error already_exists "endpoint already registered: exposure"), registry)
unfolding register_stream check_name_available contains
clash_refused = refl

write_stored : write_parameter "exposure" (int64 (pos 20)) registry 50 ≡ returned (success tt) 20
unfolding write_parameter check_write parameter_type_of numeric rejects_number out_of_range
write_stored = refl

write_refused :
    write_parameter "exposure" (int64 (pos 5)) registry 50
    ≡ returned
        (failure (error invalid_argument "parameter value is outside its allowed range: exposure"))
        50
unfolding write_parameter check_write parameter_type_of numeric rejects_number out_of_range
write_refused = refl

write_parameter_guarded_example :
    (IsAdmissible exposure.descriptor (int64 (pos 20))
      × (write_parameter "exposure" (int64 (pos 20)) registry 50
          ≡ returned (store (int64 (pos 20)) 50).0 (store (int64 (pos 20)) 50).1))
    ⊎ ((¬ IsAdmissible exposure.descriptor (int64 (pos 20)))
        × ((s : Status) × (write_parameter "exposure" (int64 (pos 20)) registry 50
              ≡ returned (failure s) 50)))
write_parameter_guarded_example =
    write_parameter_guarded "exposure" (int64 (pos 20)) registry 50 exposure store refl refl

abbrev changes : List (Change bench)
changes =
    registers_parameter exposure
    ∷ registers_stream clash
    ∷ removes "exposure"
    ∷ registers_stream clash
    ∷ []

one_kind_per_name_example : kinds "exposure" (replay (empty_registry bench) changes) ≤ 1
one_kind_per_name_example = one_kind_per_name "exposure" changes

handlers_are_bound_example :
    let r = replay (empty_registry bench) (registers_parameter exposure ∷ []) in
    (read_parameter "exposure" r 50 ≢ bad_function_call)
    × (write_parameter "exposure" (int64 (pos 20)) r 50 ≢ bad_function_call)
    × (invoke_command "exposure" r 50 ≢ bad_function_call)
handlers_are_bound_example =
    handlers_are_bound "exposure" (int64 (pos 20)) (registers_parameter exposure ∷ []) 50

abbrev image : ℕ → Frame
image n = record {
  buffer = record {
    owner = some n;
    address = 4096;
    capacity = 64;
    dev = cpu_device;
    memory_kind = host;
    writable = true;
  };
  byte_offset = 0;
  byte_size = 64;
  width = 8;
  height = 8;
  row_stride = 8;
  pixel_format = gray8;
  metadata = record { sequence_number = n; captured_at = 0; hardware_timestamp = none };
}

-- Subscribers 31 and 32 of a stream that has dropped 4 frames.
abbrev watched : StreamSlot bench
watched = record (new_stream preview) { subscribers = (1, 31) ∷ (2, 32) ∷ []; dropped = 4 }

abbrev service : Service bench
service = record {
  registry = record registry { streams = ("preview", watched) ∷ [] };
  dispatcher = record { tasks = []; stopping = false };
  deliveries = [];
}

listened : watched.subscribers ≢ []
listened e = cc

only_the_latest_frame_example :
    let v = publish_frames "preview" ((0, image 1) ∷ (0, image 2) ∷ (1, image 3) ∷ []) service in
    (v.dispatcher.tasks ≡ [] ++ deliver_frame "preview" 0 ∷ [])
    × (dropped_frames "preview" v.registry ≡ (4 + 2) % 2 ^ 64)
    × ((perform (deliver_frame "preview" 0) v).deliveries
        ≡ [] ++ map (λ c. frame_delivery c 1 (image 3)) (31 ∷ 32 ∷ []))
only_the_latest_frame_example =
    only_the_latest_frame "preview" (0, image 1) ((0, image 2) ∷ (1, image 3) ∷ []) service refl
      listened refl refl (ltb→lt _ _ refl) refl
