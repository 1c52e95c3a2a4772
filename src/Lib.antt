-- ===== src/Lib.antt =====
-- VisionRuntime, a C++ runtime for vision inference, and visionService, which exposes it to a user
-- interface: their data types, buffers, queues, executors and endpoints, with what makes them right.
--
-- Parts, from the repository's root, and the files that model them:
--   Runtime/include/core: Core.Status (status.hpp, result.hpp), Core.DataType (dataType.hpp,
--   device.hpp), Core.Shape and Core.Spec (tensorShape.hpp, tensorSpec.hpp), Core.Buffer
--   (tensorBuffer.hpp) and Core.Tensor (tensor.hpp). A tensor is a view of a buffer: an offset, a
--   shape and byte strides. `validateMetadata` is `validate_metadata`, its loops are `bytes_from`,
--   `count_from` and `strides_from`; sizes are 64-bit words and keep their wrap-around.
--   Runtime/include/vision: Vision.FrameSpec and Vision.Frame (frameSpec.hpp, frame.hpp).
--   Runtime/include/memory/detail/bufferPool.hpp: Memory.BufferPool. A lease is the index of its
--   slot; `act` is one locked section of one thread. The allocator is a parameter.
--   Runtime/include/common/boundedBlockingQueue.hpp: Common.BoundedQueue, the ring buffer with one
--   function per operation, and Common.BoundedQueue.Threads, where `tryPush` and `tryPop` are the
--   single reads and writes of two threads, which interleave. Atomics are sequentially consistent.
--   Runtime/include/executor: Executor.Task (taskHandle.hpp, executorTask.hpp) and Executor.Serial
--   (serialPipelineExecutor.hpp with core/completionDispatcher.hpp). Clients, the runner thread and
--   the delivery thread are events of `step`, in any order. The pipeline is a parameter. The
--   dispatcher's queue is a bounded FIFO list, which Common.BoundedQueue.Fifo has beside the ring buffer.
--   Executor.Staged has the entry queue and the stage threads that parallelPipelineExecutor.hpp and
--   batchPipelineExecutor.hpp share, Executor.Parallel the former and Executor.Batch the latter: each
--   thread's loop is a state that `move_…` advances by one step, and deadlines are events. Two threads
--   of the latter push to the dispatcher's queue for one producer, where values can get lost.
--   Runtime/src/camera/timedTriggerSource.cpp: Camera.Trigger, whose scheduling thread and camera
--   thread are events with the camera's answers.
--   Executor.Interface is iPipelineExecutor.hpp as operations with laws, which the serial executor
--   keeps (Executor.Interface.Serial); its clients are Executor.Frames (frameExecutor.hpp) and
--   Runtime.Cameras (Runtime/include/runtime/multiCameraSession.hpp), whose source threads, timer and
--   completion callbacks are events. The executor's `wait` returns at any time there: that it leaves
--   no task in hand is a hypothesis where it is needed.
--   Runtime/include/pipeline: Pipeline.Concat and Pipeline.Batch (batchTensors.hpp), the batch of the
--   inputs, with the memory as a function, and the split of its outputs, Pipeline.Packet
--   (pipelinePacket.hpp) and Pipeline.BusinessFrames (businessFramePool.hpp).
--   Service/include/endpoints and Service/src/endpoints: Service.Types, Service.Registry (maps and
--   registration), Service.Handlers (reads, writes, commands and snapshots), Service.Publishing
--   (subscriptions, publications and the dispatcher), Service.History (all changes as one type).
--   Handlers act on a world, and this world, doubles and callbacks are the parameter `Host`.
--   Service/include/session and Service/src/session/sessionController.cpp: Service.Session. Clients,
--   the control thread and the watch thread are events, which carry the session's answers. One client
--   calls `configure` and `start`, whose joins and launches stand outside of the lock.
--
-- Pointers are addresses, a shared pointer is the number of its allocation. A mutex makes each locked
-- section one step. Loops are structural recursions: no definition runs on fuel. The bounds below
-- 2^64 on the numbers of calls are those under which the counters of the code do not wrap around.
--
-- Not modelled: joins of threads outside `configure`, destructors, weak memory orders, the pipelines
-- and their OpenCV stages, camera drivers and the other sources, YAML input, inference plugins,
-- logging, and the user interface: these are glue to libraries and devices, or parts that stand on what is here.
pub mod Prelude
pub mod Core
pub mod Vision
pub mod Memory
pub mod Common
pub mod Pipeline
pub mod Camera
pub mod Executor
pub mod Runtime
pub mod Service
