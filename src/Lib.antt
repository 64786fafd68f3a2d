-- ===== src/Lib.antt =====
-- Verification of the C++ vision engine: cpp/src and cpp/include, which find arcs between a
-- pantograph and the overhead line in pairs of visible and ultraviolet video frames.
--
-- Frames reach the engine through queues in shared memory. For each pair the detector runs a
-- network on the visible frame for regions of interest, another one on each region, removes
-- overlapping detections, and hands what is left with an energy for each to the tracker of the
-- stream, which follows arcs over time and classifies how severe they are. The results are
-- published as messages.
--
-- * Shm, for cpp/src/shm_frame_queue.cpp: `ShmFrameQueue` is the mapped memory with its two sequence
--   numbers and its slots; `create`, `push`, `push_gpu_frame`, `pop` and `pop_batch` are the
--   functions of the C interface. Shm/Inv.antt has the representation invariant, Shm/Fifo.antt the
--   abstract queue, Shm/Window.antt the frames in flight, Shm/Publish.antt and Shm/Deliver.antt the
--   two sides, Shm/Run.antt sequences of calls, each of them one step, and Shm/Names.antt with its
--   children the queues by the names of the shared memory.
-- * Shm/Atomic.antt, for one producer in `shm_queue_push` and one consumer in `shm_queue_pop` at the
--   same time: a step is one atomic operation or one access to the data of a slot. The operations
--   are interleaved one after the other, as their release and acquire orders make them appear;
--   weaker orders of memory are not modelled. Shm/Atomic/Inv.antt has the invariant,
--   Shm/Atomic/Produce.antt and Shm/Atomic/Consume.antt its proof, and Shm/Atomic/Order.antt what both
--   sides see.
-- * Severity, for the levels, `KalmanFilter1D` and `classify_severity` of cpp/src/arc_severity.cpp;
--   Severity/Laws.antt is about the classification.
-- * Tracker, for `ArcLifecycleTracker` of the same file: Tracker/Match.antt about the choice of a
--   detection for a track, Tracker/Report.antt about what `update` returns, Tracker/Expire.antt about
--   `expire_old_tracks`, Tracker/Lookup.antt about `get_track`, Tracker/Ids.antt and
--   Tracker/History.antt about sequences of calls.
-- * Nms, for the suppression that `ArcDetector::nms` of cpp/src/arc_detector.cpp and
--   `TRTEngine::postprocess` of cpp/src/trt_engine.cpp share: Nms/Greedy.antt and
--   Nms/Selection.antt.
-- * Trt, for `TRTEngine` of cpp/src/trt_engine.cpp: Trt/Load.antt about `load`, with the bindings of
--   the network in Trt/Bindings.antt, Trt/Context.antt and Trt/Buffers.antt about what one context
--   allocates and frees, Trt/Pool.antt about the pool of contexts under calls that acquire and release,
--   Trt/Postprocess.antt about the output, Trt/Infer.antt about one image with its preprocessing,
--   Trt/Batch.antt about `infer_batch`.
-- * Energy, for `EnergyEstimator` of cpp/src/arc_severity.cpp; Energy/Bounds.antt is about the pixels that
--   `compute_instant_energy_gpu` reads, Energy/Host.antt about `compute_instant_energy`,
--   with the first channel of an image in Energy/Channel.antt.
-- * Detector, for `ArcDetector::detect` of cpp/src/arc_detector.cpp on an initialised stream:
--   Detector/Annotate.antt about how an event gets the state of its track, Detector/Frame.antt
--   about the energies and the tracker, Detector/Regions.antt about the blend and the crops,
--   Detector/Events.antt about the stream and the time of events, Detector/Detect.antt about a
--   whole frame. `Input` is what one frame brings: the two images, and what the device and the
--   networks do for them.
-- * Wire, for the messages of cpp/src/zmq_publisher.cpp: Wire/Bounds.antt about a receiver facing any
--   bytes, Wire/RoundTrip.antt about a receiver facing a publisher.
-- * Publisher, for `ZmqPublisher` of the same file: Publisher/Handles.antt about the context and the
--   socket over sequences of calls, Publisher/Sessions.antt about what is left open,
--   Publisher/Deliver.antt about messages.
-- * Kernel, for cpp/src/cuda_preprocess.cu: Kernel/Paint.antt about the pixels of an image,
--   Kernel/Launch.antt about a launch whose threads run in any order, Kernel/Pixels.antt about the
--   pictures that are read, Kernel/Blend.antt, Kernel/Crop.antt and Kernel/Resize.antt with its child about
--   the kernels and the functions that start them. An access outside of a buffer, or one whose index does
--   not fit an `int`, gives `none`.
-- * Streams, for `ArcDetector` of cpp/src/arc_detector.cpp with its map of streams: Streams/Contexts.antt
--   about how contexts come and go, Streams/Frames.antt, Streams/Apart.antt, Streams/Serve.antt
--   and Streams/Told.antt about frames of several streams, each call of `detect` one step.
-- * Engine, for cpp/src/engine_main.cpp: Engine/Start.antt about `arcvision_engine_init`,
--   Engine/Results.antt about `arcvision_engine_process_frame` and a subscriber of its messages,
--   Engine/Loop.antt with its children about `stream_detect_loop`, Engine/Queues.antt about its queues as
--   pointers into a shared memory, Engine/Threads.antt about the registration of the queues and about
--   `arcvision_engine_run_loop`, with a thread for each stream and a pass of its loop as one step.
--
-- Bounds. `stream_detect_loop` runs on fuel, one for each pass; Engine/Loop/Ends.antt is about the fuel
-- that is enough. All other loops are structural recursions. `size_t` and the counts on
-- the wire keep their wrap-around; the sequence numbers, the track identifiers and the frame
-- counts are naturals; Tracker/History.antt bounds the identifiers by the number of detections. An offset into
-- an image, or an area, that does not fit an `int` is a fault; the corners of a region are integers without a
-- bound. Time stamps are integers without
-- a bound.
--
-- Parameters. `float` and `double` are a type with the operations of the record `Floating`
-- (Common/Floating.antt); a theorem names the laws of the order that it needs, and the runs are made
-- in hundredths. What the operating system, CUDA, TensorRT, `std::sort` and the layout of a struct
-- do is an argument.
--
-- Not modelled: a shutdown in the middle of a pass, the return of `arcvision_engine_run_loop` from `join`, the branches of
-- the queue for Windows, and the Go programs beside the engine.
pub mod Common
pub mod Shm
pub mod Severity
pub mod Tracker
pub mod Nms
pub mod Wire
pub mod Trt
pub mod Energy
pub mod Detector
pub mod Kernel
pub mod Publisher
pub mod Streams
pub mod Engine
