-- ===== src/Lib.antt =====
-- RCDL runs neural networks on the NPU of the RK3588. This library is about the parts that share
-- NPU contexts between threads, src/backend (Engine, EnginePool) and src/pipeline
-- (AsyncDetectionPipeline, AsyncVideoDetectionPipeline), and about the buffers and images that they
-- work on, src/core (DmaBuf), src/preproc (Image) and src/media (VideoFrame), and about src/tracks
-- (ByteTracker), which follows the detected objects from frame to frame; of src/tasks, the decoding
-- of detections.
--
-- How the parts interact. An Engine owns one RKNN context; `dup` makes another on the same weights.
-- An EnginePool owns several Engines and leases each to one holder at a time; a Lease gives its
-- context back when it is released, assigned over or destroyed. An AsyncDetectionPipeline has one
-- worker thread and one slot for each context of a pool. A caller acquires a slot, with a lease on
-- its context, letterboxes a frame into that context's input tensor and commits it under the next
-- sequence number; the worker runs inference and decoding without a lock, parks the result under
-- that number and returns the lease; next() and tryNext() drain the results in the order of the
-- commits. An AsyncVideoDetectionPipeline feeds such a pipeline from a video decoder: a drain thread
-- puts the decoded frames into a bounded channel, a letterbox thread takes them out, letterboxes and
-- commits them, and next() pairs each result with the timestamp and index queued for it. A
-- ByteTracker takes the detections of each frame: it predicts the tracklets, pairs them
-- with the detections in three assignments, and ends, starts and merges tracklets by what was paired.
--
-- Engine.antt: backend/engine.h and backend/engine.cc: EngineOptions is `Options`, the constructor
--   with init() is `load`, dup() is `dup`. The RKNN runtime, registerCustomOps and setupIo are the
--   fields of `Runtime`. Engine/Tensor.antt has the sizes, types and formats that setupIo gives the
--   tensors; Engine/Rows.antt the copies between packed and padded rows; Engine/Data.antt setInput
--   and what outputAsFloat gathers; Engine/Examples.antt the tests.
-- Pool.antt: backend/engine_pool.h and backend/engine_pool.cc: coreForIndex, build, both
--   constructors (`load_pool`, `dup_pool`), at, acquire, tryAcquire, give_back, and Lease with its
--   moves. Pool/Leases.antt: a program's Lease objects and its calls on them. Pool/Free.antt,
--   Pool/Invariant.antt, Pool/Build.antt, Pool/Leases/Weights.antt, Pool/Leases/Balance.antt and
--   Pool/Leases/Ownership.antt hold the proofs, Pool/Examples.antt the tests.
-- Async.antt: pipeline/async_detection_pipeline.h and pipeline/async_detection_pipeline.cc.
--   Async/Interface.antt is what the pipeline uses of the image, of the letterbox and of the model;
--   Async/Impl.antt has Impl with the callers' sections: acquireSlot (`admit`, then the pool's
--   `acquire`, then `claim`), checkedSlot, letterboxIntoSlot, commitSlot, releaseSlot;
--   Async/Worker.antt has workerLoop (`wake`, `work`, `park`), next, tryNext, finish, shutdown and
--   inFlight; Async/World.antt has the threads' interleavings as a step relation. The proofs are in
--   Async/Calls.antt (each call's branches), Async/Custody.antt (who has a context),
--   Async/Order.antt (sequence numbers), Async/Complete.antt (no frame is lost),
--   Async/Invariant.antt, Async/Delivery.antt and Async/Progress.antt; the tests in
--   Async/Examples.antt.
-- Video.antt: pipeline/async_video_detection_pipeline.h and
--   pipeline/async_video_detection_pipeline.cc: Video/Channel.antt has Channel; Video/Impl.antt Impl
--   with fail, rethrow, popMeta, the tests of drainStream, and submit and finish of the class;
--   Video/State.antt and Video/World.antt have drainLoop, letterboxLoop, next, tryNext and shutdown as
--   a step relation around the detector of Async/World.antt, whose other callers are private here. The
--   proofs are in Video/Sources.antt (where each frame is), Video/Detector.antt, Video/Answers.antt
--   (results), Video/Metas.antt (metadata), Video/Shows.antt, Video/Delivery.antt and
--   Video/Failure.antt; the tests in Video/Examples.antt.
-- Dma.antt: core/dma_buf.h and core/dma_buf.cc: alloc, fromFd, the moves, data, sync and release,
--   each with the list of what it asks of the kernel. Dma/Program.antt is a program's buffers and
--   its calls on them; Dma/Balance.antt and Dma/Ownership.antt hold the proofs, Dma/Examples.antt the
--   tests.
-- Image.antt: preproc/image.h and preproc/image.cc: Image/Formats.antt has PixelFormat, imageBytes,
--   strideAlign and alignUp; Image/View.antt has ImageView, hostView and engineInputView;
--   Image/Alloc.antt has Image::alloc and Image::view. The proofs are in Image/Strides.antt,
--   Image/Bounds.antt, Image/Holds.antt and Image/Host.antt, the tests in Image/Examples.antt.
-- Frame.antt: media/video_frame.h and media/video_frame.cc: VideoFrame, with the list of what it asks
--   of MPP and of the kernel. Frame/Program.antt is a program's frames and its calls on them;
--   Frame/Handles.antt and Frame/Ownership.antt hold the proofs, Frame/Examples.antt the tests.
-- Tracker.antt: tracks/byte_tracker.h and tracks/byte_tracker.cc. Tracker/Scalars.antt is the
--   arithmetic of double, a parameter without laws; Tracker/Matrix.antt and Tracker/Kalman.antt the
--   KalmanFilter; Tracker/Track.antt and Tracker/Life.antt STrack; Tracker/Cost.antt the costs of the
--   assignments; Tracker/Boost.antt the BoostTrack++ additions; Tracker/Solver.antt and
--   Tracker/Solver/Gate.antt linearAssignment; Tracker/Lists.antt jointStracks, subStracks and
--   removeDuplicateStracks; Tracker/Update.antt, Tracker/Update/Frame.antt and
--   Tracker/Update/Tracker.antt ByteTracker::Impl and its callers. Tracker/Update/Calls.antt is a
--   program's calls on a tracker. The proofs are there, in Tracker/Gates.antt, and in the other files
--   of Tracker/Solver, Tracker/Lists and Tracker/Update; the tests in Tracker/Examples.antt and
--   Tracker/Solver/Examples.antt, over Tracker/Numbers.antt.
-- Detect.antt: tasks/detection.h, tasks/detection.cc and preproc/geometry.h: Detect/Geometry.antt has
--   LetterboxInfo and computeLetterbox; Detect/Nms.antt nms, with std::sort as a parameter;
--   Detect/Decode.antt decode, for heads with one tensor; Detect/Ltrb.antt decodeYoloLtrb; iou is in
--   Tracker/Cost.antt, the arithmetic of float in Tracker/Scalars.antt. Detect/Flags.antt, Detect/Greedy.antt, Detect/Candidates.antt,
--   Detect/Reads.antt and Detect/Prefilter.antt hold the proofs, Detect/Examples.antt and
--   Detect/DecodeExamples.antt the tests.
-- Output.antt: backend/output_reader.h and backend/output_reader.cc: Output/Half.antt has floatToHalf
--   and halfToFloat on the bits of the formats; Output/Dequantize.antt dequantizeToFloat and
--   quantParams, with the arithmetic of float as a parameter; Output/Read.antt outputAsFloat and
--   Engine::outputAsFloat. Output/Paths.antt holds the proofs, Output/Examples.antt the tests.
-- Common.antt: names of the library passed on, Result, and lemmas on lists, integers, association
--   lists and functions of a finite range.
--
-- Granularity. A function is one critical section, or a stretch that a thread runs without a lock on
-- what it owns; a step of the relation is one such section. A section that would sleep on its
-- condition variable returns `none`. Notifications, timing, profiling and message texts are left
-- out. A call that throws before it changes anything is no step. letterboxIntoSlot checks its slot
-- under the lock and writes without it; the two are one step, since only the holder of a held slot
-- may change it.
--
-- The video decoder. Its answers to receive(), flush() and feed() are arbitrary, so the theorems hold
-- for every stream. One thread calls next() and tryNext(). `what` of an exception is any text.
--
-- Bounds. uint64_t sequence numbers wrap at 2^64, as in the source; the theorems on the order of
-- results assume that fewer than 2^64 frames are committed. size_t wraps at 2^64, and the
-- sum in alignUp at 2^32, as an int. The tracker's int counters do not wrap. Only the two do-while
-- loops of linearAssignment use fuel, n + 1 for a square of n: each round of the first visits another
-- column, and a path without a repeated column is no longer. Costs that are not numbers can give the
-- second a path with a cycle, on which it never ends; the model's result is then `none`. The loop of halfToFloat has ten rounds, since the mantissa of a
-- subnormal has ten bits. The other loops run over lists or counted ranges.
--
-- Objects of the tracker. A shared pointer to an STrack is the number of its place in a heap. A matrix
-- is a function of the row and the column. A float is a double that `narrow` has rounded.
--
-- Not modelled: the runs of the NPU, the pixels of a letterbox, codecs, the resolution of the LTRB
-- head's outputs and the heads of the other tasks, the Python bindings and the examples.
pub mod Async
pub mod Common
pub mod Detect
pub mod Dma
pub mod Engine
pub mod Frame
pub mod Image
pub mod Output
pub mod Pool
pub mod Tracker
pub mod Video
