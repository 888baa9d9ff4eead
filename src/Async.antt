-- ===== src/Async.antt =====
-- pipeline/async_detection_pipeline.cc: AsyncDetectionPipeline. `Impl` has the state and what the
-- callers do, `Worker` the worker threads and the draining side, `World` the interleavings.
pub mod Interface
pub mod Impl
pub mod Worker
pub mod World
pub mod Quiet
pub mod Custody
pub mod Order
pub mod Complete
pub mod Calls
pub mod Invariant
pub mod Delivery
pub mod Progress
pub mod Examples
