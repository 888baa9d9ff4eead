-- ===== src/Video.antt =====
-- pipeline/async_video_detection_pipeline.cc: AsyncVideoDetectionPipeline. `Channel` is the queue of
-- decoded frames, `Impl` the state and the critical sections, `World` the threads around them with
-- the asynchronous detector.
pub mod Channel
pub mod Impl
pub mod State
pub mod World
pub mod Sources
pub mod Detector
pub mod Answers
pub mod Metas
pub mod Shows
pub mod Delivery
pub mod Failure
pub mod Examples
