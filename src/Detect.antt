-- ===== src/Detect.antt =====
-- tasks/detection.h, tasks/detection.cc: the head of a detector after the network.
pub mod Geometry
pub mod Nms
pub mod Decode
pub mod Candidates
pub mod Reads
pub mod Ltrb
pub mod Prefilter
pub mod Flags
pub mod Greedy
pub mod Examples
mod DecodeExamples
