-- ===== src/Tracker.antt =====
-- tracks/byte_tracker.h, tracks/byte_tracker.cc: ByteTracker. The arithmetic of float and double is
-- a parameter.
pub mod Scalars
pub mod Matrix
pub mod Kalman
pub mod Track
pub mod Life
pub mod Cost
pub mod Gates
pub mod Boost
pub mod Solver
pub mod Lists
pub mod Update
pub mod Numbers
mod Examples
