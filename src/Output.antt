-- ===== src/Output.antt =====
-- backend/output_reader.cc: what a decoder reads of an output tensor. `Half` has the conversions of 16
-- bit floats, `Dequantize` the conversion of a tensor,
-- `Read` the choice of the path.
pub mod Half
pub mod Dequantize
pub mod Read
pub mod Paths
pub mod Examples
