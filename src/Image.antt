-- ===== src/Image.antt =====
-- preproc/image.h, preproc/image.cc: pixel formats, the sizes and strides of an image, ImageView and
-- Image. An `int` that the code has checked to be positive is a ℕ from there on. Null is `none`, and
-- so is a negative descriptor.
pub mod Formats
pub mod View
pub mod Alloc
pub mod Strides
pub mod Bounds
pub mod Holds
pub mod Host
pub mod Examples
