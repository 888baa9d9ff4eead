-- ===== src/Image/Formats.antt =====
-- preproc/image.cc: PixelFormat, and the sizes that follow from it.
use rcdl.Common.{ℕ, suc, ◌+◌, ◌-◌, ◌*◌, ◌/◌, ◌%◌, ◌^◌, Bool, true, false, ◌||◌, ltb, if◌then◌else◌}
use rcdl.Common.Int.{ℤ, pos, negsuc, leb_ℤ, pos_part, sub_ℕ, int_of_word}

pub data PixelFormat : Type 0 where
  unknown rgb888 bgr888 rgba8888 bgra8888 gray8 nv12 nv21 yuv420p : PixelFormat

unfoldable pub is_unknown : PixelFormat → Bool
is_unknown unknown = true
is_unknown _ = false

-- Channels in an NHWC tensor; 0 if the format cannot describe one.
unfoldable pub tensor_channels : PixelFormat → ℕ
tensor_channels gray8 = 1
tensor_channels rgb888 = 3
tensor_channels bgr888 = 3
tensor_channels rgba8888 = 4
tensor_channels bgra8888 = 4
tensor_channels _ = 0

unfoldable pub bytes_per_pixel : PixelFormat → ℕ
bytes_per_pixel rgb888 = 3
bytes_per_pixel bgr888 = 3
bytes_per_pixel rgba8888 = 4
bytes_per_pixel bgra8888 = 4
bytes_per_pixel gray8 = 1
bytes_per_pixel _ = 0

unfoldable pub is_planar_yuv : PixelFormat → Bool
is_planar_yuv nv12 = true
is_planar_yuv nv21 = true
is_planar_yuv yuv420p = true
is_planar_yuv _ = false

-- size_t
abbrev pub size_t : ℕ
size_t = 2 ^ 64

-- `imageBytes`, once the strides are known to be positive.
unfoldable pub plane_bytes : PixelFormat → ℕ → ℕ
unfolding bytes_per_pixel is_planar_yuv
plane_bytes f plane =
    if ltb 0 (bytes_per_pixel f)
    then (plane * bytes_per_pixel f) % size_t
    else if is_planar_yuv f
    then (plane + plane / 2) % size_t
    else 0

unfoldable pub image_bytes : PixelFormat → ℤ → ℤ → ℕ
unfolding plane_bytes
image_bytes f wstride hstride =
    if leb_ℤ wstride (pos 0) || leb_ℤ hstride (pos 0)
    then 0
    else plane_bytes f ((pos_part wstride * pos_part hstride) % size_t)

unfoldable pub stride_align : PixelFormat → ℕ
stride_align rgba8888 = 4
stride_align bgra8888 = 4
stride_align unknown = 1
stride_align _ = 16

-- An `int` divided by `a` and multiplied by it again, where the division rounds towards zero.
abbrev pub whole_multiple : ℤ → ℕ → ℤ
whole_multiple (pos n) a = pos (n / a * a)
whole_multiple (negsuc n) a = sub_ℕ 0 (suc n / a * a)

-- Of an `int` that is not negative. The sum is one of 32 bits, and wraps.
unfoldable pub align_up : ℕ → ℕ → ℤ
align_up v a = if ltb 1 a then whole_multiple (int_of_word ((v + a - 1) % 2 ^ 32)) a else pos v
