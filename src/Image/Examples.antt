-- ===== src/Image/Examples.antt =====
-- Images at concrete sizes.
use rcdl.Common.{◌*◌, false, ◌≡◌, refl, none, some, err, ◌-◌, ◌^◌, arith}
use rcdl.Common.Int.{pos, negsuc}
use rcdl.Dma.{system, alloc as alloc_buf, heap_below_4g}
use rcdl.Dma.Examples.{small_memory}
use rcdl.Image.Formats.{
  bgr888, gray8, nv12, image_bytes, plane_bytes, bytes_per_pixel, is_planar_yuv, stride_align,
  align_up, is_unknown,
}
use rcdl.Image.View.{host_view}
use rcdl.Image.Alloc.{small_wstride, Image, alloc, plan, check_layout}
use rcdl.Image.Bounds.{Small, image_bytes-exact, exact_bytes}
use rcdl.Image.Strides.{IsLeastStride, plan-IsLeastStride}
use rcdl.Image.Host.{Covers, host_view-Covers}
use rcdl.Image.Holds.{Holds, alloc-Holds}

-- A picture of 810 times 600 pixels.
plan-IsLeastStride_example : IsLeastStride bgr888 810 816
unfolding plan check_layout image_bytes plane_bytes bytes_per_pixel is_planar_yuv is_unknown
    stride_align align_up
plan-IsLeastStride_example =
    plan-IsLeastStride (pos 810) (pos 600) bgr888 (pos 0) (pos 0)
      {l = record { wstride = 816; hstride = 600; bytes = 1468800 }} (omega arith) refl refl

-- Past 2 ^ 31 - 16 the sum wraps, and alloc refuses the stride.
wrapped_stride : plan (pos (2 ^ 31 - 1)) (pos 1) gray8 (pos 0) (pos 0) ≡ err small_wstride
unfolding plan check_layout image_bytes plane_bytes bytes_per_pixel is_planar_yuv is_unknown
    stride_align align_up
wrapped_stride = refl

image_bytes-exact_example : image_bytes nv12 (pos 1920) (pos 1080) ≡ exact_bytes nv12 (1920 * 1080)
image_bytes-exact_example =
    image_bytes-exact nv12 1920 1080 (omega arith) (omega arith) (omega arith) (omega arith)

abbrev thumbnail : Image
thumbnail = record {
  buf = record { fd = some 1; size = 1536; map = none; heap = system; below_4g = false };
  view = record {
    data_at = none;
    fd = some 1;
    width = pos 30;
    height = pos 32;
    wstride = pos 32;
    hstride = pos 32;
    format = nv12;
    size = 1536;
    below4g = false;
  };
}

small : Small (pos 30) (pos 32) (pos 0) (pos 0)
small = record {
  width_small = omega arith;
  height_small = omega arith;
  wstride_small = omega arith;
  hstride_small = omega arith;
}

alloc-Holds_example : Holds nv12 30 32 thumbnail
unfolding alloc plan check_layout image_bytes plane_bytes bytes_per_pixel is_planar_yuv is_unknown
    stride_align align_up alloc_buf heap_below_4g
alloc-Holds_example =
    alloc-Holds small_memory 0 (pos 30) (pos 32) nv12 (pos 0) (pos 0) system small refl

host_view-Covers_example : Covers (pos 10) (pos 4) (record {
  data_at = some 4096;
  fd = none;
  width = pos 10;
  height = pos 4;
  wstride = pos 16;
  hstride = pos 0;
  format = bgr888;
  size = 0;
  below4g = false;
})
unfolding host_view is_unknown
host_view-Covers_example =
    host_view-Covers (some 4096) (pos 10) (pos 4) bgr888 (pos 16) (negsuc 0) refl
