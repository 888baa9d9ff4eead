-- ===== src/Image/Alloc.antt =====
-- preproc/image.cc: Image::alloc and Image::view, on the DmaBuf that an Image owns.
use rcdl.Common.{
  ℕ, ◌%◌, Bool, not, ◌&&◌, ◌||◌, List, [], none, some, ltb, ◌==◌, if◌then◌else◌, Result, ok, err,
  ◌>>◌, require,
}
use rcdl.Common.Int.{ℤ, pos, ltb_ℤ, leb_ℤ, pos_part}
use rcdl.Dma
use rcdl.Dma.{Heap, Buf, Event, Kernel, alloc as alloc_buf, data_of}
use rcdl.Image.Formats.{PixelFormat, is_unknown, is_planar_yuv, image_bytes, stride_align, align_up}
use rcdl.Image.View.{ImageView}

pub data Error : Type 0 where
  bad_dimensions unknown_format odd_dimensions small_wstride small_hstride odd_hstride no_size :
      Error
  -- What DmaBuf threw, passed on.
  no_buffer : Dma.Error → Error

-- The strides and the bytes of an image.
pub record Layout : Type 0 where
  pub wstride : ℕ
  pub hstride : ℕ
  pub bytes : ℕ

abbrev pub w_stride_for : PixelFormat → ℤ → ℕ → ℤ
w_stride_for f wstride width =
    if ltb_ℤ (pos 0) wstride then wstride else align_up width (stride_align f)

abbrev pub h_stride_for : PixelFormat → ℤ → ℕ → ℤ
h_stride_for f hstride height =
    if ltb_ℤ (pos 0) hstride
    then hstride
    else if is_planar_yuv f
    then align_up height 2
    else pos height

abbrev pub even : ℕ → Bool
even n = n % 2 == 0

-- The checks of `alloc` on the strides that it has chosen. Those that pass are positive.
unfoldable pub check_layout : PixelFormat → ℕ → ℕ → ℤ → ℤ → Result Error Layout
check_layout f width height ws hs = do
  require (leb_ℤ (pos width) ws) small_wstride
  require (leb_ℤ (pos height) hs) small_hstride
  require (not (is_planar_yuv f) || even (pos_part hs)) odd_hstride
  require (ltb 0 (image_bytes f ws hs)) no_size
  ok (record { wstride = pos_part ws; hstride = pos_part hs; bytes = image_bytes f ws hs })

-- `alloc`, up to the allocation.
unfoldable pub plan : ℤ → ℤ → PixelFormat → ℤ → ℤ → Result Error Layout
plan width height f wstride hstride = do
  require (ltb_ℤ (pos 0) width && ltb_ℤ (pos 0) height) bad_dimensions
  require (not (is_unknown f)) unknown_format
  require (not (is_planar_yuv f) || (even (pos_part width) && even (pos_part height)))
      odd_dimensions
  check_layout f (pos_part width) (pos_part height) (w_stride_for f wstride (pos_part width))
      (h_stride_for f hstride (pos_part height))

pub record Image : Type 0 where
  pub buf : Buf
  pub view : ImageView

abbrev pub image_on : ℤ → ℤ → PixelFormat → Layout → Buf → Image
image_on width height f layout b = record {
  buf = b;
  view = record {
    data_at = none;
    fd = b.fd;
    width = width;
    height = height;
    wstride = pos layout.wstride;
    hstride = pos layout.hstride;
    format = f;
    size = layout.bytes;
    below4g = b.below_4g;
  };
}

abbrev pub built :
    ℤ
    → ℤ
    → PixelFormat
    → Layout
    → List Event × Result Dma.Error Buf
    → List Event × Result Error Image
built width height f layout (events, err e) = (events, err (no_buffer e))
built width height f layout (events, ok b) = (events, ok (image_on width height f layout b))

abbrev pub alloc_on :
    Kernel → ℕ → ℤ → ℤ → PixelFormat → Heap → Result Error Layout → List Event × Result Error Image
alloc_on os call width height f heap (err e) = ([], err e)
alloc_on os call width height f heap (ok layout) =
    built width height f layout (alloc_buf os call layout.bytes heap)

unfoldable pub alloc :
    Kernel → ℕ → ℤ → ℤ → PixelFormat → ℤ → ℤ → Heap → List Event × Result Error Image
unfolding plan
alloc os call width height f wstride hstride heap =
    alloc_on os call width height f heap (plan width height f wstride hstride)

abbrev pub viewed :
    Image → List Event × Result Dma.Error (Buf × ℕ) → List Event × Result Error (Image × ImageView)
viewed img (events, err e) = (events, err (no_buffer e))
viewed img (events, ok (b, address)) =
    let v : ImageView = record img.view { data_at = some address } in
    (events, ok (record { buf = b; view = v }, v))

-- `Image::view`; an empty buffer is refused by `data_of`.
unfoldable pub view_of : Kernel → ℕ → Image → List Event × Result Error (Image × ImageView)
view_of os call img = viewed img (data_of os call img.buf)
