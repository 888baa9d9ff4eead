-- ===== src/Image/Holds.antt =====
-- preproc/image.cc: what Image::alloc returns describes the buffer that it owns.
use rcdl.Common.{ℕ, ◌≡◌, ◌≢◌, refl, sym, subst, List, none, Result, ok, err, ok-injective}
use rcdl.Common.Int.{ℤ, pos_part}
use rcdl.Dma
use rcdl.Dma.{Heap, Buf, Event, Kernel, alloc as alloc_buf, Fresh, alloc-Fresh}
use rcdl.Image.Formats.{PixelFormat}
use rcdl.Image.Alloc.{Error, Layout, plan, Image, built, alloc_on, alloc}
use rcdl.Image.Bounds.{Small, Fits, plan-Fits}

-- The view's descriptor is the buffer's, its size is all of the buffer, and the image fits in it.
pub record Holds (f : PixelFormat) (width height : ℕ) (img : Image) : Type 0 where
  pub same_fd : img.view.fd ≡ img.buf.fd
  pub owns : img.buf.fd ≢ none
  pub whole : img.view.size ≡ img.buf.size
  pub below : img.view.below4g ≡ img.buf.below_4g
  pub fits : Fits f width height (record {
    wstride = pos_part img.view.wstride;
    hstride = pos_part img.view.hstride;
    bytes = img.view.size;
  })

-- When Image::alloc returns an image, its view describes the buffer that it owns, of exactly the
-- size of the strides, and every pixel stands inside the buffer: all bytes of a packed one, the two
-- interleaved chroma samples of an NV12 or NV21 one, and of a YUV420P one the U sample in its plane
-- and the V sample in the plane after that; for arguments in the range of `int`.
pub alloc-Holds :
    (os : Kernel) (call : ℕ) (width height : ℤ) (f : PixelFormat) (wstride hstride : ℤ)
    (heap : Heap) {img : Image}
    → Small width height wstride hstride
    → (alloc os call width height f wstride hstride heap).1 ≡ ok img
    → Holds f (pos_part width) (pos_part height) img
unfolding alloc
alloc-Holds os call width height f wstride hstride heap {img} small =
    by_plan (plan width height f wstride hstride) refl
  where
    by_buf :
        (l : Layout) (r : List Event × Result Dma.Error Buf)
        → Fits f (pos_part width) (pos_part height) l
        → ((b : Buf) → r.1 ≡ ok b → Fresh l.bytes heap b)
        → (built width height f l r).1 ≡ ok img
        → Holds f (pos_part width) (pos_part height) img
    by_buf l (events, err e) fits fresh h = cc
    by_buf l (events, ok b) fits fresh h =
        let new : Fresh l.bytes heap b = fresh b refl in
        subst (Holds f (pos_part width) (pos_part height)) (ok-injective h) (record {
          same_fd = refl;
          owns = new.owns;
          whole = sym new.sized;
          below = refl;
          fits = fits;
        })

    by_plan :
        (r : Result Error Layout)
        → plan width height f wstride hstride ≡ r
        → (alloc_on os call width height f heap r).1 ≡ ok img
        → Holds f (pos_part width) (pos_part height) img
    by_plan (err e) made h = cc
    by_plan (ok l) made h =
        by_buf l (alloc_buf os call l.bytes heap)
          (plan-Fits width height f wstride hstride small made)
          (λ b. alloc-Fresh os call l.bytes heap) h
