-- ===== src/Image/Host.antt =====
-- preproc/image.cc: what hostView returns is a valid view, with strides that cover the image.
use rcdl.Common.{
  ℕ, ◌≡◌, refl, subst, Bool, true, not, ◌&&◌, ◌||◌, Option, if◌then◌else◌, ok, require-ok,
  ok-injective, arith,
}
use rcdl.Common.Int.{ℤ, pos, ltb_ℤ, leb_ℤ, ◌≤ℤ◌}
use rcdl.Image.Formats.{PixelFormat, is_unknown, image_bytes}
use rcdl.Image.View.{
  ImageView, eff_w_stride, eff_h_stride, bytes, valid, is_given, positive_or_0, host_view,
}

pub record Covers (width height : ℤ) (v : ImageView) : Type 0 where
  pub is_valid : valid v ≡ true
  pub same_width : v.width ≡ width
  pub same_height : v.height ≡ height
  pub wide : width ≤ℤ eff_w_stride v
  pub tall : height ≤ℤ eff_h_stride v
  pub sized : bytes v ≡ image_bytes v.format (eff_w_stride v) (eff_h_stride v)

-- The effective stride of a stride that was accepted.
stride-covers :
    (extent stride : ℤ)
    → (leb_ℤ stride (pos 0) || leb_ℤ extent stride) ≡ true
    → extent ≤ℤ (if ltb_ℤ (pos 0) (positive_or_0 stride) then positive_or_0 stride else extent)
stride-covers extent stride h = ground (arith, h)

and-true : (a b : Bool) → a ≡ true → b ≡ true → (a && b) ≡ true
and-true a b h k = ground (arith, h, k)

-- When hostView returns, its view is valid, of the extents asked for, with effective strides that
-- cover them, and as many bytes as these strides take.
pub host_view-Covers :
    (data_at : Option ℕ) (width height : ℤ) (f : PixelFormat) (wstride hstride : ℤ) {v : ImageView}
    → host_view data_at width height f wstride hstride ≡ ok v
    → Covers width height v
unfolding host_view valid bytes
host_view-Covers data_at width height f wstride hstride h =
    let (given, h1) = require-ok (is_given data_at) _ _ h in
    let (positive, h2) = require-ok (ltb_ℤ (pos 0) width && ltb_ℤ (pos 0) height) _ _ h1 in
    let (known, h3) = require-ok (not (is_unknown f)) _ _ h2 in
    let (wide, h4) = require-ok (leb_ℤ wstride (pos 0) || leb_ℤ width wstride) _ _ h3 in
    let (tall, h5) = require-ok (leb_ℤ hstride (pos 0) || leb_ℤ height hstride) _ _ h4 in
    subst (Covers width height) (ok-injective h5) (record {
      is_valid = ground (arith, given, positive, known);
      same_width = refl;
      same_height = refl;
      wide = stride-covers width wstride wide;
      tall = stride-covers height hstride tall;
      sized = refl;
    })
