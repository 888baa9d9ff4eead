-- ===== src/Image/Bounds.antt =====
-- preproc/image.cc: strides and sizes stay in range, and an image holds its pixels.
use rcdl.Common.{
  ℕ, suc, ◌+◌, ◌-◌, ◌*◌, ◌/◌, ◌%◌, ◌^◌, ◌≤◌, ◌<◌, ◌≡◌, ◌≢◌, ap, ◌∙◌, inl, inr, true, false, not,
  ◌&&◌, ◌||◌, ltb, leb, Bool-cases, if◌then◌else◌, ok, require-ok, ok-injective, subst, arith,
}
use native.Mathlib.Nat.{mul-le-mul_right, mul-le-mul}
use rcdl.Common.Int.{ℤ, pos, negsuc, ltb_ℤ, leb_ℤ, pos_part}
use rcdl.Image.Formats.{
  PixelFormat, unknown, rgb888, bgr888, rgba8888, bgra8888, gray8, nv12, nv21, yuv420p, is_unknown,
  bytes_per_pixel, is_planar_yuv, size_t, plane_bytes, image_bytes, stride_align,
}
use rcdl.Image.Strides.{pos_part-align_up, stride_align-le}
use rcdl.Image.Alloc.{Layout, w_stride_for, h_stride_for, even, check_layout, plan}

-- The pixel (x, y) of a plane stands before its end.
inside : (x y w h : ℕ) → x < w → y < h → y * w + x < w * h
inside x y w h hx hy = omega (arith, mul-le-mul_right w hy)

-- The bytes of an image whose Y plane, or only plane, has `plane` pixels.
abbrev pub exact_bytes : PixelFormat → ℕ → ℕ
exact_bytes f plane = plane * bytes_per_pixel f + (if is_planar_yuv f then plane + plane / 2 else 0)

plane_bytes-exact :
    (f : PixelFormat) (plane : ℕ) → plane ≤ 2 ^ 62 - 1 → plane_bytes f plane ≡ exact_bytes f plane
unfolding plane_bytes bytes_per_pixel is_planar_yuv
plane_bytes-exact unknown plane h = omega arith
plane_bytes-exact rgb888 plane h = omega arith
plane_bytes-exact bgr888 plane h = omega arith
plane_bytes-exact rgba8888 plane h = omega arith
plane_bytes-exact bgra8888 plane h = omega arith
plane_bytes-exact gray8 plane h = omega arith
plane_bytes-exact nv12 plane h = omega arith
plane_bytes-exact nv21 plane h = omega arith
plane_bytes-exact yuv420p plane h = omega arith

int_product : (w h : ℕ) → w < 2 ^ 31 → h < 2 ^ 31 → w * h ≤ 2 ^ 62 - 1
int_product w h hw hh =
    let most : w * h ≤ (2 ^ 31 - 1) * (2 ^ 31 - 1) =
      mul-le-mul {n₂ = 2 ^ 31 - 1} {m₂ = 2 ^ 31 - 1} (omega arith) (omega arith) in
    omega (arith, most)

no_zero : (w h : ℕ) → 0 < w → 0 < h → (leb (w + 0) 0 || leb (h + 0) 0) ≡ false
no_zero w h pw ph = ground arith

-- For positive `int` strides imageBytes is exact, and nothing wraps: a packed format takes its bytes
-- per pixel, a 4:2:0 format one and a half bytes.
pub image_bytes-exact :
    (f : PixelFormat) (w h : ℕ)
    → 0 < w
    → 0 < h
    → w < 2 ^ 31
    → h < 2 ^ 31
    → image_bytes f (pos w) (pos h) ≡ exact_bytes f (w * h)
unfolding image_bytes
image_bytes-exact f w h pw ph hw hh =
    let most : w * h ≤ 2 ^ 62 - 1 = int_product w h hw hh in
    let whole : (w * h) % size_t ≡ w * h = omega (arith, most) in
    rw (no_zero w h pw ph) (rw whole (plane_bytes-exact f (w * h) most))

-- What `alloc` promises of the layout of an image of `width` times `height` pixels.
pub record Fits (f : PixelFormat) (width height : ℕ) (l : Layout) : Type 0 where
  pub wide : width ≤ l.wstride
  pub tall : height ≤ l.hstride
  pub in_int : (l.wstride < 2 ^ 31) × (l.hstride < 2 ^ 31)
  pub sized : l.bytes ≡ exact_bytes f (l.wstride * l.hstride)
  -- The bytes of a pixel of a packed format.
  pub packed :
      (x y : ℕ)
      → x < width
      → y < height
      → (y * l.wstride + x) * bytes_per_pixel f + bytes_per_pixel f ≤ l.bytes
  -- The two chroma samples of a pixel, interleaved in the rows after the Y plane.
  pub chroma :
      (x y : ℕ)
      → is_planar_yuv f ≡ true
      → f ≢ yuv420p
      → x < width
      → y < height
      → l.wstride * l.hstride + (y / 2) * l.wstride + (x / 2) * 2 + 1 < l.bytes
  -- The U sample of a pixel, in the plane of half stride after the Y plane, and the V sample, in the
  -- plane after that.
  pub planes :
      (x y : ℕ)
      → f ≡ yuv420p
      → x < width
      → y < height
      → ((y / 2) * (l.wstride / 2) + x / 2 < (l.wstride / 2) * (l.hstride / 2))
        × (l.wstride * l.hstride
              + (l.wstride / 2) * (l.hstride / 2)
              + (y / 2) * (l.wstride / 2)
              + x / 2
            < l.bytes)

Fits-packed :
    (f : PixelFormat) (x y width height w h : ℕ)
    → width ≤ w
    → height ≤ h
    → x < width
    → y < height
    → (y * w + x) * bytes_per_pixel f + bytes_per_pixel f ≤ exact_bytes f (w * h)
Fits-packed f x y width height w h hw hh hx hy =
    let last : suc (y * w + x) ≤ w * h = inside x y w h (omega arith) (omega arith) in
    omega (arith, mul-le-mul_right (bytes_per_pixel f) last)

Fits-chroma :
    (f : PixelFormat) (x y width height w h : ℕ)
    → is_planar_yuv f ≡ true
    → width % 2 ≡ 0
    → h % 2 ≡ 0
    → width ≤ w
    → height ≤ h
    → x < width
    → y < height
    → w * h + (y / 2) * w + (x / 2) * 2 + 1 < exact_bytes f (w * h)
Fits-chroma f x y width height w h planar even_w even_h hw hh hx hy =
    let twice : h ≡ h / 2 * 2 = omega arith in
    let row : y / 2 + 1 ≤ h / 2 = omega arith in
    let rows : (y / 2 + 1) * w ≤ h / 2 * w = mul-le-mul_right w row in
    let half : w * h ≡ (h / 2 * w) * 2 = ap (λ k. w * k) twice ∙ omega arith in
    rw planar (omega (arith, rows, half))

Fits-planes :
    (x y width height w h : ℕ)
    → width % 2 ≡ 0
    → h % 2 ≡ 0
    → width ≤ w
    → height ≤ h
    → x < width
    → y < height
    → ((y / 2) * (w / 2) + x / 2 < (w / 2) * (h / 2))
      × (w * h + (w / 2) * (h / 2) + (y / 2) * (w / 2) + x / 2 < exact_bytes yuv420p (w * h))
unfolding bytes_per_pixel is_planar_yuv
Fits-planes x y width height w h even_w even_h hw hh hx hy =
    let plane : (y / 2) * (w / 2) + x / 2 < (w / 2) * (h / 2) =
      inside (x / 2) (y / 2) (w / 2) (h / 2) (omega arith) (omega arith) in
    let twice : h ≡ h / 2 * 2 = omega arith in
    let rows : (w / 2 * 2) * (h / 2) ≤ w * (h / 2) = mul-le-mul_right (h / 2) (omega arith) in
    let half : w * h ≡ (w * (h / 2)) * 2 = ap (λ k. w * k) twice ∙ omega arith in
    (plane, omega (arith, plane, rows, half))

-- Arguments in the range of `int`.
pub record Small (width height wstride hstride : ℤ) : Type 0 where
  pub width_small : pos_part width < 2 ^ 31
  pub height_small : pos_part height < 2 ^ 31
  pub wstride_small : pos_part wstride < 2 ^ 31
  pub hstride_small : pos_part hstride < 2 ^ 31

w_stride_for-small :
    (f : PixelFormat) (ws : ℤ) (w : ℕ)
    → pos_part ws < 2 ^ 31
    → w < 2 ^ 31
    → pos_part (w_stride_for f ws w) < 2 ^ 31
w_stride_for-small f ws w hs hw = elim (Bool-cases (ltb_ℤ (pos 0) ws)) [
  | inl given ↦ rw given hs
  | inr derived ↦
      rw derived (pos_part-align_up (stride_align f) w hw (omega (arith, stride_align-le f)))
]

h_stride_for-small :
    (f : PixelFormat) (hs : ℤ) (h : ℕ)
    → pos_part hs < 2 ^ 31
    → h < 2 ^ 31
    → pos_part (h_stride_for f hs h) < 2 ^ 31
h_stride_for-small f hs h hb hh = elim (Bool-cases (ltb_ℤ (pos 0) hs)) [
  | inl given ↦ rw given hb
  | inr derived ↦ rw derived (elim (Bool-cases (is_planar_yuv f)) [
    | inl planar ↦ rw planar (pos_part-align_up 2 h hh (omega arith))
    | inr packed ↦ rw packed hh
  ])
]

planar-even :
    (f : PixelFormat) (h : ℕ)
    → is_planar_yuv f ≡ true
    → (not (is_planar_yuv f) || even h) ≡ true
    → h % 2 ≡ 0
planar-even f h planar e = ground (arith, planar, e)

check_layout-Fits :
    (f : PixelFormat) (width height : ℕ) (ws hs : ℤ) {l : Layout}
    → 0 < width
    → 0 < height
    → pos_part ws < 2 ^ 31
    → pos_part hs < 2 ^ 31
    → (is_planar_yuv f ≡ true → width % 2 ≡ 0)
    → check_layout f width height ws hs ≡ ok l
    → Fits f width height l
unfolding check_layout is_planar_yuv
check_layout-Fits f width height (negsuc n) hs {l} pw ph bw bh even_w h =
    let (wide, h1) = require-ok (leb_ℤ (pos width) (negsuc n)) _ _ h in
    absurd (ground (arith, wide))
check_layout-Fits f width height (pos ws) (negsuc n) {l} pw ph bw bh even_w h =
    let (wide, h1) = require-ok (leb_ℤ (pos width) (pos ws)) _ _ h in
    let (tall, h2) = require-ok (leb_ℤ (pos height) (negsuc n)) _ _ h1 in
    absurd (ground (arith, tall))
check_layout-Fits f width height (pos ws) (pos hs) {l} pw ph bw bh even_w h =
    let (wide, h1) = require-ok (leb_ℤ (pos width) (pos ws)) _ _ h in
    let (tall, h2) = require-ok (leb_ℤ (pos height) (pos hs)) _ _ h1 in
    let (even_h, h3) = require-ok (not (is_planar_yuv f) || even hs) _ _ h2 in
    let (some_size, h4) = require-ok (ltb 0 (image_bytes f (pos ws) (pos hs))) _ _ h3 in
    let hw : width ≤ ws = ground (arith, wide) in
    let hh : height ≤ hs = ground (arith, tall) in
    let size : image_bytes f (pos ws) (pos hs) ≡ exact_bytes f (ws * hs) =
      image_bytes-exact f ws hs (omega arith) (omega arith) bw bh in
    subst (Fits f width height) (ok-injective h4) (record {
      wide = hw;
      tall = hh;
      in_int = (bw, bh);
      sized = size;
      packed = λ x y hx hy. rw size (Fits-packed f x y width height ws hs hw hh hx hy);
      chroma = λ x y planar two hx hy. rw size (
          Fits-chroma f x y width height ws hs planar (even_w planar)
            (planar-even f hs planar even_h) hw hh hx hy);
      planes = λ x y same hx hy.
          let planar : is_planar_yuv f ≡ true = ap is_planar_yuv same in
          let fits =
            Fits-planes x y width height ws hs (even_w planar) (planar-even f hs planar even_h) hw
              hh hx hy in
          (fits.0, rw size (rw same fits.1));
    })

-- When `alloc` gets as far as the allocation, the strides fit in an `int`, the size is that of the
-- strides with no wrap, and every pixel and chroma sample of the image stands inside it; for
-- arguments in the range of `int`.
pub plan-Fits :
    (width height : ℤ) (f : PixelFormat) (wstride hstride : ℤ) {l : Layout}
    → Small width height wstride hstride
    → plan width height f wstride hstride ≡ ok l
    → Fits f (pos_part width) (pos_part height) l
unfolding plan
plan-Fits width height f wstride hstride {l} small h =
    let (positive, h1) = require-ok (ltb_ℤ (pos 0) width && ltb_ℤ (pos 0) height) _ _ h in
    let (known, h2) = require-ok (not (is_unknown f)) _ _ h1 in
    let (evens, h3) =
      require-ok (not (is_planar_yuv f) || (even (pos_part width) && even (pos_part height))) _ _
        h2 in
    check_layout-Fits f (pos_part width) (pos_part height) (w_stride_for f wstride (pos_part width))
      (h_stride_for f hstride (pos_part height)) (ground arith) (ground arith)
      (w_stride_for-small f wstride (pos_part width) small.wstride_small small.width_small)
      (h_stride_for-small f hstride (pos_part height) small.hstride_small small.height_small)
      (λ planar. ground (arith, evens, planar)) h3
