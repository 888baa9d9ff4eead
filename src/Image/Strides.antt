-- ===== src/Image/Strides.antt =====
-- preproc/image.h, preproc/image.cc: the strides that alloc derives with alignUp and strideAlign.
use rcdl.Common.{
  ℕ, ◌+◌, ◌-◌, ◌*◌, ◌/◌, ◌%◌, ◌^◌, ◌≤◌, ◌<◌, ◌≡◌, ◌⊎◌, refl, ap, sym, ◌∙◌, subst, inl, inr, true,
  false, not, ◌&&◌, ◌||◌, ltb, Bool-cases, max, ok, require-ok, ok-injective, arith,
}
use native.Mathlib.Nat.{mul-div-le}
use rcdl.Common.Int.{ℤ, pos, negsuc, ltb_ℤ, leb_ℤ, pos_part, sub_ℕ}
use rcdl.Image.Formats.{
  PixelFormat, unknown, rgb888, bgr888, rgba8888, bgra8888, gray8, nv12, nv21, yuv420p, is_unknown,
  bytes_per_pixel, is_planar_yuv, image_bytes, stride_align, align_up,
}
use rcdl.Image.Alloc.{Layout, w_stride_for, h_stride_for, even, check_layout, plan}

below_zero : (k : ℕ) → pos_part (sub_ℕ 0 k) ≡ 0
below_zero k = ground arith

-- A sum that wraps gives no positive stride.
align_up-cases :
    (a v : ℕ)
    → 1 < a
    → a ≤ 2 ^ 31
    → v < 2 ^ 31
    → ((v + a - 1 < 2 ^ 31) × (pos_part (align_up v a) ≡ (v + a - 1) / a * a))
      ⊎ (pos_part (align_up v a) ≡ 0)
unfolding align_up
align_up-cases a v many few small =
    let rounds_up : ltb 1 a ≡ true = ground (arith, many) in
    let word : (v + a - 1) % 2 ^ 32 ≡ v + a - 1 = omega (arith, few, small) in
    rw rounds_up (
      rw word (elim (Bool-cases (ltb (v + a - 1) (2 ^ 31))) [
        | inl fits ↦ rw fits (inl (ground (arith, fits), refl))
        | inr wraps ↦ rw wraps (inr (below_zero _))
      ]))

-- Of an `int`, with an alignment that is used, the result is one.
pub pos_part-align_up : (a v : ℕ) → v < 2 ^ 31 → a ≤ 2 ^ 31 → pos_part (align_up v a) < 2 ^ 31
unfolding align_up
pos_part-align_up a v small few = elim (Bool-cases (ltb 1 a)) [
  | inr as_it_is ↦ rw as_it_is small
  | inl many ↦ elim (align_up-cases a v (ground (arith, many)) few small) [
    | inl (fits, e) ↦ omega (arith, fits, e, mul-div-le (v + a - 1) a)
    | inr e ↦ omega (arith, e)
  ]
]

pub stride_align-le : (f : PixelFormat) → stride_align f ≤ 16
unfolding stride_align
stride_align-le unknown = omega arith
stride_align-le rgb888 = omega arith
stride_align-le bgr888 = omega arith
stride_align-le rgba8888 = omega arith
stride_align-le bgra8888 = omega arith
stride_align-le gray8 = omega arith
stride_align-le nv12 = omega arith
stride_align-le nv21 = omega arith
stride_align-le yuv420p = omega arith

-- The bytes of a pixel in the only plane, or in the Y plane.
abbrev pub pixel_bytes : PixelFormat → ℕ
pixel_bytes f = max (bytes_per_pixel f) 1

-- The least stride of at least `width` pixels whose rows take a multiple of 16 bytes.
abbrev pub IsLeastStride : PixelFormat → ℕ → ℕ → Type 0
IsLeastStride f width w =
    (width ≤ w)
    × ((w * pixel_bytes f) % 16 ≡ 0)
    × ((s : ℕ) → width ≤ s → (s * pixel_bytes f) % 16 ≡ 0 → w ≤ s)

least :
    (f : PixelFormat) (width w : ℕ)
    → is_unknown f ≡ false
    → w ≡ (width + stride_align f - 1) / stride_align f * stride_align f
    → IsLeastStride f width w
unfolding is_unknown stride_align bytes_per_pixel
least unknown width w known e = cc
least rgb888 width w known e = (omega arith, omega arith, λ s le whole. omega arith)
least bgr888 width w known e = (omega arith, omega arith, λ s le whole. omega arith)
least rgba8888 width w known e = (omega arith, omega arith, λ s le whole. omega arith)
least bgra8888 width w known e = (omega arith, omega arith, λ s le whole. omega arith)
least gray8 width w known e = (omega arith, omega arith, λ s le whole. omega arith)
least nv12 width w known e = (omega arith, omega arith, λ s le whole. omega arith)
least nv21 width w known e = (omega arith, omega arith, λ s le whole. omega arith)
least yuv420p width w known e = (omega arith, omega arith, λ s le whole. omega arith)

stride_align-many : (f : PixelFormat) → is_unknown f ≡ false → 1 < stride_align f
unfolding is_unknown stride_align
stride_align-many unknown known = cc
stride_align-many rgb888 known = omega arith
stride_align-many bgr888 known = omega arith
stride_align-many rgba8888 known = omega arith
stride_align-many bgra8888 known = omega arith
stride_align-many gray8 known = omega arith
stride_align-many nv12 known = omega arith
stride_align-many nv21 known = omega arith
stride_align-many yuv420p known = omega arith

align_up-least :
    (f : PixelFormat) (width : ℕ)
    → is_unknown f ≡ false
    → 0 < width
    → width < 2 ^ 31
    → width ≤ pos_part (align_up width (stride_align f))
    → IsLeastStride f width (pos_part (align_up width (stride_align f)))
align_up-least f width known some_pixels small wide =
    elim (align_up-cases (stride_align f) width (stride_align-many f known)
      (omega (arith, stride_align-le f)) small) [
        | inl (fits, e) ↦ least f width _ known e
        | inr e ↦ absurd (omega (arith, e, wide, some_pixels))
      ]

wide_enough : (v : ℕ) (i : ℤ) → leb_ℤ (pos v) i ≡ true → v ≤ pos_part i
wide_enough v (pos n) h = ground (arith, h)
wide_enough v (negsuc n) h = ground (arith, h)

check_layout-wide :
    (f : PixelFormat) (width height : ℕ) (ws hs : ℤ) {l : Layout}
    → check_layout f width height ws hs ≡ ok l
    → (width ≤ pos_part ws) × (l.wstride ≡ pos_part ws)
unfolding check_layout
check_layout-wide f width height ws hs h =
    let (wide, h1) = require-ok (leb_ℤ (pos width) ws) _ _ h in
    let (tall, h2) = require-ok (leb_ℤ (pos height) hs) _ _ h1 in
    let (even_h, h3) = require-ok (not (is_planar_yuv f) || even (pos_part hs)) _ _ h2 in
    let (some_size, h4) = require-ok (ltb 0 (image_bytes f ws hs)) _ _ h3 in
    (wide_enough width ws wide, sym (ap (λ (l : Layout). l.wstride) (ok-injective h4)))

-- When `alloc` is given no row stride and gets as far as the allocation, it has taken the least one,
-- of at least `width` pixels, at which a row of the only plane, or of the Y plane, takes a multiple
-- of 16 bytes; for a `width` in the range of `int`.
pub plan-IsLeastStride :
    (width height : ℤ) (f : PixelFormat) (wstride hstride : ℤ) {l : Layout}
    → pos_part width < 2 ^ 31
    → ltb_ℤ (pos 0) wstride ≡ false
    → plan width height f wstride hstride ≡ ok l
    → IsLeastStride f (pos_part width) l.wstride
unfolding plan
plan-IsLeastStride width height f wstride hstride {l} small derived h =
    let (positive, h1) = require-ok (ltb_ℤ (pos 0) width && ltb_ℤ (pos 0) height) _ _ h in
    let (known, h2) = require-ok (not (is_unknown f)) _ _ h1 in
    let (evens, h3) =
      require-ok (not (is_planar_yuv f) || (even (pos_part width) && even (pos_part height))) _ _
        h2 in
    let (wide, e) =
      check_layout-wide f (pos_part width) (pos_part height)
        (w_stride_for f wstride (pos_part width)) (h_stride_for f hstride (pos_part height)) h3 in
    let chosen : w_stride_for f wstride (pos_part width)
        ≡ align_up (pos_part width) (stride_align f) =
      rw derived refl in
    subst (IsLeastStride f (pos_part width)) (sym (e ∙ ap pos_part chosen)) (
      align_up-least f (pos_part width) (ground (arith, known)) (ground (arith, positive)) small
        (subst (λ (i : ℤ). pos_part width ≤ pos_part i) chosen wide))
