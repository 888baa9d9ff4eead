-- ===== src/Detect/Geometry.antt =====
-- preproc/geometry.h: LetterboxInfo, in float arithmetic.
use rcdl.Common.{Bool, ◌||◌, if◌then◌else◌}
use rcdl.Common.Int.{ℤ, pos, leb_ℤ}
use rcdl.Tracker.Scalars.{Scalars, max_of, min_of, float_lit, fadd, fsub, fmul, fdiv}

module _ (S : Scalars) where
  open S use {F}

  -- static_cast<float> of an int
  abbrev pub float_int : ℤ → F
  float_int n = S.narrow (S.of_int n)

  pub record LetterboxInfo : Type 0 where
    pub scale : F
    pub pad_x : F
    pub pad_y : F
    pub src_w : ℤ
    pub src_h : ℤ
    pub dst_w : ℤ
    pub dst_h : ℤ

  unfoldable pub fwd_x : LetterboxInfo → F → F
  fwd_x lb x = fadd S (fmul S x lb.scale) lb.pad_x

  unfoldable pub fwd_y : LetterboxInfo → F → F
  fwd_y lb y = fadd S (fmul S y lb.scale) lb.pad_y

  unfoldable pub inv_x : LetterboxInfo → F → F
  inv_x lb x = fdiv S (fsub S x lb.pad_x) lb.scale

  unfoldable pub inv_y : LetterboxInfo → F → F
  inv_y lb y = fdiv S (fsub S y lb.pad_y) lb.scale

  unfoldable pub clamp_x : LetterboxInfo → F → F
  clamp_x lb x = min_of S (max_of S x (float_int (pos 0))) (float_int lb.src_w)

  unfoldable pub clamp_y : LetterboxInfo → F → F
  clamp_y lb y = min_of S (max_of S y (float_int (pos 0))) (float_int lb.src_h)

  -- The defaults of the struct, with the sizes set.
  abbrev pub unscaled : ℤ → ℤ → ℤ → ℤ → LetterboxInfo
  unscaled src_w src_h dst_w dst_h = record {
    scale = float_int (pos 1);
    pad_x = float_int (pos 0);
    pad_y = float_int (pos 0);
    src_w = src_w;
    src_h = src_h;
    dst_w = dst_w;
    dst_h = dst_h;
  }

  abbrev pub padding : ℤ → F → F
  padding dst new = fmul S (fsub S (float_int dst) new) (float_lit S 1 2)

  abbrev pub centred : LetterboxInfo → LetterboxInfo
  centred lb = record lb {
    pad_x = padding lb.dst_w (fmul S (float_int lb.src_w) lb.scale);
    pad_y = padding lb.dst_h (fmul S (float_int lb.src_h) lb.scale);
  }

  unfoldable pub compute_letterbox : ℤ → ℤ → ℤ → ℤ → Bool → LetterboxInfo
  compute_letterbox src_w src_h dst_w dst_h center_pad =
      let lb = unscaled src_w src_h dst_w dst_h in
      if leb_ℤ src_w (pos 0) || leb_ℤ src_h (pos 0)
      then lb
      else let fitted : LetterboxInfo = record lb {
        scale =
            min_of S (fdiv S (float_int dst_w) (float_int src_w))
              (fdiv S (float_int dst_h) (float_int src_h));
      } in
        if center_pad then centred fitted else fitted
