-- ===== src/Image/View.antt =====
-- preproc/image.h, preproc/image.cc: ImageView, and the views of a host buffer and of an input tensor
-- of an Engine.
use rcdl.Common.{
  ℕ, ◌*◌, ◌%◌, Bool, true, false, not, ◌&&◌, ◌||◌, Option, none, some, ltb, ◌==◌, if◌then◌else◌,
  Result, ok, ◌>>◌, require,
}
use rcdl.Common.Int.{ℤ, pos, ltb_ℤ, leb_ℤ, pos_part}
use rcdl.Image.Formats.{
  PixelFormat, is_unknown, tensor_channels, bytes_per_pixel, size_t, image_bytes,
}

pub record ImageView : Type 0 where
  pub data_at : Option ℕ
  pub fd : Option ℕ
  pub width : ℤ
  pub height : ℤ
  pub wstride : ℤ
  pub hstride : ℤ
  pub format : PixelFormat
  pub size : ℕ
  pub below4g : Bool

abbrev pub eff_w_stride : ImageView → ℤ
eff_w_stride v = if ltb_ℤ (pos 0) v.wstride then v.wstride else v.width

abbrev pub eff_h_stride : ImageView → ℤ
eff_h_stride v = if ltb_ℤ (pos 0) v.hstride then v.hstride else v.height

unfoldable pub bytes : ImageView → ℕ
bytes v = if ltb 0 v.size then v.size else image_bytes v.format (eff_w_stride v) (eff_h_stride v)

-- Of a view with positive strides.
unfoldable pub row_bytes : ImageView → ℕ
unfolding bytes_per_pixel
row_bytes v =
    let bpp = bytes_per_pixel v.format in
    (pos_part (eff_w_stride v) * (if ltb 0 bpp then bpp else 1)) % size_t

unfoldable pub uv_offset : ImageView → ℕ
uv_offset v = (pos_part (eff_w_stride v) * pos_part (eff_h_stride v)) % size_t

abbrev pub is_given : Option ℕ → Bool
is_given none = false
is_given (some x) = true

unfoldable pub valid : ImageView → Bool
unfolding is_unknown
valid v =
    not (is_unknown v.format)
    && (ltb_ℤ (pos 0) v.width && (ltb_ℤ (pos 0) v.height && (is_given v.data_at || is_given v.fd)))

pub data Error : Type 0 where
  null_data bad_dimensions unknown_format small_wstride small_hstride : Error
  not_4d not_nhwc not_uint8 bad_channels not_packed wrong_channels : Error

abbrev pub positive_or_0 : ℤ → ℤ
positive_or_0 x = if ltb_ℤ (pos 0) x then x else pos 0

unfoldable pub host_view : Option ℕ → ℤ → ℤ → PixelFormat → ℤ → ℤ → Result Error ImageView
host_view data_at width height format wstride hstride = do
  require (is_given data_at) null_data
  require (ltb_ℤ (pos 0) width && ltb_ℤ (pos 0) height) bad_dimensions
  require (not (is_unknown format)) unknown_format
  require (leb_ℤ wstride (pos 0) || leb_ℤ width wstride) small_wstride
  require (leb_ℤ hstride (pos 0) || leb_ℤ height hstride) small_hstride
  ok (record {
    data_at = data_at;
    fd = none;
    width = width;
    height = height;
    wstride = positive_or_0 wstride;
    hstride = positive_or_0 hstride;
    format = format;
    size = 0;
    below4g = false;
  })

-- What the Engine says of one input.
pub record InputTensor : Type 0 where
  pub n_dims : ℕ
  pub is_nhwc : Bool
  pub takes_uint8 : Bool
  pub height : ℤ
  pub width : ℤ
  pub channels : ℤ
  pub address : Option ℕ
  pub fd : Option ℕ
  pub width_stride : ℤ
  pub packed_bytes : ℕ

-- Equality of a channel count that may be negative and one that is not.
abbrev pub equals : ℤ → ℕ → Bool
equals x n = leb_ℤ x (pos n) && leb_ℤ (pos n) x

unfoldable pub engine_input_view : InputTensor → PixelFormat → Result Error ImageView
engine_input_view t format = do
  require (t.n_dims == 4) not_4d
  require t.is_nhwc not_nhwc
  require t.takes_uint8 not_uint8
  require (ltb_ℤ (pos 0) t.width && ltb_ℤ (pos 0) t.height) bad_dimensions
  require (equals t.channels 1 || (equals t.channels 3 || equals t.channels 4)) bad_channels
  require (not (tensor_channels format == 0)) not_packed
  require (equals t.channels (tensor_channels format)) wrong_channels
  ok (record {
    data_at = t.address;
    fd = t.fd;
    width = t.width;
    height = t.height;
    wstride = t.width_stride;
    hstride = t.height;
    format = format;
    size = t.packed_bytes;
    below4g = false;
  })
