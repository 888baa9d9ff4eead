-- ===== src/Output/Dequantize.antt =====
-- backend/output_reader.cc: dequantizeToFloat and quantParams. A float is its 32 bits, memory a
-- function from addresses to bytes, least byte first.
use rcdl.Common.{
  ℕ, zero, suc, ◌+◌, ◌-◌, ◌*◌, ◌^◌, Bool, true, false, ◌&&◌, Option, none, some, ltb, ◌==◌,
  if◌then◌else◌, Result, ok, err,
}
use rcdl.Common.Int.{ℤ, pos, negsuc}
use rcdl.Engine.Tensor.{
  TensorType, float32, float16, bfloat16, int4, int8, uint8, int16, uint16, int32, uint32, int64,
  bool, other, Error, unsupported, element_size,
}
use rcdl.Output.Half.{half_to_float}

-- Arithmetic of float, and std::ldexp(1.0f, -fl).
pub record Floats : Type 0 where
  pub of_int : ℤ → ℕ
  pub sub : ℕ → ℕ → ℕ
  pub mul : ℕ → ℕ → ℕ
  pub inverse_power : ℤ → ℕ

-- rknn_tensor_qnt_type
pub data QuantType : Type 0 where
  not_quantised dfp affine_asymmetric : QuantType

-- The quantisation of a tensor, in its rknn_tensor_attr.
pub record Quant : Type 0 where
  pub kind : QuantType
  pub scale : ℕ
  pub zp : ℤ
  pub fl : ℤ

-- 1.0f and 0.0f
abbrev pub one_bits : ℕ
one_bits = 127 * 2 ^ 23

abbrev pub zero_bits : ℕ
zero_bits = 0

-- The number of `n` bytes at `a`.
abbrev pub load : ℕ → (ℕ → ℕ) → ℕ → ℕ
load zero memory a = 0
load (suc n) memory a = memory a + 256 * load n memory (suc a)

-- A two's complement number, with half of its range.
abbrev pub signed : ℕ → ℕ → ℤ
signed half x = if ltb x half then pos x else negsuc (half + half - 1 - x)

abbrev pub is_affine_type : QuantType → Bool
is_affine_type affine_asymmetric = true
is_affine_type _ = false

-- The loop: `n` floats from `dst` on.
abbrev pub convert_all : Option (ℕ → ℕ) → ℕ → (ℕ → ℕ) → (ℕ → ℕ) → ℕ → Result Error (ℕ → ℕ)
convert_all none elem src dst n = err unsupported
convert_all (some f) elem src dst n =
    ok (λ k. if ltb k n then f (load elem src (k * elem)) else dst k)

module _ (F : Floats) where
  abbrev pub scale_by : Quant → QuantType → ℕ
  scale_by q affine_asymmetric = q.scale
  scale_by q dfp = F.inverse_power q.fl
  scale_by q not_quantised = one_bits

  unfoldable pub scale_of : Quant → ℕ
  scale_of q = scale_by q q.kind

  unfoldable pub zero_point_of : Quant → ℕ
  zero_point_of q = if is_affine_type q.kind then F.of_int q.zp else zero_bits

  abbrev pub affine : Quant → ℤ → ℕ
  affine q x = F.mul (F.sub (F.of_int x) (zero_point_of q)) (scale_of q)

  -- The body of the loop for a type, on the bits of one element; `none` throws.
  unfoldable pub converter : Quant → TensorType → Option (ℕ → ℕ)
  unfolding scale_of zero_point_of
  converter q float32 = some (λ x. x)
  converter q float16 = some half_to_float
  converter q int8 = some (λ x. affine q (signed (2 ^ 7) x))
  converter q uint8 = some (λ x. affine q (pos x))
  converter q int16 = some (λ x. affine q (signed (2 ^ 15) x))
  converter q uint16 = some (λ x. affine q (pos x))
  converter q int32 = some (λ x. affine q (signed (2 ^ 31) x))
  converter q uint32 = some (λ x. affine q (pos x))
  converter q int64 = some (λ x. F.of_int (signed (2 ^ 63) x))
  converter q bool = some (λ x. if x == 0 then zero_bits else one_bits)
  converter q bfloat16 = none
  converter q int4 = none
  converter q other = none

  unfoldable pub dequantize_to_float :
      Quant → TensorType → (ℕ → ℕ) → (ℕ → ℕ) → ℕ → Result Error (ℕ → ℕ)
  unfolding converter
  dequantize_to_float q kind src dst n =
      convert_all (converter q kind) (element_size kind) src dst n

pub record QuantParams : Type 0 where
  pub is_affine : Bool
  pub scale : ℕ
  pub zero_point : ℤ

abbrev pub is_byte : TensorType → Bool
is_byte int8 = true
is_byte uint8 = true
is_byte _ = false

unfoldable pub quant_params : Quant → TensorType → QuantParams
quant_params q kind = record {
  is_affine = is_affine_type q.kind && is_byte kind;
  scale = q.scale;
  zero_point = q.zp;
}
