-- ===== src/Output/Examples.antt =====
-- The output reader at concrete tensors: two rows of three bytes in rows of four, and of three floats.
use rcdl.Common.{ℕ, ◌-◌, ◌*◌, ◌<◌, ◌≡◌, refl, [], ◌∷◌, Result, ok, err, arith}
use rcdl.Common.Int.{pos, pos_part}
use rcdl.Engine.Data.{packed_output}
use rcdl.Engine.Tensor.{
  TensorType, float32, int8, nchw, Attr, Error, Bound, element_size, width_of, row_count, row_elems,
  input_width_stride,
}
use rcdl.Output.Half.{float_to_half, half_to_float, half-roundtrip}
use rcdl.Output.Dequantize.{
  Floats, Quant, affine_asymmetric, scale_of, zero_point_of, converter, dequantize_to_float,
}
use rcdl.Output.Read.{engine_output_as_float, output_as_float}
use rcdl.Output.Paths.{output_as_float-gathers, fast_path-eq}

-- The smallest subnormal, negative.
half-roundtrip_example : float_to_half (half_to_float 32769) ≡ 32769
half-roundtrip_example = half-roundtrip 32769 (omega arith)

abbrev naturals : Floats
naturals = record {
  of_int = pos_part;
  sub = λ a b. a - b;
  mul = λ a b. a * b;
  inverse_power = λ k. 1;
}

abbrev doubled : Quant
doubled = record { kind = affine_asymmetric; scale = 2; zp = pos 1; fl = pos 0 }

abbrev two_rows : TensorType → ℕ → Attr
two_rows kind w_stride = record {
  dims = 1 ∷ 1 ∷ 2 ∷ 3 ∷ [];
  fmt = nchw;
  kind = kind;
  n_elems = 6;
  size = 6;
  size_with_stride = 8;
  w_stride = w_stride;
}

abbrev bound : TensorType → ℕ → Bound
bound kind w_stride = record {
  attr = two_rows kind w_stride;
  io_attr = two_rows kind w_stride;
  packed_bytes = 6;
  requested = 8;
}

abbrev or_empty : Result Error (ℕ → ℕ) → ℕ → ℕ
or_empty (ok m) = m
or_empty (err e) = λ k. 0

abbrev gathered : ℕ → ℕ
gathered k = or_empty (engine_output_as_float naturals doubled (bound int8 4) (λ a. a) (λ a. 0) 6) k

-- The last element is byte 6 of the device, which holds 6.
output_as_float-gathers_example : gathered 5 ≡ 10
unfolding engine_output_as_float dequantize_to_float converter scale_of zero_point_of packed_output
    element_size width_of row_count row_elems input_width_stride
output_as_float-gathers_example =
    output_as_float-gathers naturals doubled (bound int8 4) (λ a. a) (λ a. 0) 6 refl refl
      (omega arith) (omega arith) 1 2 (omega arith) (omega arith) (omega arith)

fast_path-eq_example :
    ((m : ℕ → ℕ)
      → engine_output_as_float naturals doubled (bound float32 0) (λ a. a) (λ a. 0) 6 ≡ ok m
      → (m' : ℕ → ℕ) × (output_as_float naturals doubled (bound float32 0) (λ a. a) (λ a. 0)
          ≡ ok m')
        × ((k : ℕ) → k < 6 → m' k ≡ m k))
    × ((e : Error)
        → engine_output_as_float naturals doubled (bound float32 0) (λ a. a) (λ a. 0) 6 ≡ err e
        → output_as_float naturals doubled (bound float32 0) (λ a. a) (λ a. 0) ≡ err e)
fast_path-eq_example = fast_path-eq naturals doubled (bound float32 0) (λ a. a) (λ a. 0)
