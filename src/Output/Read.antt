-- ===== src/Output/Read.antt =====
-- backend/output_reader.cc: outputAsFloat, and backend/engine.cc: Engine::outputAsFloat.
use rcdl.Common.{
  ℕ, ◌*◌, Bool, true, false, ◌&&◌, ◌||◌, ◌==◌, if◌then◌else◌, Result, ok, ◌>>◌, require,
}
use rcdl.Engine.Tensor.{TensorType, float32, Attr, Error, bad_count, width_of, Bound}
use rcdl.Engine.Data.{packed_output}
use rcdl.Output.Dequantize.{Floats, Quant, load, dequantize_to_float}

-- `Engine::outputAsFloat`: what is in `dst` afterwards. The packed buffer starts as zeros.
unfoldable pub engine_output_as_float :
    Floats → Quant → Bound → (ℕ → ℕ) → (ℕ → ℕ) → ℕ → Result Error (ℕ → ℕ)
unfolding packed_output dequantize_to_float
engine_output_as_float F q t device dst n_floats =
    require (n_floats == t.attr.n_elems) bad_count
    >> dequantize_to_float F q t.attr.kind (packed_output t device (λ a. 0)) dst n_floats

abbrev pub is_float32 : TensorType → Bool
is_float32 float32 = true
is_float32 _ = false

abbrev pub packed_rows : Attr → Bool
packed_rows a = a.w_stride == 0 || a.w_stride == width_of a

-- The floats at the pointer that `outputAsFloat` returns: the device's own, or those of `scratch`.
unfoldable pub output_as_float : Floats → Quant → Bound → (ℕ → ℕ) → (ℕ → ℕ) → Result Error (ℕ → ℕ)
unfolding engine_output_as_float
output_as_float F q t device scratch =
    if is_float32 t.attr.kind && packed_rows t.attr
    then ok (λ k. load 4 device (k * 4))
    else engine_output_as_float F q t device scratch t.attr.n_elems
