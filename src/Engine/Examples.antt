-- ===== src/Engine/Examples.antt =====
-- Tensors at concrete inputs: two rows of three bytes, which the device pads to four.
use rcdl.Common.{◌+◌, ◌*◌, ◌/◌, ◌≤◌, ◌≡◌, refl, false, [], ◌∷◌, arith}
use rcdl.Engine.Tensor.{
  Attr, Bound, nhwc, int8, uint8, io_kind, element_size, width_of, row_count, row_elems,
  input_width_stride, bind_input, io_fmt,
}
use rcdl.Engine.Rows.{copy_rows}
use rcdl.Engine.Data.{set_input, set_input-inside, set_input-rows, bind_input-holds}

abbrev grey_attr : Attr
grey_attr = record {
  dims = 1 ∷ 2 ∷ 3 ∷ 1 ∷ [];
  fmt = nhwc;
  kind = int8;
  n_elems = 6;
  size = 6;
  size_with_stride = 8;
  w_stride = 4;
}

abbrev grey : Bound
grey = record {
  attr = grey_attr;
  io_attr = record grey_attr { kind = uint8 };
  packed_bytes = 6;
  requested = 8;
}

bind_input-holds_example : (6 ≡ 6 * element_size uint8) × (6 ≤ 8) × (8 / 1 * element_size uint8 ≤ 8)
unfolding bind_input io_kind io_fmt element_size
bind_input-holds_example = bind_input-holds false grey_attr {t = grey} (omega arith) refl

-- The third byte of the second row.
set_input-rows_example : copy_rows 4 (λ a. a + 1) 3 3 2 0 (λ a. 0) (1 * 4 + 2) ≡ 1 * 3 + 2 + 1
unfolding set_input width_of row_count row_elems input_width_stride element_size
set_input-rows_example =
    set_input-rows grey 8 6 (λ a. 0) (λ a. a + 1) (λ e. absurd (omega (arith, e))) (omega arith)
      (omega arith) (omega arith) refl 1 2 (omega arith) (omega arith)

set_input-inside_example : copy_rows 4 (λ a. a + 1) 3 3 2 0 (λ a. 0) 11 ≡ 0
unfolding set_input width_of row_count row_elems input_width_stride element_size
set_input-inside_example =
    set_input-inside grey 8 6 (λ a. 0) (λ a. a + 1) (omega arith) (omega arith) (omega arith) refl
      11 (omega arith)
