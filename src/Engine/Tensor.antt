-- ===== src/Engine/Tensor.antt =====
-- backend/engine.cc, backend/output_reader.cc: the tensors of an Engine, as setupIo binds them. What
-- the runtime says of a tensor is an `Attr`; its numbers are uint32_t.
use rcdl.Common.{
  ℕ, zero, suc, ◌*◌, ◌/◌, ◌%◌, ◌^◌, max, Bool, true, false, ◌&&◌, List, [], ◌∷◌, ltb, ◌==◌,
  if◌then◌else◌, Result, ok, ◌>>◌, require,
}

-- rknn_tensor_type, as far as the code names it.
pub data TensorType : Type 0 where
  float32 float16 bfloat16 int4 int8 uint8 int16 uint16 int32 uint32 int64 bool other : TensorType

pub data TensorFormat : Type 0 where
  nchw nhwc nc1hwc2 undefined : TensorFormat

pub record Attr : Type 0 where
  pub dims : List ℕ
  pub fmt : TensorFormat
  pub kind : TensorType
  pub n_elems : ℕ
  pub size : ℕ
  pub size_with_stride : ℕ
  pub w_stride : ℕ

pub data Error : Type 0 where
  unsupported bad_count too_large : Error

unfoldable pub element_size : TensorType → ℕ
element_size float32 = 4
element_size float16 = 2
element_size int8 = 1
element_size uint8 = 1
element_size int16 = 2
element_size uint16 = 2
element_size int32 = 4
element_size uint32 = 4
element_size int64 = 8
element_size bool = 1
element_size bfloat16 = 2
element_size int4 = 1
element_size other = 0

-- `dims[i]`; there are at most `n_dims` of them.
abbrev pub dim : List ℕ → ℕ → ℕ
dim [] i = 0
dim (d ∷ ds) zero = d
dim (d ∷ ds) (suc i) = dim ds i

abbrev pub is_nhwc : TensorFormat → Bool
is_nhwc nhwc = true
is_nhwc _ = false

abbrev pub last_dim : List ℕ → ℕ
last_dim [] = 1
last_dim (d ∷ []) = d
last_dim (d ∷ e ∷ ds) = last_dim (e ∷ ds)

abbrev pub width_in : List ℕ → TensorFormat → ℕ
width_in (n ∷ a ∷ b ∷ c ∷ []) fmt = if is_nhwc fmt then b else c
width_in ds fmt = last_dim ds

unfoldable pub width_of : Attr → ℕ
width_of a = width_in a.dims a.fmt

-- size_t
abbrev pub size_t : ℕ
size_t = 2 ^ 64

-- The product of all dimensions but the last.
abbrev pub rows_before : List ℕ → ℕ
rows_before [] = 1
rows_before (d ∷ []) = 1
rows_before (d ∷ e ∷ ds) = (d * rows_before (e ∷ ds)) % size_t

abbrev pub rows_in : List ℕ → TensorFormat → ℕ
rows_in (n ∷ a ∷ b ∷ c ∷ []) fmt = if is_nhwc fmt then (n * a) % size_t else (n * a * b) % size_t
rows_in ds fmt = rows_before ds

unfoldable pub row_count : Attr → ℕ
row_count a = rows_in a.dims a.fmt

abbrev pub row_in : List ℕ → TensorFormat → ℕ → ℕ
row_in (n ∷ a ∷ b ∷ c ∷ []) fmt width = if is_nhwc fmt then (width * c) % size_t else width
row_in ds fmt width = width

unfoldable pub row_elems : Attr → ℕ → ℕ
row_elems a width = row_in a.dims a.fmt width

unfoldable pub input_width_stride : Attr → ℕ
unfolding width_of
input_width_stride a = if a.w_stride == 0 then width_of a else a.w_stride

-- What the caller hands over for an input of the type `kind`.
unfoldable pub io_kind : Bool → TensorType → TensorType
io_kind as_float int8 = if as_float then float32 else uint8
io_kind as_float uint8 = if as_float then float32 else uint8
io_kind as_float int16 = float32
io_kind as_float float16 = float32
io_kind as_float float32 = float32
io_kind as_float kind = kind

unfoldable pub io_fmt : TensorFormat → TensorFormat
io_fmt nc1hwc2 = nhwc
io_fmt undefined = nhwc
io_fmt fmt = fmt

-- A tensor with its memory: `requested` bytes were asked of the runtime.
pub record Bound : Type 0 where
  pub attr : Attr
  pub io_attr : Attr
  pub packed_bytes : ℕ
  pub requested : ℕ

abbrev pub strided_elems : Attr → ℕ → ℕ
strided_elems a elem =
    max (if a.size_with_stride == 0 then a.n_elems else a.size_with_stride / elem) a.n_elems

-- The first loop of `setupIo`, for one input; the size is cast to uint32_t.
unfoldable pub bind_input : Bool → Attr → Result Error Bound
bind_input as_float a = do
  let io : Attr = record a { kind = io_kind as_float a.kind; fmt = io_fmt a.fmt }
  require (ltb 0 (element_size a.kind) && ltb 0 (element_size io.kind)) unsupported
  ok (record {
    attr = a;
    io_attr = io;
    packed_bytes = (a.n_elems * element_size io.kind) % size_t;
    requested = ((strided_elems a (element_size a.kind) * element_size io.kind) % size_t) % 2 ^ 32;
  })

-- The second loop of `setupIo`, for one output.
unfoldable pub bind_output : Attr → Result Error Bound
bind_output a = do
  require (ltb 0 (element_size a.kind)) unsupported
  let packed : ℕ = (a.n_elems * element_size a.kind) % size_t
  ok (record {
    attr = a;
    io_attr = a;
    packed_bytes = packed;
    requested = max (max a.size_with_stride a.size) packed % 2 ^ 32;
  })
