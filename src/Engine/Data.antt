-- ===== src/Engine/Data.antt =====
-- backend/engine.cc: setInput, and the gathering of outputAsFloat.
use rcdl.Common.{
  ℕ, ◌+◌, ◌*◌, ◌/◌, ◌%◌, ◌^◌, ◌≤◌, ◌<◌, ◌≡◌, ◌≢◌, sym, subst, inl, inr, Bool, ◌&&◌, ltb, leb,
  leb→le, ◌==◌, ==_iff, Bool-cases, if◌then◌else◌, Result, ok, ok-injective, require-ok, if-cases,
  ◌>>◌, require, arith,
}
use rcdl.Engine.Tensor.{
  Attr, Error, bad_count, too_large, element_size, width_of, size_t, row_count, row_elems,
  input_width_stride, io_kind, Bound, strided_elems, bind_input,
}
use rcdl.Engine.Rows.{memcpy, copy_rows, copy_rows-after, copy_rows-from}
use native.Mathlib.Nat.{mul-le-mul_right, zero-div}

-- Bytes from the start of one packed row, or of one device row, to the next.
abbrev pub packed_row : Bound → ℕ
packed_row t = (row_elems t.attr (width_of t.attr) * element_size t.io_attr.kind) % size_t

abbrev pub device_row : Bound → ℕ
device_row t = (row_elems t.attr (input_width_stride t.attr) * element_size t.io_attr.kind) % size_t

module _ {ℓ} {A : Type ℓ} where
  -- The rows of a packed tensor, spread over the padded rows of the device.
  abbrev pub scatter : Bound → ℕ → (ℕ → A) → (ℕ → A) → Result Error (ℕ → A)
  scatter t dev_bytes device src = do
    require (leb ((row_count t.attr * device_row t) % size_t) dev_bytes) too_large
    ok (copy_rows (device_row t) src (packed_row t) (packed_row t) (row_count t.attr) 0 device)

  abbrev pub set_packed : Bound → ℕ → (ℕ → A) → ℕ → (ℕ → A) → Result Error (ℕ → A)
  set_packed t dev_bytes device bytes src = do
    require (bytes == t.packed_bytes) bad_count
    if packed_row t == device_row t
        then ok (memcpy device 0 src 0 bytes)
        else scatter t dev_bytes device src

  -- `setInput` of `bytes` bytes at `src`, into a device buffer of `dev_bytes`.
  unfoldable pub set_input : Bound → ℕ → (ℕ → A) → ℕ → (ℕ → A) → Result Error (ℕ → A)
  set_input t dev_bytes device bytes src =
      if bytes == dev_bytes
      then ok (memcpy device 0 src 0 bytes)
      else set_packed t dev_bytes device bytes src

  memcpy-after : (dst src : ℕ → A) (n a : ℕ) → n ≤ a → memcpy dst 0 src 0 n a ≡ dst a
  unfolding memcpy
  memcpy-after dst src n a h = ground (arith, h)

  whole-after :
      (device src m : ℕ → A) (bytes a : ℕ)
      → ◌≡◌ {A = Result Error (ℕ → A)} (ok (memcpy device 0 src 0 bytes)) (ok m)
      → bytes ≤ a
      → m a ≡ device a
  whole-after device src m bytes a e le =
      subst (λ f. f a ≡ device a) (ok-injective e) (memcpy-after device src bytes a le)

  scatter-after :
      (t : Bound) (dev_bytes : ℕ) (device src m : ℕ → A) (a : ℕ)
      → packed_row t ≤ device_row t
      → row_count t.attr * device_row t < size_t
      → scatter t dev_bytes device src ≡ ok m
      → dev_bytes ≤ a
      → m a ≡ device a
  scatter-after t dev_bytes device src m a row whole h past =
      let (room, h1) =
        require-ok (leb ((row_count t.attr * device_row t) % size_t) dev_bytes) _ _ h in
      let inside : (row_count t.attr * device_row t) % size_t ≤ dev_bytes =
        leb→le _ dev_bytes room in
      subst (λ f. f a ≡ device a) (ok-injective h1)
        (copy_rows-after (device_row t) src (packed_row t) (packed_row t) (row_count t.attr) 0
          device a row (omega (arith, inside, whole, past)))

  -- setInput writes nothing past the device buffer: provided that the buffer holds the packed
  -- tensor, that a device row holds a packed one, and that the size of all device rows does not wrap.
  pub set_input-inside :
      (t : Bound) (dev_bytes bytes : ℕ) (device src : ℕ → A) {m : ℕ → A}
      → t.packed_bytes ≤ dev_bytes
      → packed_row t ≤ device_row t
      → row_count t.attr * device_row t < size_t
      → set_input t dev_bytes device bytes src ≡ ok m
      → (a : ℕ) → dev_bytes ≤ a
      → m a ≡ device a
  unfolding set_input
  set_input-inside t dev_bytes bytes device src {m} room row whole h a past =
      elim (if-cases (bytes == dev_bytes) _ _ h) [
        | inl (all, h1) ↦
            whole-after device src m bytes a h1
              (omega (arith, (==_iff bytes dev_bytes).0 all, past))
        | inr (part, h1) ↦
            let (count, h2) = require-ok (bytes == t.packed_bytes) _ _ h1 in
            elim (if-cases (packed_row t == device_row t) _ _ h2) [
              | inl (tight, h3) ↦
                  whole-after device src m bytes a h3
                    (omega (arith, (==_iff bytes t.packed_bytes).0 count, room, past))
              | inr (padded, h3) ↦ scatter-after t dev_bytes device src m a row whole h3 past
            ]
      ]

  memcpy-within : (dst src : ℕ → A) (n a : ℕ) → a < n → memcpy dst 0 src 0 n a ≡ src a
  unfolding memcpy
  memcpy-within dst src n a h = ground (arith, h)

  whole-within :
      (device src m : ℕ → A) (bytes a : ℕ)
      → ◌≡◌ {A = Result Error (ℕ → A)} (ok (memcpy device 0 src 0 bytes)) (ok m)
      → a < bytes
      → m a ≡ src a
  whole-within device src m bytes a e lt =
      subst (λ f. f a ≡ src a) (ok-injective e) (memcpy-within device src bytes a lt)

  scatter-rows :
      (t : Bound) (dev_bytes : ℕ) (device src m : ℕ → A) (r j : ℕ)
      → packed_row t ≤ device_row t
      → scatter t dev_bytes device src ≡ ok m
      → r < row_count t.attr
      → j < packed_row t
      → m (r * device_row t + j) ≡ src (r * packed_row t + j)
  scatter-rows t dev_bytes device src m r j row h hr hj =
      let (room, h1) =
        require-ok (leb ((row_count t.attr * device_row t) % size_t) dev_bytes) _ _ h in
      subst (λ f. f (r * device_row t + j) ≡ src (r * packed_row t + j)) (ok-injective h1)
        (copy_rows-from (device_row t) src (packed_row t) (packed_row t) (row_count t.attr) 0 r j
          device row (omega arith) (omega (arith, hr)) hj)

  packed-rows :
      (t : Bound) (dev_bytes bytes : ℕ) (device src m : ℕ → A) (r j : ℕ)
      → bytes ≢ dev_bytes
      → packed_row t ≤ device_row t
      → row_count t.attr * packed_row t ≤ t.packed_bytes
      → set_input t dev_bytes device bytes src ≡ ok m
      → r < row_count t.attr
      → j < packed_row t
      → m (r * device_row t + j) ≡ src (r * packed_row t + j)
  unfolding set_input
  packed-rows t dev_bytes bytes device src m r j part row rows h hr hj =
      elim (if-cases (bytes == dev_bytes) _ _ h) [
        | inl (all, h1) ↦ absurd (part ((==_iff bytes dev_bytes).0 all))
        | inr (fewer, h1) ↦
            let (count, h2) = require-ok (bytes == t.packed_bytes) _ _ h1 in
            elim (if-cases (packed_row t == device_row t) _ _ h2) [
              | inl (tight, h3) ↦
                  let same : packed_row t ≡ device_row t = (==_iff _ (device_row t)).0 tight in
                  let last : (r + 1) * packed_row t ≤ row_count t.attr * packed_row t =
                    mul-le-mul_right (packed_row t) (omega (arith, hr)) in
                  subst (λ (d : ℕ). m (r * d + j) ≡ src (r * packed_row t + j)) same
                    (whole-within device src m bytes (r * packed_row t + j) h3
                      (omega (arith, last, rows, hj, (==_iff bytes t.packed_bytes).0 count)))
              | inr (padded, h3) ↦ scatter-rows t dev_bytes device src m r j row h3 hr hj
            ]
      ]

  -- setInput of a packed tensor: when it succeeds on bytes that are not as many as the device buffer
  -- has, byte `j` of the tensor's row `r` becomes byte `j` of the device's row `r`, which may be
  -- longer; provided that a device row holds a packed one, that its size does not wrap, and that the
  -- packed size is enough for all rows.
  pub set_input-rows :
      (t : Bound) (dev_bytes bytes : ℕ) (device src : ℕ → A) {m : ℕ → A}
      → bytes ≢ dev_bytes
      → row_elems t.attr (width_of t.attr) * element_size t.io_attr.kind
        ≤ row_elems t.attr (input_width_stride t.attr) * element_size t.io_attr.kind
      → row_elems t.attr (input_width_stride t.attr) * element_size t.io_attr.kind < size_t
      → row_count t.attr * (row_elems t.attr (width_of t.attr) * element_size t.io_attr.kind)
        ≤ t.packed_bytes
      → set_input t dev_bytes device bytes src ≡ ok m
      → (r j : ℕ) → r < row_count t.attr
      → j < row_elems t.attr (width_of t.attr) * element_size t.io_attr.kind
      → m (r * (row_elems t.attr (input_width_stride t.attr) * element_size t.io_attr.kind) + j)
        ≡ src (r * (row_elems t.attr (width_of t.attr) * element_size t.io_attr.kind) + j)
  set_input-rows t dev_bytes bytes device src {m} part row whole rows h r j hr hj =
      let packed : packed_row t ≡ row_elems t.attr (width_of t.attr) * element_size t.io_attr.kind =
        omega (arith, row, whole) in
      let strided : device_row t
          ≡ row_elems t.attr (input_width_stride t.attr) * element_size t.io_attr.kind =
        omega (arith, whole) in
      let stride : ℕ = row_elems t.attr (input_width_stride t.attr) * element_size t.io_attr.kind in
      subst (λ (p : ℕ). m (r * stride + j) ≡ src (r * p + j)) packed
        (subst (λ (d : ℕ). m (r * d + j) ≡ src (r * packed_row t + j)) strided
          (packed-rows t dev_bytes bytes device src m r j part (omega (arith, packed, strided, row))
            (subst (λ (p : ℕ). row_count t.attr * p ≤ t.packed_bytes) (sym packed) rows) h hr
            (omega (arith, packed, hj))))

  -- The gathering of `outputAsFloat`, before it dequantises: the tensor with packed rows.
  unfoldable pub packed_output : Bound → (ℕ → A) → (ℕ → A) → ℕ → A
  packed_output t device scratch =
      let elem : ℕ = element_size t.attr.kind in
      let src_row : ℕ = (row_elems t.attr (input_width_stride t.attr) * elem) % size_t in
      let dst_row : ℕ = (row_elems t.attr (width_of t.attr) * elem) % size_t in
      if input_width_stride t.attr == width_of t.attr
      then device
      else copy_rows dst_row device src_row dst_row (row_count t.attr) 0 scratch

strided_elems-le :
    (a : Attr) (elem : ℕ) → 0 < elem → a.size_with_stride / elem ≤ strided_elems a elem
strided_elems-le a elem some_bytes = elim (Bool-cases (a.size_with_stride == 0)) [
  | inl absent ↦
      rw absent (rw ((==_iff a.size_with_stride 0).0 absent) (omega (arith, zero-div elem)))
  | inr given ↦ rw given (omega arith)
]

-- The memory that setupIo asks for an input holds the packed tensor, whose size does not wrap, and
-- all elements of the model's own padded one, in the type that the caller hands over; provided that
-- the size it computes fits in the 32 bits that the runtime is told.
pub bind_input-holds :
    (as_float : Bool) (a : Attr) {t : Bound}
    → strided_elems a (element_size a.kind) * element_size (io_kind as_float a.kind) < 2 ^ 32
    → bind_input as_float a ≡ ok t
    → (t.packed_bytes ≡ a.n_elems * element_size t.io_attr.kind)
      × (t.packed_bytes ≤ t.requested)
      × (a.size_with_stride / element_size a.kind * element_size t.io_attr.kind ≤ t.requested)
unfolding bind_input
bind_input-holds as_float a {t} few h =
    let (supported, h1) =
      require-ok (ltb 0 (element_size a.kind) && ltb 0 (element_size (io_kind as_float a.kind))) _ _
        h in
    subst
      (λ (b : Bound).
        (b.packed_bytes ≡ a.n_elems * element_size b.io_attr.kind)
        × (b.packed_bytes ≤ b.requested)
        × (a.size_with_stride / element_size a.kind * element_size b.io_attr.kind ≤ b.requested))
      (ok-injective h1)
      (let io : ℕ = element_size (io_kind as_float a.kind) in
        let strided : ℕ = strided_elems a (element_size a.kind) in
        let packed : a.n_elems * io ≤ strided * io = mul-le-mul_right io (omega arith) in
        let padded : a.size_with_stride / element_size a.kind * io ≤ strided * io =
          mul-le-mul_right io
            (strided_elems-le a (element_size a.kind) (ground (arith, supported))) in
        (omega (arith, few, packed), omega (arith, few, packed), omega (arith, few, padded)))
