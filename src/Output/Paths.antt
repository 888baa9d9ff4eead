-- ===== src/Output/Paths.antt =====
-- backend/output_reader.cc, backend/engine.cc: what outputAsFloat gathers, and that its two paths agree.
use rcdl.Common.{
  ℕ, zero, suc, ◌+◌, ◌*◌, ◌%◌, ◌<◌, ◌≤◌, ◌≡◌, refl, sym, ap, subst, ◌∙◌, inl, inr, Bool, true,
  false, ◌&&◌, Option, none, some, lt→ltb, ◌==◌, ==_iff, Bool-cases, Result, ok, err, ◌>>◌, require,
  require-ok, ok-injective, arith,
}
use native.Mathlib.Nat.{add-mul, mul_assoc, mul-le-mul_right}
use rcdl.Common.Pairwise.{some-injective}
use rcdl.Engine.Tensor.{
  TensorType, float32, float16, bfloat16, int4, int8, uint8, int16, uint16, int32, uint32, int64,
  bool, other, Attr, Error, bad_count, element_size, width_of, size_t, row_count, row_elems,
  input_width_stride, Bound,
}
use rcdl.Engine.Rows.{copy_rows, copy_rows-from}
use rcdl.Engine.Data.{packed_output}
use rcdl.Output.Dequantize.{Floats, Quant, load, converter, convert_all, dequantize_to_float}
use rcdl.Output.Read.{engine_output_as_float, is_float32, packed_rows, output_as_float}

-- Bytes that agree give the same number.
load-agree :
    (n : ℕ) (s s' : ℕ → ℕ) (a a' : ℕ)
    → ((b : ℕ) → b < n → s (a + b) ≡ s' (a' + b))
    → load n s a ≡ load n s' a'
load-agree zero s s' a a' h = refl
load-agree (suc n) s s' a a' h =
    let first : s a ≡ s' a' = ap s (omega arith) ∙ h 0 (omega arith) ∙ ap s' (omega arith) in
    let rest =
      load-agree n s s' (suc a) (suc a')
        (λ b lt. ap s (omega arith) ∙ h (suc b) (omega (arith, lt)) ∙ ap s' (omega arith)) in
    omega (arith, first, rest)

row_index : (r w c el b : ℕ) → (r * w + c) * el + b ≡ r * (w * el) + (c * el + b)
row_index r w c el b = omega (arith, add-mul (r * w) c el, mul_assoc r w el)

-- An element of a packed row is that of the device's row.
load-copy_rows :
    (w p el rows r c : ℕ) (device scratch : ℕ → ℕ)
    → r < rows
    → c < w
    → load el (copy_rows (w * el) device (p * el) (w * el) rows 0 scratch) ((r * w + c) * el)
      ≡ load el device ((r * p + c) * el)
load-copy_rows w p el rows r c device scratch hr hc =
    load-agree el _ device ((r * w + c) * el) ((r * p + c) * el) (λ b lt.
      let last : (c + 1) * el ≤ w * el = mul-le-mul_right el (omega (arith, hc)) in
      let inside : c * el + b < w * el = omega (arith, last, add-mul c 1 el, lt) in
      ap (copy_rows (w * el) device (p * el) (w * el) rows 0 scratch) (row_index r w c el b)
      ∙ copy_rows-from (w * el) device (p * el) (w * el) rows 0 r (c * el + b) scratch (omega arith)
          (omega arith) (omega (arith, hr)) inside
      ∙ ap device (sym (row_index r p c el b)))

convert_all-at :
    (o : Option (ℕ → ℕ)) (elem : ℕ) (src dst : ℕ → ℕ) (n : ℕ) {f m : ℕ → ℕ}
    → o ≡ some f
    → convert_all o elem src dst n ≡ ok m
    → (k : ℕ) → k < n
    → m k ≡ f (load elem src (k * elem))
convert_all-at none elem src dst n e h k lt = cc
convert_all-at (some g) elem src dst n {f} {m} e h k lt =
    subst (λ (x : ℕ → ℕ). x k ≡ f (load elem src (k * elem))) (ok-injective h)
      (rw (lt→ltb k n lt) (ap (λ (x : ℕ → ℕ). x (load elem src (k * elem))) (some-injective e)))

convert_all-ok :
    (o : Option (ℕ → ℕ)) (elem : ℕ) (src dst : ℕ → ℕ) (n : ℕ) {f : ℕ → ℕ} {e : Error}
    → o ≡ some f
    → convert_all o elem src dst n ≡ err e
    → ⊥
convert_all-ok none elem src dst n same h = cc
convert_all-ok (some g) elem src dst n same h = cc

require-true :
    (b : Bool) (reason : Error) (rest : Result Error (ℕ → ℕ)) {e : Error}
    → b ≡ true
    → (require b reason >> rest) ≡ err e
    → rest ≡ err e
require-true true reason rest yes_it_is h = h
require-true false reason rest yes_it_is h = cc

float32-kind : (kind : TensorType) → is_float32 kind ≡ true → kind ≡ float32
float32-kind float32 h = refl
float32-kind float16 h = cc
float32-kind bfloat16 h = cc
float32-kind int4 h = cc
float32-kind int8 h = cc
float32-kind uint8 h = cc
float32-kind int16 h = cc
float32-kind uint16 h = cc
float32-kind int32 h = cc
float32-kind uint32 h = cc
float32-kind int64 h = cc
float32-kind bool h = cc
float32-kind other h = cc

-- Rows that the fast path takes to be packed are so for the gather.
packed_rows-stride : (a : Attr) → packed_rows a ≡ true → input_width_stride a ≡ width_of a
unfolding input_width_stride
packed_rows-stride a h = ground (arith, h)

both : (a b : Bool) → (a && b) ≡ true → (a ≡ true) × (b ≡ true)
both true b h = (refl, h)
both false b h = cc

module _ (F : Floats) (q : Quant) (t : Bound) (device : ℕ → ℕ) where
  engine-at :
      (dst : ℕ → ℕ) (n : ℕ) {f m : ℕ → ℕ}
      → converter F q t.attr.kind ≡ some f
      → engine_output_as_float F q t device dst n ≡ ok m
      → (k : ℕ) → k < t.attr.n_elems
      → m k
        ≡ f (
            load
              (element_size t.attr.kind)
              (packed_output t device (λ a. 0))
              (k * element_size t.attr.kind))
  unfolding engine_output_as_float dequantize_to_float
  engine-at dst n e h k lt =
      let (count, h1) = require-ok (n == t.attr.n_elems) bad_count _ h in
      convert_all-at (converter F q t.attr.kind) (element_size t.attr.kind)
        (packed_output t device (λ a. 0)) dst n e h1 k
        (omega (arith, (==_iff n t.attr.n_elems).0 count, lt))

  -- Engine::outputAsFloat, on an output of a supported type whose rows fit a size_t: the float at
  -- column `c` of row `r` is converted from the element at that column of the device's row, which may
  -- be longer than the tensor's.
  pub output_as_float-gathers :
      (dst : ℕ → ℕ) (n : ℕ) {f m : ℕ → ℕ}
      → converter F q t.attr.kind ≡ some f
      → engine_output_as_float F q t device dst n ≡ ok m
      → row_elems t.attr (width_of t.attr) * element_size t.attr.kind < size_t
      → row_elems t.attr (input_width_stride t.attr) * element_size t.attr.kind < size_t
      → (r c : ℕ) → r < row_count t.attr
      → c < row_elems t.attr (width_of t.attr)
      → r * row_elems t.attr (width_of t.attr) + c < t.attr.n_elems
      → m (r * row_elems t.attr (width_of t.attr) + c)
        ≡ f (
            load
              (element_size t.attr.kind)
              device
              ((r * row_elems t.attr (input_width_stride t.attr) + c) * element_size t.attr.kind))
  unfolding packed_output
  output_as_float-gathers dst n {f} {m} e h fits fits' r c hr hc hk =
      engine-at dst n e h _ hk
      ∙ ap f (elim (Bool-cases (input_width_stride t.attr == width_of t.attr)) [
        | inl tight ↦ rw tight (rw ((==_iff _ (width_of t.attr)).0 tight) refl)
        | inr padded ↦
            let packed : (row_elems t.attr (width_of t.attr) * element_size t.attr.kind) % size_t
                ≡ row_elems t.attr (width_of t.attr) * element_size t.attr.kind =
              omega (arith, fits) in
            let strided : (row_elems t.attr (input_width_stride t.attr) * element_size t.attr.kind)
                  % size_t
                ≡ row_elems t.attr (input_width_stride t.attr) * element_size t.attr.kind =
              omega (arith, fits') in
            rw padded (
              rw packed (
                rw strided (
                  load-copy_rows (row_elems t.attr (width_of t.attr))
                    (row_elems t.attr (input_width_stride t.attr)) (element_size t.attr.kind)
                    (row_count t.attr) r c device (λ a. 0) hr hc)))
      ])

  plain_float32 : converter F q float32 ≡ some (λ x. x)
  unfolding converter
  plain_float32 = refl

  in_place :
      t.attr.kind ≡ float32
      → packed_rows t.attr ≡ true
      → (k : ℕ)
      → load
          (element_size t.attr.kind)
          (packed_output t device (λ a. 0))
          (k * element_size t.attr.kind)
        ≡ load 4 device (k * 4)
  unfolding packed_output element_size
  in_place kind packed k =
      let tight : (input_width_stride t.attr == width_of t.attr) ≡ true =
        (==_iff _ (width_of t.attr)).1 (packed_rows-stride t.attr packed) in
      let four : element_size t.attr.kind ≡ 4 = ap element_size kind in
      ap (λ (n : ℕ). load n (packed_output t device (λ a. 0)) (k * n)) four ∙ rw tight refl

  never_fails :
      (scratch : ℕ → ℕ) {f : ℕ → ℕ} {e : Error}
      → converter F q t.attr.kind ≡ some f
      → engine_output_as_float F q t device scratch t.attr.n_elems ≡ err e
      → ⊥
  unfolding engine_output_as_float dequantize_to_float
  never_fails scratch plain h =
      convert_all-ok (converter F q t.attr.kind) (element_size t.attr.kind)
        (packed_output t device (λ a. 0)) scratch t.attr.n_elems plain
        (require-true (t.attr.n_elems == t.attr.n_elems) bad_count _
          ((==_iff t.attr.n_elems t.attr.n_elems).1 refl) h)

  -- outputAsFloat gives the same floats on either path: where Engine::outputAsFloat succeeds, so does
  -- it, with the same first n_elems floats, and where that throws, so does it.
  pub fast_path-eq :
      (scratch : ℕ → ℕ)
      → ((m : ℕ → ℕ)
          → engine_output_as_float F q t device scratch t.attr.n_elems ≡ ok m
          → (m' : ℕ → ℕ) × (output_as_float F q t device scratch ≡ ok m')
            × ((k : ℕ) → k < t.attr.n_elems → m' k ≡ m k))
        × ((e : Error)
            → engine_output_as_float F q t device scratch t.attr.n_elems ≡ err e
            → output_as_float F q t device scratch ≡ err e)
  unfolding output_as_float
  fast_path-eq scratch = elim (Bool-cases (is_float32 t.attr.kind && packed_rows t.attr)) [
    | inr slow ↦ (λ m h. (m, rw slow h, λ k lt. refl), λ e h. rw slow h)
    | inl fast ↦
        let (float, packed) = both (is_float32 t.attr.kind) (packed_rows t.attr) fast in
        let kind : t.attr.kind ≡ float32 = float32-kind t.attr.kind float in
        let plain : converter F q t.attr.kind ≡ some (λ x. x) =
          subst (λ (k : TensorType). converter F q k ≡ some (λ x. x)) (sym kind) (plain_float32) in
        (
          λ m h. (
            λ k. load 4 device (k * 4),
            rw fast refl,
            λ k lt. sym (engine-at scratch t.attr.n_elems plain h k lt ∙ in_place kind packed k),
          ),
          λ e h. absurd (never_fails scratch plain h),
        )
  ]
