-- ===== src/Pool/Build.antt =====
-- engine_pool.cc: what the two constructors of EnginePool leave behind.
use rcdl.Common.{
  >>=-ok, ok-injective, ℕ, zero, suc, ◌+◌, ◌-◌, ◌<◌, ◌≤◌, ◌≡◌, refl, ◌∙◌, Bool, true, false, List,
  [], ◌∷◌, ◌++◌, Option, none, some, get_elem?, length, length-append, length-replicate, replicate,
  ltb, if◌then◌else◌, ok, require, NpuCore, arith, dec_lt, leb→le, get_elem?-append_left,
  get_elem?-append_last, ap, subst,
}
use rcdl.Common.Int.{ℤ, pos, leb_ℤ, pos_part, ◌≤ℤ◌}
use rcdl.Engine.{
  Engine, Options, Runtime, Error, bad_size, load, dup, dup-core, dup-core, load-core,
}
use rcdl.Pool.{Pool, size, core_for_index, pin_for, dup_rest, build, load_pool, dup_pool, is_free}
use rcdl.Pool.Free.{free_count-replicate, is_free-replicate}
use rcdl.Pool.Invariant.{Inv}
use rcdl.Pool.Leases.Ownership.{Owned}

abbrev pub core_of : Option Engine → Option NpuCore
core_of none = none
core_of (some e) = some e.core

-- The core of context `j`.
abbrev pub core_at : List Engine → ℕ → Option NpuCore
core_at es j = core_of (get_elem? es j)

core_at-last :
    (es : List Engine) (e : Engine) {j : ℕ} → length es ≡ j → core_at (es ++ e ∷ []) j ≡ some e.core
core_at-last es e h =
    subst (λ m. core_at (es ++ e ∷ []) m ≡ some e.core) h (ap core_of (get_elem?-append_last es e))

-- A pool of `n` contexts, all free, the first on the core `first` and the others pinned by their
-- place or left to the driver.
pub record Built (pin_cores : Bool) (first : NpuCore) (n : ℤ) (p : Pool) : Type 0 where
  pub at_least_one : pos 1 ≤ℤ n
  pub sized : size p ≡ pos_part n
  pub inv : Inv p
  pub all_free : (i : ℕ) → is_free p.free i ≡ ltb i (size p)
  pub unused : p.in_use ≡ 0
  pub first_core : core_at p.engines 0 ≡ some first
  pub other_cores :
      (j : ℕ) → 0 < j → j < pos_part n → core_at p.engines j ≡ some (pin_for pin_cores j)

require-true : (b : Bool) (e : Error) {u : Unit {0}} → require b e ≡ ok u → b ≡ true
require-true true e h = refl
require-true false e h = cc

module _ (rt : Runtime) (src : Engine) (pin_cores : Bool) where
  -- The loop appends `k` duplicates, pinned by their place, to the engines that are there.
  dup_rest-cores :
      (k i : ℕ) (es : List Engine) {out : List Engine}
      → dup_rest rt src pin_cores k i es ≡ ok out
      → length es ≡ i
      → (length out ≡ i + k)
        × ((j : ℕ) → j < i → core_at out j ≡ core_at es j)
        × ((j : ℕ) → i ≤ j → j < i + k → core_at out j ≡ some (pin_for pin_cores j))
  unfolding dup_rest
  dup_rest-cores zero i es h l =
      (ground (arith, h), λ j lt. ground (arith, h), λ j le lt. absurd (omega arith))
  dup_rest-cores (suc k) i es {out} h l =
      let (e, made, rest) = >>=-ok (dup rt i src (pin_for pin_cores i)) _ h in
      let (len, old, new) =
        dup_rest-cores k (suc i) (es ++ e ∷ []) rest (omega (arith, length-append es (e ∷ []))) in
      (
        omega arith,
        λ j lt.
            old j (omega arith) ∙ ap core_of (get_elem?-append_left es (e ∷ []) j (omega arith)),
        λ j le lt. elim (dec_lt i j) [
          | yes beyond ↦ new j beyond (omega arith)
          | no here ↦
              subst (λ m. core_at out m ≡ some (pin_for pin_cores m))
                (let e' : i ≡ j = omega arith in e')
                (old i (omega arith)
                  ∙ core_at-last es e l
                  ∙ ap some (dup-core rt i src (pin_for pin_cores i) made).0)
        ],
      )

  abbrev fresh : List Engine → Pool
  fresh es = record { engines = es; free = replicate (length es) true; in_use = 0 }

  build-Built : (n : ℤ) {p : Pool} → build rt src n pin_cores ≡ ok p → Built pin_cores src.core n p
  unfolding build
  build-Built n {p} h =
      let (_, fits, h1) = >>=-ok (require (leb_ℤ (pos 1) n) bad_size) _ h in
      let (es, made, h2) = >>=-ok (dup_rest rt src pin_cores (pos_part n - 1) 1 (src ∷ [])) _ h1 in
      let (len, old, new) = dup_rest-cores (pos_part n - 1) 1 (src ∷ []) made refl in
      let enough : pos 1 ≤ℤ n = leb→le _ _ (require-true (leb_ℤ (pos 1) n) bad_size fits) in
      subst (Built pin_cores src.core n) (ok-injective h2) (record {
        at_least_one = enough;
        sized = omega arith;
        inv = record {
          sized = length-replicate (length es) true;
          counted = omega (arith, free_count-replicate (length es));
        };
        all_free = is_free-replicate (length es);
        unused = refl;
        first_core = old 0 (omega arith);
        other_cores = λ j lt below. new j lt (omega arith);
      })

-- When the constructor returns, a pool on a loaded model has the loaded engine as context 0, on core 0 if cores are pinned and
-- where the options say if not; every other context is pinned by its place. All are free.
pub load_pool-Built :
    (rt : Runtime) (base : Options) (n : ℤ) (pin_cores : Bool) {p : Pool}
    → load_pool rt base n pin_cores ≡ ok p
    → Built pin_cores (if pin_cores then core_for_index 0 else base.core) n p
unfolding load_pool
load_pool-Built rt base n true {p} h =
    let opts : Options = record base { core = core_for_index 0 } in
    let (e, made, h1) = >>=-ok (load rt 0 opts) _ h in
    subst (λ c. Built true c n p) (load-core rt 0 opts made).0 (build-Built rt e true n h1)
load_pool-Built rt base n false {p} h =
    let (e, made, h1) = >>=-ok (load rt 0 base) _ h in
    subst (λ c. Built false c n p) (load-core rt 0 base made).0 (build-Built rt e false n h1)

-- When the constructor returns, a pool on a borrowed engine has the size asked for, at least one,
-- and all its contexts are free; each is pinned by its place if cores are pinned, context 0 as well,
-- and left to the driver if not.
pub dup_pool-Built :
    (rt : Runtime) (primary : Engine) (n : ℤ) (pin_cores : Bool) {p : Pool}
    → dup_pool rt primary n pin_cores ≡ ok p
    → Built pin_cores (pin_for pin_cores 0) n p
unfolding dup_pool
dup_pool-Built rt primary n pin_cores {p} h =
    let (e, made, h1) = >>=-ok (dup rt 0 primary (pin_for pin_cores 0)) _ h in
    subst (λ c. Built pin_cores c n p) (dup-core rt 0 primary (pin_for pin_cores 0) made).0
      (build-Built rt e pin_cores n h1)

-- A program that has just made a pool, and no lease yet, owns every context once.
pub Built-Owned :
    {pin_cores : Bool} {first : NpuCore} {n : ℤ} {p : Pool}
    → Built pin_cores first n p
    → Owned (record { pool = p; leases = [] })
Built-Owned b = record {
  inv = b.inv;
  once = λ i. rw (b.all_free i) (omega arith);
  counted = b.unused;
}
