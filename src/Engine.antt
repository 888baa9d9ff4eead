-- ===== src/Engine.antt =====
-- backend/engine.h, backend/engine.cc: how an Engine comes to be, by loading a model or by
-- duplicating a context. The RKNN runtime is a parameter. So is what an Engine does after its
-- context exists (registerCustomOps, setupIo), which only decides here whether construction throws.
pub mod Tensor
pub mod Rows
pub mod Data
pub mod Examples
use rcdl.Common.{
  >>=-ok, ℕ, Bool, List, ◌≡◌, arith, Result, ok, ◌>>=◌, ◌>>◌, NpuCore, auto, if◌then◌else◌,
}

pub data Error : Type 0 where
  runtime : Error
  bad_size : Error
  out_of_range : Error
  disagree : Error
  empty_lease : Error

-- EngineOptions, and the path of the model.
pub record Options : Type 0 where
  pub path : ℕ
  pub core : NpuCore
  pub float_inputs : List ℕ
  pub init_flags : ℕ
  pub custom_ops : Bool

-- The first argument of `init` and `dup_context` tells the calls of one run apart.
pub record Runtime : Type 0 where
  pub init : ℕ → ℕ → ℕ → Result Error ℕ
  pub dup_context : ℕ → ℕ → Result Error ℕ
  pub set_core_mask : ℕ → NpuCore → Result Error (Unit {0})
  pub register_custom_ops : ℕ → Result Error (Unit {0})
  pub setup_io : ℕ → List ℕ → Result Error (Unit {0})

pub record Engine : Type 0 where
  pub ctx : ℕ
  pub path : ℕ
  pub core : NpuCore
  pub float_inputs : List ℕ

-- `if (core_ != NpuCore::Auto) rknn_set_core_mask(...)`
unfoldable pub pin : Runtime → ℕ → NpuCore → Result Error (Unit {0})
pin rt ctx auto = ok tt
pin rt ctx core = rt.set_core_mask ctx core

unfoldable pub load : Runtime → ℕ → Options → Result Error Engine
load rt call opts = do
  ctx ← rt.init call opts.path opts.init_flags
  pin rt ctx opts.core
  if opts.custom_ops then rt.register_custom_ops ctx else ok tt
  rt.setup_io ctx opts.float_inputs
  ok (record { ctx = ctx; path = opts.path; core = opts.core; float_inputs = opts.float_inputs })

unfoldable pub dup : Runtime → ℕ → Engine → NpuCore → Result Error Engine
dup rt call e core = do
  ctx ← rt.dup_context call e.ctx
  pin rt ctx core
  rt.register_custom_ops ctx
  rt.setup_io ctx e.float_inputs
  ok (record { ctx = ctx; path = e.path; core = core; float_inputs = e.float_inputs })

-- A duplicate has the core it is asked for, and the model and the float inputs of its parent.
pub dup-core :
    (rt : Runtime) (call : ℕ) (e : Engine) (core : NpuCore) {d : Engine}
    → dup rt call e core ≡ ok d
    → (d.core ≡ core) × (d.path ≡ e.path) × (d.float_inputs ≡ e.float_inputs)
unfolding dup
dup-core rt call e core {d} h =
    let (ctx, _, h1) = >>=-ok (rt.dup_context call e.ctx) _ h in
    let (_, _, h2) = >>=-ok (pin rt ctx core) _ h1 in
    let (_, _, h3) = >>=-ok (rt.register_custom_ops ctx) _ h2 in
    let (_, _, h4) = >>=-ok (rt.setup_io ctx e.float_inputs) _ h3 in
    (ground (arith, h4), ground (arith, h4), ground (arith, h4))

pub load-core :
    (rt : Runtime) (call : ℕ) (opts : Options) {d : Engine}
    → load rt call opts ≡ ok d
    → (d.core ≡ opts.core) × (d.path ≡ opts.path) × (d.float_inputs ≡ opts.float_inputs)
unfolding load
load-core rt call opts {d} h =
    let (ctx, _, h1) = >>=-ok (rt.init call opts.path opts.init_flags) _ h in
    let (_, _, h2) = >>=-ok (pin rt ctx opts.core) _ h1 in
    let (_, _, h3) = >>=-ok (if opts.custom_ops then rt.register_custom_ops ctx else ok tt) _ h2 in
    let (_, _, h4) = >>=-ok (rt.setup_io ctx opts.float_inputs) _ h3 in
    (ground (arith, h4), ground (arith, h4), ground (arith, h4))
