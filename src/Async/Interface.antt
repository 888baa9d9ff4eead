-- ===== src/Async/Interface.antt =====
-- What the pipeline calls: the letterbox into a context's input tensor, and infer() followed by
-- postprocess() on that context. All contexts are duplicates of one model, so they infer alike.
-- A call that throws gives its message. (preproc/letterbox.cc, HeadDecoder and the NPU runtime.)
use rcdl.Common.{Bool, Result}

pub record Stages : Type 1 where
  pub Source : Type 0
  pub Tensor : Type 0
  pub Geometry : Type 0
  pub Dets : Type 0
  pub Message : Type 0
  pub is_valid : Source → Bool
  -- The tensor afterwards, also where the letterbox throws half-way.
  pub letterbox : Source → Tensor → Tensor × Result Message Geometry
  pub infer_and_decode : Tensor → Geometry → Result Message Dets
  pub blank : Tensor
  pub no_geometry : Geometry
