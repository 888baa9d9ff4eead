-- ===== src/Video/Channel.antt =====
-- pipeline/async_video_detection_pipeline.cc: Channel, the bounded queue between two stages. A
-- section that would sleep on its condition variable returns `none`.
use rcdl.Common.{
  ℕ, Bool, true, false, ◌||◌, List, [], ◌∷◌, ◌++◌, Option, none, some, length, ltb, ◌==◌,
  if◌then◌else◌,
}

pub record Channel {ℓ} (T : Type ℓ) : Type ℓ where
  pub cap : ℕ
  pub items : List T
  pub closed : Bool

module _ {ℓ} {T : Type ℓ} where
  unfoldable pub open_channel : ℕ → Channel T
  open_channel cap = record { cap = if cap == 0 then 1 else cap; items = []; closed = false }

  unfoldable pub push : Channel T → T → Option (Channel T × Bool)
  push c v =
      if ltb (length c.items) c.cap || c.closed
      then some (if c.closed then (c, false) else (record c { items = c.items ++ v ∷ [] }, true))
      else none

  abbrev pub pop_items : Channel T → List T → Option (Channel T × Option T)
  pop_items c (v ∷ rest) = some (record c { items = rest }, some v)
  pop_items c [] = if c.closed then some (c, none) else none

  -- What is left after a close is still popped; `none` inside stands for false.
  unfoldable pub pop : Channel T → Option (Channel T × Option T)
  pop c = pop_items c c.items

  unfoldable pub close : Channel T → Channel T
  close c = record c { closed = true }
