-- ===== src/Video/Delivery.antt =====
-- pipeline/async_video_detection_pipeline.h: "detections out, in DECODE order", with the timestamp and
-- the index of lastPtsUs() and lastFrameIndex(), however the threads interleave.
use rcdl.Common.{
  ℕ, ◌≡◌, ◌≢◌, ◌<◌, ◌≤◌, ◌+◌, refl, sym, subst, ap, ◌∙◌, List, [], ◌++◌, map, length, get_elem?,
  get_elem?-append_left, get_elem?-some_lt, some, arith,
}
use rcdl.Common.Int.{ℤ}
use rcdl.Common.Pairwise.{
  Each-length, Each-get, some-injective, length-map, get_elem?-map, get_elem?-lt,
}
use rcdl.Pool.{Pool, size}
use rcdl.Pool.Leases.Ownership.{Owned}
use rcdl.Async.Interface.{Stages}
use rcdl.Async.Impl.{Parked, u64}
use rcdl.Async.World.{World, initial, Reach, here as start_here, next}
use rcdl.Async.Invariant.{Step-grows}
use rcdl.Async.Delivery.{delivered_in_order}
use rcdl.Video.Impl.{FrameMeta, VideoFrame, meta_of, start_video}
use rcdl.Video.State.{VideoWorld, Shown, video_initial}
use rcdl.Video.World.{VideoStep, VideoReach, here, and_then}
use rcdl.Video.Sources.Steps.{VideoReach-Sources}
use rcdl.Video.Detector.{VideoStep-Reach}
use rcdl.Video.Answers.{Computed, AnswersOf, VideoStep-Answers}
use rcdl.Video.Metas.{MetasOf, owed}
use rcdl.Video.Metas.Steps.{VideoStep-Metas}
use rcdl.Video.Shows.{ShowsOf, VideoStep-Shows}

module _ (E : Stages) where
  Reach-grows : {n : ℕ} {s d : World E} → Reach E n s d → length s.expected ≤ length d.expected
  Reach-grows start_here = omega arith
  Reach-grows (next r st) = omega (arith, Reach-grows r, Step-grows E st)

  VideoStep-grows :
      {n : ℕ} {w w' : VideoWorld E}
      → VideoStep E n w w'
      → length w.detect.expected ≤ length w'.detect.expected
  VideoStep-grows {n} {w} st = Reach-grows (VideoStep-Reach E {n = n} {s = w.detect} st start_here)

  module _ (pool : Pool) (depth queue_depth : ℤ)
      (fresh : Owned (record { pool = pool; leases = [] })) where
    pub record VideoInv (w : VideoWorld E) : Type 0 where
      pub reach : Reach E (size pool) (initial E pool depth) w.detect
      pub answers : AnswersOf E w
      pub metas : MetasOf E w
      pub shows : ShowsOf E w

    few :
        {w : VideoWorld E}
        → length w.detect.expected < u64
        → VideoInv w
        → length w.shown + owed E w.caller ≤ length w.committed_frames
    few {w} small v = omega (
      arith,
      v.shows.count,
      (delivered_in_order E pool depth fresh v.reach small).0,
      Each-length (Computed E) w.committed_frames w.detect.expected v.answers.each,
    )

    pub VideoReach-Inv :
        {w : VideoWorld E}
        → VideoReach E (size pool) (video_initial E pool depth queue_depth) w
        → length w.detect.expected < u64
        → VideoInv w
    unfolding start_video
    VideoReach-Inv here small = record {
      reach = start_here;
      answers = record { each = tt; in_slot = tt };
      metas = record { queue = refl; due = refl };
      shows = record { count = refl; each = λ k s at. cc; owes = tt };
    }
    VideoReach-Inv (and_then {w = w} r st) small =
        let before : length w.detect.expected < u64 = omega (arith, VideoStep-grows st) in
        let v = VideoReach-Inv r before in
        record {
          reach = VideoStep-Reach E st v.reach;
          answers = VideoStep-Answers E st v.answers;
          metas = VideoStep-Metas E st (few before v) v.metas;
          shows = VideoStep-Shows E st v.shows;
        }

    module _ {w : VideoWorld E}
        (run : VideoReach E (size pool) (video_initial E pool depth queue_depth) w)
        (small : length w.detect.expected < u64) where
      inv : VideoInv w
      inv = VideoReach-Inv run small

      from_decoder :
          (k : ℕ) {f : VideoFrame E}
          → get_elem? w.committed_frames k ≡ some f
          → get_elem? w.received k ≡ some f
      from_decoder k {f} h = rw (VideoReach-Sources E pool depth queue_depth run).whole (
          get_elem?-append_left w.committed_frames _ k (get_elem?-some_lt w.committed_frames k h)
          ∙ h)

      result_of :
          (k : ℕ) {r : Parked E}
          → get_elem? w.detect.delivered k ≡ some r
          → (f : VideoFrame E) × (get_elem? w.received k ≡ some f) × Computed E f r
      result_of k {r} h =
          let same =
            (delivered_in_order E pool depth fresh inv.reach small).1 k
              (get_elem?-some_lt w.detect.delivered k h) in
          let (f, at, c) =
            Each-get (Computed E) w.committed_frames w.detect.expected k inv.answers.each
              (sym same ∙ h) in
          (f, from_decoder k at, c)

      meta_at :
          (k : ℕ) (s : Shown E)
          → get_elem? w.shown k ≡ some s
          → (f : VideoFrame E) × (get_elem? w.received k ≡ some f) × (s.meta ≡ meta_of E f)
      meta_at k s h =
          let under : k < length w.committed_frames =
            omega (arith, few small inv, get_elem?-some_lt w.shown k h) in
          let (f, at) = get_elem?-lt w.committed_frames k under in
          let meta = λ (x : Shown E). x.meta in
          let from_shown : get_elem? (map meta w.shown ++ w.impl.meta) k ≡ some s.meta =
            get_elem?-append_left (map meta w.shown) w.impl.meta k
              (omega (arith, length-map meta w.shown, get_elem?-some_lt w.shown k h))
            ∙ get_elem?-map meta w.shown k h in
          let from_frames : get_elem? (map (meta_of E) w.committed_frames ++ w.announced) k
              ≡ some (meta_of E f) =
            get_elem?-append_left (map (meta_of E) w.committed_frames) w.announced k
              (omega (arith, length-map (meta_of E) w.committed_frames, under))
            ∙ get_elem?-map (meta_of E) w.committed_frames k at in
          (
            f,
            from_decoder k at,
            some-injective (
                sym from_shown
                ∙ ap (λ (l : List FrameMeta). get_elem? l k) (sym inv.metas.queue)
                ∙ from_frames),
          )

      -- In every state that a new pipeline on a pool with all contexts free reaches with fewer than
      -- 2^64 commits, however the threads interleave: if no result has made next() or tryNext() throw
      -- before it, the k-th result that they return is computed from the letterboxed pixels and the
      -- geometry of the k-th frame that the decoder gave, and comes with the timestamp and the index
      -- of that frame.
      pub shown_in_order :
          (k : ℕ) (s : Shown E)
          → get_elem? w.shown k ≡ some s
          → s.thrown ≡ 0
          → (f : VideoFrame E) × (get_elem? w.received k ≡ some f)
            × (s.meta ≡ meta_of E f)
            × Computed E f s.result
      shown_in_order k s h clean =
          let (f, at, c) = result_of (k + s.thrown) (inv.shows.each k s h).1 in
          let here_at : get_elem? w.received k ≡ some f =
            subst (λ (j : ℕ). get_elem? w.received j ≡ some f) (omega (arith, clean)) at in
          let (f', at', same) = meta_at k s h in
          (f, here_at, same ∙ ap (meta_of E) (some-injective (sym at' ∙ here_at)), c)

      -- In the same states (a new pipeline on a pool with all contexts free, fewer than 2^64 commits),
      -- for a decoder that gives no two frames the same timestamp and index: a result that next() or
      -- tryNext() returns after some result has made them throw comes with the metadata of another
      -- frame, the one that is as many frames earlier as results have thrown.
      pub metadata_lags :
          ((i j : ℕ) (f g : VideoFrame E)
            → get_elem? w.received i ≡ some f
            → get_elem? w.received j ≡ some g
            → meta_of E f ≡ meta_of E g
            → i ≡ j)
          → (k : ℕ) (s : Shown E) → get_elem? w.shown k ≡ some s
          → s.thrown ≢ 0
          → (f g : VideoFrame E) × (get_elem? w.received (k + s.thrown) ≡ some f)
            × Computed E f s.result
            × (get_elem? w.received k ≡ some g)
            × (s.meta ≡ meta_of E g)
            × (s.meta ≢ meta_of E f)
      metadata_lags distinct k s h late =
          let (f, at, c) = result_of (k + s.thrown) (inv.shows.each k s h).1 in
          let (g, at', same) = meta_at k s h in
          (
            f,
            g,
            at,
            c,
            at',
            same,
            λ wrong.
                absurd
                  (late (omega (arith, distinct k (k + s.thrown) g f at' at (sym same ∙ wrong)))),
          )
