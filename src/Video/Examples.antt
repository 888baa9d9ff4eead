-- ===== src/Video/Examples.antt =====
-- The video pipeline at the stages of the detector's examples: a frame whose inference throws, then one
-- whose result is returned, and the theorems there.
use rcdl.Common.{
  ℕ, zero, suc, Bool, true, false, ap, sym, ◌∙◌, ◌≡◌, ◌≢◌, refl, List, [], ◌∷◌, some, get_elem?, ok,
  err, arith,
}
use rcdl.Common.Int.{ℤ, pos}
use rcdl.Common.Assoc.{find, emplace, erase}
use rcdl.Common.Pairwise.{some-injective}
use rcdl.Pool.{acquire, take_context, scan, first_free, release, give_back, assign_lease}
use rcdl.Pool.Examples.{pair, pair-Owned}
use rcdl.Async.Impl.{
  start, admit, claim, commit_slot, checked_slot, letterbox_into_slot, is_held, is_queued,
}
use rcdl.Async.Worker.{wake, work, park, try_next, next}
use rcdl.Async.World.{wakes, infers, parks, returns}
use rcdl.Async.Examples.{adding}
use rcdl.Video.Channel.{open_channel, push, pop}
use rcdl.Video.Impl.{
  FrameMeta, VideoFrame, VideoPipeline, picture, start_video, queue_slots, look, after_answer,
  publish, pop_meta, finish_input, rethrow_failure, record_failure, submit_bytes, meta_of, closing,
  threw,
}
use rcdl.Video.State.{VideoWorld, video_initial}
use rcdl.Video.World.{
  admits, takes, claims, pops, letterboxes, publishes, commits, looks, reads, hears, hands,
  drain_fails, asks_next, takes_next, pops_meta, finishes, letterbox, draining, calling, worker,
  VideoReach, here, and_then,
}
use rcdl.Video.Sources.{SourcesOf}
use rcdl.Video.Sources.Steps.{VideoReach-Sources}
use rcdl.Video.Answers.{Computed}
use rcdl.Video.Delivery.{shown_in_order, metadata_lags}
use rcdl.Video.Failure.{failure_stays}

abbrev frame_at : ℕ → ℕ → ℕ → VideoFrame adding
frame_at source pts_us index = record { source = source; pts_us = pts_us; index = index }

abbrev Run : Type 0
Run = (w : VideoWorld adding) × VideoReach adding 2 (video_initial adding pair (pos 0) (pos 2)) w

-- A frame with source 20 goes through the decoder's thread and the letterbox thread, ...
one_committed : Run
unfolding start start_video open_channel push pop look after_answer publish admit acquire scan
    first_free take_context claim assign_lease release give_back letterbox_into_slot checked_slot
    is_held is_queued commit_slot wake work park emplace find erase try_next next pop_meta
    finish_input rethrow_failure record_failure queue_slots
one_committed = (
  _,
  (and_then
      (and_then
        (and_then
          (and_then
            (and_then
              (and_then
                (and_then
                  (and_then
                    (and_then
                      (and_then (and_then here (draining (looks refl))) (draining (reads refl)))
                      (draining (hears (picture (frame_at 20 700 0)) refl)))
                    (draining (hands refl refl)))
                  (letterbox (admits refl refl)))
                (letterbox (takes refl refl)))
              (letterbox (claims refl refl)))
            (letterbox (pops refl refl)))
          (letterbox (letterboxes [] refl)))
        (letterbox (publishes refl)))
      (letterbox (commits refl refl))),
)

-- ... and its result is returned.
one_shown : Run
unfolding one_committed start start_video open_channel push pop look after_answer publish admit
    acquire scan first_free take_context claim assign_lease release give_back letterbox_into_slot
    checked_slot is_held is_queued commit_slot wake work park emplace find erase try_next next
    pop_meta finish_input rethrow_failure record_failure queue_slots
one_shown = (
  _,
  (and_then
      (and_then
        (and_then
          (and_then
            (and_then
              (and_then (and_then one_committed.1 (worker 0 (omega arith) (wakes refl)))
                (worker 0 (omega arith) (infers refl)))
              (worker 0 (omega arith) (parks refl)))
            (worker 0 (omega arith) (returns refl)))
          (calling (asks_next true refl refl)))
        (calling (takes_next refl refl)))
      (calling (pops_meta refl))),
)

-- A frame with source 13 makes next() throw, ...
one_thrown : Run
unfolding start start_video open_channel push pop look after_answer publish admit acquire scan
    first_free take_context claim assign_lease release give_back letterbox_into_slot checked_slot
    is_held is_queued commit_slot wake work park emplace find erase try_next next pop_meta
    finish_input rethrow_failure record_failure queue_slots
one_thrown = (
  _,
  (and_then
      (and_then
        (and_then
          (and_then
            (and_then
              (and_then
                (and_then
                  (and_then
                    (and_then
                      (and_then
                        (and_then
                          (and_then
                            (and_then
                              (and_then
                                (and_then
                                  (and_then (and_then here (draining (looks refl)))
                                    (draining (reads refl)))
                                  (draining (hears (picture (frame_at 13 700 0)) refl)))
                                (draining (hands refl refl)))
                              (letterbox (admits refl refl)))
                            (letterbox (takes refl refl)))
                          (letterbox (claims refl refl)))
                        (letterbox (pops refl refl)))
                      (letterbox (letterboxes [] refl)))
                    (letterbox (publishes refl)))
                  (letterbox (commits refl refl)))
                (worker 0 (omega arith) (wakes refl)))
              (worker 0 (omega arith) (infers refl)))
            (worker 0 (omega arith) (parks refl)))
          (worker 0 (omega arith) (returns refl)))
        (calling (asks_next false refl refl)))
      (calling (takes_next refl refl))),
)

-- ... another frame follows it, ...
late_committed : Run
unfolding one_thrown start start_video open_channel push pop look after_answer publish admit acquire
    scan first_free take_context claim assign_lease release give_back letterbox_into_slot
    checked_slot is_held is_queued commit_slot wake work park emplace find erase try_next next
    pop_meta finish_input rethrow_failure record_failure queue_slots
late_committed = (
  _,
  (and_then
      (and_then
        (and_then
          (and_then
            (and_then
              (and_then
                (and_then
                  (and_then
                    (and_then
                      (and_then (and_then one_thrown.1 (draining (looks refl)))
                        (draining (reads refl)))
                      (draining (hears (picture (frame_at 20 740 1)) refl)))
                    (draining (hands refl refl)))
                  (letterbox (admits refl refl)))
                (letterbox (takes refl refl)))
              (letterbox (claims refl refl)))
            (letterbox (pops refl refl)))
          (letterbox (letterboxes [] refl)))
        (letterbox (publishes refl)))
      (letterbox (commits refl refl))),
)

-- ... and its result is returned, with the timestamp of the first.
late_shown : Run
unfolding one_thrown late_committed start start_video open_channel push pop look after_answer
    publish admit acquire scan first_free take_context claim assign_lease release give_back
    letterbox_into_slot checked_slot is_held is_queued commit_slot wake work park emplace find erase
    try_next next pop_meta finish_input rethrow_failure record_failure queue_slots
late_shown = (
  _,
  (and_then
      (and_then
        (and_then
          (and_then
            (and_then
              (and_then (and_then late_committed.1 (worker 0 (omega arith) (wakes refl)))
                (worker 0 (omega arith) (infers refl)))
              (worker 0 (omega arith) (parks refl)))
            (worker 0 (omega arith) (returns refl)))
          (calling (asks_next true refl refl)))
        (calling (takes_next refl refl)))
      (calling (pops_meta refl))),
)

shown_in_order_example :
    (f : VideoFrame adding) × (get_elem? one_shown.0.received 0 ≡ some f)
    × (record { pts_us = 700; index = 0 } ≡ meta_of adding f)
    × Computed adding f (record { lb = 21; outcome = ok 41 })
unfolding one_shown one_committed pop_meta
shown_in_order_example =
    shown_in_order adding pair (pos 0) (pos 2) pair-Owned one_shown.1 (omega arith) 0
      (record {
        result = record { lb = 21; outcome = ok 41 };
        meta = record { pts_us = 700; index = 0 };
        thrown = 0;
      })
      refl refl

abbrev two_frames : List (VideoFrame adding)
two_frames = frame_at 13 700 0 ∷ frame_at 20 740 1 ∷ []

index_of : (i : ℕ) (f : VideoFrame adding) → get_elem? two_frames i ≡ some f → f.index ≡ i
index_of zero f h = ap (λ (x : VideoFrame adding). x.index) (sym (some-injective h))
index_of (suc zero) f h = ap (λ (x : VideoFrame adding). x.index) (sym (some-injective h))
index_of (suc (suc i)) f h = cc

two_frames-distinct :
    (i j : ℕ) (f g : VideoFrame adding)
    → get_elem? two_frames i ≡ some f
    → get_elem? two_frames j ≡ some g
    → meta_of adding f ≡ meta_of adding g
    → i ≡ j
two_frames-distinct i j f g hf hg same =
    sym (index_of i f hf) ∙ ap (λ (m : FrameMeta). m.index) same ∙ index_of j g hg

metadata_lags_example :
    (f g : VideoFrame adding) × (get_elem? late_shown.0.received 1 ≡ some f)
    × Computed adding f (record { lb = 21; outcome = ok 41 })
    × (get_elem? late_shown.0.received 0 ≡ some g)
    × (record { pts_us = 700; index = 0 } ≡ meta_of adding g)
    × (record { pts_us = 700; index = 0 } ≢ meta_of adding f)
unfolding late_shown late_committed one_thrown pop_meta
metadata_lags_example =
    metadata_lags adding pair (pos 0) (pos 2) pair-Owned late_shown.1 (omega arith)
      two_frames-distinct 0
      (record {
        result = record { lb = 21; outcome = ok 41 };
        meta = record { pts_us = 700; index = 0 };
        thrown = 1;
      })
      refl (λ e. cc)

VideoReach-Sources_example : SourcesOf adding late_shown.0
unfolding late_shown
VideoReach-Sources_example = VideoReach-Sources adding pair (pos 0) (pos 2) late_shown.1

-- The drain thread fails with the message 69, 33, and the input is finished after that.
drain_failed : Run
unfolding start_video look after_answer record_failure
drain_failed = (
  _,
  and_then
      (and_then (and_then (and_then here (draining (looks refl))) (draining (reads refl)))
        (draining (hears (threw (69 ∷ 33 ∷ [])) refl)))
      (draining (drain_fails refl)),
)

finished_after : (w : VideoWorld adding) × VideoReach adding 2 drain_failed.0 w
unfolding drain_failed finish_input record_failure start_video
finished_after = (_, and_then here (calling (finishes refl)))

failure_stays_example :
    (rethrow_failure adding finished_after.0.impl ≡ err (69 ∷ 33 ∷ []))
    × ((size : ℕ) (timeout_ms : ℤ) (fed : Bool) (later : List (VideoPipeline adding × Bool))
        → submit_bytes adding finished_after.0.impl size timeout_ms fed later
          ≡ some (err (69 ∷ 33 ∷ [])))
    × ((k : ℕ) → look adding finished_after.0.impl k ≡ closing)
unfolding drain_failed record_failure start_video
failure_stays_example =
    failure_stays adding pair (pos 0) (pos 2) drain_failed.1 (λ e. cc) finished_after.1
