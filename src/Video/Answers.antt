-- ===== src/Video/Answers.antt =====
-- pipeline/async_video_detection_pipeline.cc: which frame a committed result is computed from.
use rcdl.Common.{
  ℕ, ◌≡◌, refl, sym, subst, Bool, true, false, List, Option, none, some, Result, ok, err,
}
use mathlib.Core.Path.{fun_ext}
use rcdl.Common.Assoc.{find}
use rcdl.Common.Int.{pos}
use rcdl.Common.Pairwise.{Each, Each-snoc}
use rcdl.Pool.{Lease}
use rcdl.Async.Interface.{Stages}
use rcdl.Async.Impl.{Pipeline, Parked, Error, letterbox_into_slot}
use rcdl.Async.Worker.{work, finish, try_next, pop}
use rcdl.Async.World.{World, committed, drained}
use rcdl.Async.Quiet.{
  Quiet, WorkerStep-Quiet, claimed-Quiet, release_slot-Keeps, commit_slot-Keeps,
  letterbox_into_slot-ok,
}
use rcdl.Video.Impl.{Text, VideoFrame}
use rcdl.Video.State.{
  Letterboxer, boxed, published, VideoWorld, with_detect, after_admit, after_claim, after_pop,
  after_letterbox, after_commit, after_next,
}
use rcdl.Video.World.{
  LetterboxStep, admits, takes, take_throws, claims, pops, gives_back, give_back_throws,
  letterboxes, unwinds, unwind_throws, publishes, commits, commit_throws, retracts, lb_fails,
  clears, leaves, DrainStep, looks, reads, hears, hands, drain_fails, unblocks, drain_ends,
  drain_closes, ClientStep, asks_next, gets_none, takes_next, pops_meta, finishes, stops,
  client_closes, client_ends, VideoStep, letterbox, draining, calling, worker, drops,
}
use rcdl.Video.Detector.{got-result, drained-history}

module _ (E : Stages) where
  -- The letterbox of this frame left this tensor, over what was in it before, and this geometry.
  abbrev pub Letterboxed : VideoFrame E → E.Tensor → E.Geometry → Type 0
  Letterboxed f t g = (t₀ : E.Tensor) × (E.letterbox f.source t₀ ≡ (t, ok g))

  -- The result of inference and decoding on the frame's own letterboxed pixels and geometry.
  abbrev pub Computed : VideoFrame E → Parked E → Type 0
  Computed f r = (t : E.Tensor) × (g : E.Geometry) × Letterboxed f t g × (r ≡ work E t g)

  -- A frame that is letterboxed and not committed is in its slot's tensor.
  abbrev pub InSlot : (ℕ → E.Tensor) → Letterboxer E → Type 0
  InSlot tensors (boxed i f g) = Letterboxed f (tensors i) g
  InSlot tensors (published i f g) = Letterboxed f (tensors i) g
  InSlot tensors _ = Unit

  pub record Answers (tensors : ℕ → E.Tensor) (expected : List (Parked E))
      (committed : List (VideoFrame E)) (lb : Letterboxer E) : Type 0 where
    pub each : Each Computed committed expected
    pub in_slot : InSlot tensors lb

  abbrev pub tensors_of : World E → ℕ → E.Tensor
  tensors_of d i = (d.impl.slots i).tensor

  abbrev pub AnswersOf : VideoWorld E → Type 0
  AnswersOf w = Answers (tensors_of w.detect) w.detect.expected w.committed_frames w.lb

  Quiet-Answers :
      {d d' : World E} {committed : List (VideoFrame E)} {lb : Letterboxer E}
      → Quiet E d d'
      → Answers (tensors_of d) d.expected committed lb
      → Answers (tensors_of d') d'.expected committed lb
  Quiet-Answers {d} {d'} {committed} {lb} q v = record {
    each = rw q.expected v.each;
    in_slot = subst (λ (t : ℕ → E.Tensor). InSlot t lb) (sym (fun_ext q.tensors)) v.in_slot;
  }

  module _ {tensors : ℕ → E.Tensor} {expected : List (Parked E)}
      {committed : List (VideoFrame E)} where
    -- The letterbox thread goes on with no frame in a slot.
    moves :
        {a b : Letterboxer E}
        → InSlot tensors b
        → Answers tensors expected committed a
        → Answers tensors expected committed b
    moves h v = record { each = v.each; in_slot = h }

  same :
      (d : World E) (p : Pipeline E)
      → ((i : ℕ) → (p.slots i).tensor ≡ (d.impl.slots i).tensor)
      → Quiet E d (record d { impl = p })
  same d p h = record { expected = refl; delivered = refl; tensors = h }

  after_admit-InSlot : (tensors : ℕ → E.Tensor) (b : Bool) → InSlot tensors (after_admit E b)
  after_admit-InSlot tensors true = tt
  after_admit-InSlot tensors false = tt

  after_claim-InSlot :
      (tensors : ℕ → E.Tensor) (i : ℕ) (b : Bool) → InSlot tensors (after_claim E i b)
  after_claim-InSlot tensors i true = tt
  after_claim-InSlot tensors i false = tt

  after_pop-InSlot :
      (tensors : ℕ → E.Tensor) (i : ℕ) (o : Option (VideoFrame E))
      → InSlot tensors (after_pop E i o)
  after_pop-InSlot tensors i none = tt
  after_pop-InSlot tensors i (some f) = tt

  after_letterbox-InSlot :
      (d : World E) (i : ℕ) (f : VideoFrame E) (what : Text)
      (r : Result (Error E.Message) E.Geometry)
      → (letterbox_into_slot E d.impl (pos i) f.source).1 ≡ r
      → InSlot
          (tensors_of (record d { impl = (letterbox_into_slot E d.impl (pos i) f.source).0 }))
          (after_letterbox E i f what r)
  after_letterbox-InSlot d i f what (ok g) h =
      ((d.impl.slots i).tensor, letterbox_into_slot-ok E d.impl i f.source h)
  after_letterbox-InSlot d i f what (err e) h = tt

  after_commit-Answers :
      (w : VideoWorld E) {i : ℕ} {f : VideoFrame E} {g : E.Geometry} (r : Pipeline E × Lease × Bool)
      → w.lb ≡ published i f g
      → ((j : ℕ) → (r.0.slots j).tensor ≡ (w.detect.impl.slots j).tensor)
      → AnswersOf w
      → AnswersOf (
          after_commit E
            (with_detect E w (committed E w.detect (w.detect.impl.slots i).tensor g r))
            f
            r.2)
  after_commit-Answers w {i} {f} {g} (p, l, true) h keeps v = record {
    each =
        Each-snoc Computed w.committed_frames w.detect.expected
          (
            (w.detect.impl.slots i).tensor,
            g,
            subst (InSlot (tensors_of w.detect)) h v.in_slot,
            refl,
          )
          v.each;
    in_slot = tt;
  }
  after_commit-Answers w (p, l, false) h keeps v = record { each = v.each; in_slot = tt }

  LetterboxStep-Answers : {w w' : VideoWorld E} → LetterboxStep E w w' → AnswersOf w → AnswersOf w'
  unfolding finish
  LetterboxStep-Answers (admits {b} h e) v = moves (after_admit-InSlot _ b) v
  LetterboxStep-Answers (takes h e) v = moves tt v
  LetterboxStep-Answers (take_throws what h e) v = moves tt v
  LetterboxStep-Answers {w = w} (claims {k} {i} h e) v =
      moves (after_claim-InSlot _ i _) (Quiet-Answers (claimed-Quiet E w.detect k i) v)
  LetterboxStep-Answers (pops {i = i} {o = o} h e) v = moves (after_pop-InSlot _ i o) v
  LetterboxStep-Answers {w = w} (gives_back {p = p} h e) v =
      moves tt (Quiet-Answers (same w.detect p (release_slot-Keeps E w.detect.impl _ e)) v)
  LetterboxStep-Answers (give_back_throws what h e) v = moves tt v
  LetterboxStep-Answers {w = w} (letterboxes what {i} {f} h) v = record {
    each = v.each;
    in_slot = after_letterbox-InSlot w.detect i f what _ refl;
  }
  LetterboxStep-Answers {w = w} (unwinds {p = p} h e) v =
      moves tt (Quiet-Answers (same w.detect p (release_slot-Keeps E w.detect.impl _ e)) v)
  LetterboxStep-Answers (unwind_throws what h e) v = moves tt v
  LetterboxStep-Answers {w = w} (publishes h) v =
      moves (subst (InSlot (tensors_of w.detect)) h v.in_slot) v
  LetterboxStep-Answers {w = w} (commits {i} {f} {g} {r = r} h e) v =
      after_commit-Answers w r h (commit_slot-Keeps E w.detect.impl _ g e) v
  LetterboxStep-Answers (commit_throws what h e) v = moves tt v
  LetterboxStep-Answers (retracts h) v = moves tt v
  LetterboxStep-Answers (lb_fails h) v = moves tt v
  LetterboxStep-Answers (clears h) v = moves tt v
  LetterboxStep-Answers (leaves h) v = moves tt v

  DrainStep-Answers : {w w' : VideoWorld E} → DrainStep E w w' → AnswersOf w → AnswersOf w'
  unfolding finish
  DrainStep-Answers (looks h) v = v
  DrainStep-Answers (reads h) v = v
  DrainStep-Answers (hears a h) v = v
  DrainStep-Answers (hands {r = (c, true)} h e) v = v
  DrainStep-Answers (hands {r = (c, false)} h e) v = v
  DrainStep-Answers (drain_fails h) v = v
  DrainStep-Answers (unblocks h) v = v
  DrainStep-Answers (drain_ends h) v = v
  DrainStep-Answers (drain_closes h) v = v

  after_next-Answers :
      (w : VideoWorld E) (r : Parked E) (o : Result E.Message E.Dets)
      → AnswersOf w
      → AnswersOf (after_next E w r o)
  after_next-Answers w r (ok dets) v = v
  after_next-Answers w r (err m) v = v

  pop-Keeps :
      (p : Pipeline E) (o : Option (Parked E)) (j : ℕ)
      → ((pop E p o).0.slots j).tensor ≡ (p.slots j).tensor
  pop-Keeps p none j = refl
  pop-Keeps p (some r) j = refl

  try_next-Keeps : (p : Pipeline E) (j : ℕ) → ((try_next E p).0.slots j).tensor ≡ (p.slots j).tensor
  unfolding try_next
  try_next-Keeps p j = pop-Keeps p (find p.next_out p.pending) j

  drained-tensors :
      (d : World E) (x : Pipeline E × Option (Parked E)) (j : ℕ)
      → (x.0.slots j).tensor ≡ (d.impl.slots j).tensor
      → tensors_of (drained E d x) j ≡ tensors_of d j
  drained-tensors d (p, none) j h = h
  drained-tensors d (p, some r) j h = h

  drains-Answers :
      (w : VideoWorld E) {r : Parked E}
      → (try_next E w.detect.impl).1 ≡ some r
      → AnswersOf w
      → AnswersOf (with_detect E w (drained E w.detect (try_next E w.detect.impl)))
  drains-Answers w h v =
      let x = try_next E w.detect.impl in
      record {
        each = rw (drained-history E w.detect x h).1 v.each;
        in_slot =
            subst (λ (t : ℕ → E.Tensor). InSlot t w.lb)
              (sym (
                fun_ext (λ (j : ℕ). drained-tensors w.detect x j (try_next-Keeps w.detect.impl j))))
              v.in_slot;
      }

  ClientStep-Answers : {w w' : VideoWorld E} → ClientStep E w w' → AnswersOf w → AnswersOf w'
  unfolding finish
  ClientStep-Answers {w = w} (takes_next {waits} {r = r} h got) v =
      after_next-Answers (with_detect E w _) r r.outcome
        (drains-Answers w (got-result E waits w.detect.impl got) v)
  ClientStep-Answers (asks_next waits h e) v = v
  ClientStep-Answers (gets_none h e) v = v
  ClientStep-Answers (pops_meta h) v = v
  ClientStep-Answers (finishes h) v = v
  ClientStep-Answers (stops h) v = v
  ClientStep-Answers (client_closes h) v = v
  ClientStep-Answers (client_ends h) v = v

  pub VideoStep-Answers :
      {n : ℕ} {w w' : VideoWorld E} → VideoStep E n w w' → AnswersOf w → AnswersOf w'
  VideoStep-Answers (letterbox st) v = LetterboxStep-Answers st v
  VideoStep-Answers (draining st) v = DrainStep-Answers st v
  VideoStep-Answers (calling st) v = ClientStep-Answers st v
  VideoStep-Answers (worker i lt st) v = Quiet-Answers (WorkerStep-Quiet E st) v
  VideoStep-Answers (drops k h) v = v
