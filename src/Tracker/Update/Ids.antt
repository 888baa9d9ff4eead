-- ===== src/Tracker/Update/Ids.antt =====
-- tracks/byte_tracker.cc: a frame gives new ids to its detections only, and its lists hold objects
-- that exist.
use rcdl.Common.{
  ℕ, zero, suc, ◌+◌, ◌≤◌, ◌<◌, ◌≡◌, ◌≢◌, refl, not, List, [], ◌∷◌, length, ◌==◌, ==_iff, ap, ◌∙◌,
  if-split, if-both, arith,
}
use rcdl.Common.Int.{ℤ, sub_ℕ, ltb_ℤ}
use rcdl.Tracker.Scalars.{Scalars}
use rcdl.Tracker.Track.{STrack, is_tracked, is_lost, update_features, is_empty}
use rcdl.Tracker.Life as Life
use rcdl.Tracker.Cost.{Config}
use rcdl.Tracker.Lists.Ids.{All, All-append}
use rcdl.Tracker.Update.{
  nth, ema_alpha, Heap, Work, on_heap, predict_all, associate, associate_all, lose, lose_all,
  confirm, confirm_all, discard, discard_all, spawn, spawn_all, expire, expire_all,
}

pub nth-All : (P : ℕ → Type 0) (xs : List ℕ) (i : ℕ) → P 0 → All P xs → P (nth xs i)
unfolding nth
nth-All P [] i z h = z
nth-All P (x ∷ xs) zero z h = h.0
nth-All P (x ∷ xs) (suc i) z h = nth-All P xs i z h.1

pub nth-inside : (P : ℕ → Type 0) (xs : List ℕ) (i : ℕ) → i < length xs → All P xs → P (nth xs i)
unfolding nth
nth-inside P [] i lt h = elim lt [ ]
nth-inside P (x ∷ xs) zero lt h = h.0
nth-inside P (x ∷ xs) (suc i) lt h = nth-inside P xs i (omega (arith, lt)) h.1

module _ (S : Scalars) where
  update_features-id :
      (feat : List S.F) (alpha : S.F) (t : STrack S)
      → (update_features S feat alpha t).track_id ≡ t.track_id
  unfolding update_features
  update_features-id feat alpha t =
      if-both (λ (u : STrack S). u.track_id ≡ t.track_id) (is_empty S feat) refl
        (if-both (λ (u : STrack S). u.track_id ≡ t.track_id)
          (not (length t.smooth_feat == length feat)) refl refl)

  update-id :
      (d : STrack S) (f : ℕ) (alpha : S.F) (t : STrack S)
      → (Life.update S d f alpha t).track_id ≡ t.track_id
  unfolding Life.update
  update-id d f alpha t = update_features-id _ alpha _

  re_activate-id :
      (d : STrack S) (f : ℕ) (alpha : S.F) (t : STrack S)
      → (Life.re_activate S d f alpha t).track_id ≡ t.track_id
  unfolding Life.re_activate
  re_activate-id d f alpha t = update_features-id _ alpha _

  mark_lost-id : (u : STrack S) → (Life.mark_lost S u).track_id ≡ u.track_id
  unfolding Life.mark_lost
  mark_lost-id u = refl

  mark_removed-id : (u : STrack S) → (Life.mark_removed S u).track_id ≡ u.track_id
  unfolding Life.mark_removed
  mark_removed-id u = refl

  predict-id : (u : STrack S) → (Life.predict S u).track_id ≡ u.track_id
  unfolding Life.predict
  predict-id u = refl

  pub on_heap-id :
      (change : STrack S → STrack S) (t : ℕ) (heap : Heap S) (k : ℕ)
      → ((u : STrack S) → (change u).track_id ≡ u.track_id)
      → (on_heap S change t heap k).track_id ≡ (heap k).track_id
  on_heap-id change t heap k keep =
      if-split (λ (u : STrack S). u.track_id ≡ (heap k).track_id) (t == k)
        (λ e. keep (heap t) ∙ ap (λ l. (heap l).track_id) ((==_iff t k).0 e)) (λ n. refl)

  pub predict_all-ids :
      (ts : List ℕ) (heap : Heap S) (k : ℕ) → (predict_all S ts heap k).track_id ≡ (heap k).track_id
  unfolding predict_all
  predict_all-ids [] heap k = refl
  predict_all-ids (t ∷ ts) heap k =
      predict_all-ids ts _ k ∙ on_heap-id (Life.predict S) t heap k predict-id

  other-cell :
      (change : STrack S → STrack S) (d k : ℕ) (heap : Heap S)
      → d ≢ k
      → on_heap S change d heap k ≡ heap k
  other-cell change d k heap ne = ground (arith, ne)

  -- The work of a frame: `next` is where its detections begin, and `top` where they end.
  pub record Fine (next top : ℕ) (heap : Heap S) (w : Work S) : Type 0 where
    pub ids : (k : ℕ) → k < next → (w.heap k).track_id ≡ (heap k).track_id
    pub activated : All (λ t. t < top) w.activated
    pub refind : All (λ t. t < top) w.refind
    pub lost_now : All (λ t. t < top) w.lost_now

  module _ (next top : ℕ) (heap : Heap S) (some_object : 0 < top) where
    associate-Fine :
        (cfg : Config S) (f t d : ℕ) (w : Work S)
        → t < top
        → Fine next top heap w
        → Fine next top heap (associate S cfg f t d w)
    unfolding associate
    associate-Fine cfg f t d w lt h =
        if-both (Fine next top heap) (is_tracked (w.heap t).state)
          (record {
            ids = λ k below.
                on_heap-id (Life.update S (w.heap d) f (ema_alpha S cfg (w.heap d).score)) t w.heap
                  k (update-id (w.heap d) f _)
                ∙ h.ids k below;
            activated = All-append _ w.activated _ h.activated (lt, tt);
            refind = h.refind;
            lost_now = h.lost_now;
          })
          (record {
            ids = λ k below.
                on_heap-id (Life.re_activate S (w.heap d) f (ema_alpha S cfg (w.heap d).score)) t
                  w.heap k (re_activate-id (w.heap d) f _)
                ∙ h.ids k below;
            activated = h.activated;
            refind = All-append _ w.refind _ h.refind (lt, tt);
            lost_now = h.lost_now;
          })

    pub associate_all-Fine :
        (cfg : Config S) (f : ℕ) (tracks dets : List ℕ) (ms : List (ℕ × ℕ)) (w : Work S)
        → All (λ t. t < top) tracks
        → Fine next top heap w
        → Fine next top heap (associate_all S cfg f tracks dets ms w)
    unfolding associate_all
    associate_all-Fine cfg f tracks dets [] w lt h = h
    associate_all-Fine cfg f tracks dets ((i, j) ∷ ms) w lt h =
        associate_all-Fine cfg f tracks dets ms _ lt (
          associate-Fine cfg f (nth tracks i) (nth dets j) w
            (nth-All (λ t. t < top) tracks i some_object lt) h)

    lose-Fine :
        (t : ℕ) (w : Work S) → t < top → Fine next top heap w → Fine next top heap (lose S t w)
    unfolding lose
    lose-Fine t w lt h = if-both (Fine next top heap) (is_lost (w.heap t).state) h (record {
      ids = λ k below. on_heap-id (Life.mark_lost S) t w.heap k mark_lost-id ∙ h.ids k below;
      activated = h.activated;
      refind = h.refind;
      lost_now = All-append _ w.lost_now _ h.lost_now (lt, tt);
    })

    pub lose_all-Fine :
        (tracks is : List ℕ) (w : Work S)
        → All (λ t. t < top) tracks
        → Fine next top heap w
        → Fine next top heap (lose_all S tracks is w)
    unfolding lose_all
    lose_all-Fine tracks [] w lt h = h
    lose_all-Fine tracks (i ∷ is) w lt h =
        lose_all-Fine tracks is _ lt
          (lose-Fine (nth tracks i) w (nth-All (λ t. t < top) tracks i some_object lt) h)

    pub confirm_all-Fine :
        (cfg : Config S) (f : ℕ) (tracks dets : List ℕ) (ms : List (ℕ × ℕ)) (w : Work S)
        → All (λ t. t < top) tracks
        → Fine next top heap w
        → Fine next top heap (confirm_all S cfg f tracks dets ms w)
    unfolding confirm_all confirm
    confirm_all-Fine cfg f tracks dets [] w lt h = h
    confirm_all-Fine cfg f tracks dets ((i, j) ∷ ms) w lt h =
        confirm_all-Fine cfg f tracks dets ms _ lt (record {
          ids = λ k below.
              on_heap-id
                (Life.update S (w.heap (nth dets j)) f
                  (ema_alpha S cfg (w.heap (nth dets j)).score))
                (nth tracks i) w.heap k (update-id (w.heap (nth dets j)) f _)
              ∙ h.ids k below;
          activated =
              All-append _ w.activated _ h.activated
                (nth-All (λ t. t < top) tracks i some_object lt, tt);
          refind = h.refind;
          lost_now = h.lost_now;
        })

    discard-Fine : (t : ℕ) (w : Work S) → Fine next top heap w → Fine next top heap (discard S t w)
    unfolding discard
    discard-Fine t w h = record {
      ids = λ k below. on_heap-id (Life.mark_removed S) t w.heap k mark_removed-id ∙ h.ids k below;
      activated = h.activated;
      refind = h.refind;
      lost_now = h.lost_now;
    }

    pub discard_all-Fine :
        (tracks is : List ℕ) (w : Work S)
        → Fine next top heap w
        → Fine next top heap (discard_all S tracks is w)
    unfolding discard_all
    discard_all-Fine tracks [] w h = h
    discard_all-Fine tracks (i ∷ is) w h =
        discard_all-Fine tracks is _ (discard-Fine (nth tracks i) w h)

    pub expire_all-Fine :
        (most : ℤ) (f : ℕ) (ts : List ℕ) (w : Work S)
        → Fine next top heap w
        → Fine next top heap (expire_all S most f ts w)
    unfolding expire_all expire
    expire_all-Fine most f [] w h = h
    expire_all-Fine most f (t ∷ ts) w h = expire_all-Fine most f ts _ (
        if-both (Fine next top heap) (ltb_ℤ most (sub_ℕ f (w.heap t).frame_id)) (discard-Fine t w h)
          h)

    spawn-Fine :
        (cfg : Config S) (f d : ℕ) (w : Work S)
        → next ≤ d
        → d < top
        → Fine next top heap w
        → Fine next top heap (spawn S cfg f d w)
    unfolding spawn
    spawn-Fine cfg f d w old lt h =
        if-both (Fine next top heap) (S.lt (w.heap d).score cfg.high_thresh) h (record {
          ids = λ k below.
              ap (λ (u : STrack S). u.track_id)
                (other-cell (Life.activate S f (w.id_count + 1)) d k w.heap
                  (omega (arith, old, below)))
              ∙ h.ids k below;
          activated = All-append _ w.activated _ h.activated (lt, tt);
          refind = h.refind;
          lost_now = h.lost_now;
        })

    pub spawn_all-Fine :
        (cfg : Config S) (f : ℕ) (dets js : List ℕ) (w : Work S)
        → All (λ t. (next ≤ t) × (t < top)) dets
        → All (λ j. j < length dets) js
        → Fine next top heap w
        → Fine next top heap (spawn_all S cfg f dets js w)
    unfolding spawn_all
    spawn_all-Fine cfg f dets [] w new inside h = h
    spawn_all-Fine cfg f dets (j ∷ js) w new inside h =
        let d = nth-inside (λ t. (next ≤ t) × (t < top)) dets j inside.0 new in
        spawn_all-Fine cfg f dets js _ new inside.1 (spawn-Fine cfg f (nth dets j) w d.0 d.1 h)
