-- ===== src/Tracker/Examples.antt =====
-- A tracker from its first frame, and the parts of its update on small inputs.
use rcdl.Common.{
  ℕ, ◌+◌, ◌*◌, ◌≡◌, ◌≤◌, ◌⊎◌, ◌==◌, refl, Bool, true, false, List, [], ◌∷◌, Option, none, some,
  arith,
}
use rcdl.Common.Int.{pos}
use rcdl.Tracker.Numbers.{Number, ones, numbers}
use rcdl.Tracker.Matrix.{Mat}
use rcdl.Tracker.Solver.Gate.{linear_assignment, unused}
use rcdl.Tracker.Track.{STrack, candidate}
use rcdl.Tracker.Cost.{BoostConfig, Config, fuse_appearance, no_appearance}
use rcdl.Tracker.Boost.{Detection}
use rcdl.Tracker.Update.Tracker.{
  State, emitted, update, latch, track, confirmed, unconfirmed, select,
}
use rcdl.Tracker.Gates.{MayLook, fuse_appearance-lowers}
use rcdl.Tracker.Lists.Apart.{remove_duplicate_stracks-apart}
use rcdl.Tracker.Lists.{
  occurs, goes_left, goes_right, keep_left, keep_right, remove_duplicate_stracks, joint_stracks,
  join_unseen,
}
use rcdl.Tracker.Update.{still_tracked, spawn, spawn_all}
use rcdl.Tracker.Update.Frame.{
  associations, first_association, second_association, third_association, recheck, merge,
}
use rcdl.Tracker.Update.Unique.{Wellformed, returned}
use rcdl.Tracker.Update.Calls.{Call, frame, camera, step, run, run_unique}

abbrev plain_boost : BoostConfig numbers
plain_boost = record {
  rich_similarity = false;
  soft_biou = false;
  boost_detections = false;
  lambda_iou = ones 50;
  lambda_mhd = ones 25;
  lambda_shape = ones 25;
  min_iou = ones 30;
  dlo_alpha = ones 65;
  vt_start = ones 95;
  vt_end = ones 80;
  vt_steps = pos 20;
  duo = true;
  duo_iou = ones 30;
}

abbrev plain : Config numbers
plain = record {
  track_thresh = ones 50;
  high_thresh = ones 60;
  match_thresh = ones 80;
  track_buffer = pos 30;
  frame_rate = pos 30;
  proximity_thresh = ones 50;
  appearance_thresh = ones 25;
  ema_alpha = ones 95;
  boost = plain_boost;
}

abbrev seen : ℕ → ℕ → Detection numbers
seen x score = record {
  x1 = ones (100 * x);
  y1 = ones 0;
  x2 = ones (100 * (x + 5));
  y2 = ones 900;
  score = ones score;
  class_id = pos 0;
}

abbrev fresh : State numbers
fresh = record {
  heap = λ t. candidate numbers (ones 0) (ones 0) (ones 0) (ones 0) (ones 0) (pos 0) [];
  next = 1;
  tracked = [];
  lost = [];
  frame_id = 0;
  id_count = 0;
  embed_dim = 0;
}

fresh-Wellformed : Wellformed numbers fresh
fresh-Wellformed = record {
  not_null = omega arith;
  tracked_below = tt;
  lost_below = tt;
  unique = λ i. omega arith;
}

-- Two strong detections and two weak ones.
abbrev history : List (Call numbers)
history = frame (seen 0 90 ∷ seen 2 40 ∷ seen 20 70 ∷ seen 30 55 ∷ []) [] ∷ camera none ∷ []

abbrev or_fresh : Option (State numbers) → State numbers
or_fresh none = fresh
or_fresh (some s) = s

abbrev later : State numbers
later = or_fresh (run numbers plain history (some fresh))

abbrev is_some : Option (State numbers) → Bool
is_some none = false
is_some (some s) = true

or_fresh-some : (o : Option (State numbers)) → is_some o ≡ true → o ≡ some (or_fresh o)
or_fresh-some none h = cc
or_fresh-some (some s) h = refl

ends : is_some (run numbers plain history (some fresh)) ≡ true
unfolding run step update latch track associations first_association linear_assignment joint_stracks
    confirmed join_unseen second_association still_tracked recheck unused third_association
    unconfirmed select spawn_all spawn merge
ends = refl

ran : run numbers plain history (some fresh) ≡ some later
ran = or_fresh-some (run numbers plain history (some fresh)) ends

run_unique_example :
    Wellformed numbers later
    × ((i : ℕ) → returned numbers i (emitted numbers later.heap later.tracked) ≤ 1)
run_unique_example = run_unique numbers plain history fresh later fresh-Wellformed ran

abbrev near : ℕ → ℕ → Bool
near p q = p + 9 == q

abbrev parted : List ℕ × List ℕ
parted = remove_duplicate_stracks near (λ p. pos p) (2 ∷ 3 ∷ []) (12 ∷ 13 ∷ [])

parted_lists : parted ≡ (2 ∷ [], 12 ∷ 13 ∷ [])
unfolding remove_duplicate_stracks keep_left keep_right goes_left goes_right
parted_lists = refl

stays_left : occurs 2 parted.0 ≡ true
unfolding occurs remove_duplicate_stracks keep_left goes_left
stays_left = refl

stays_right : occurs 13 parted.1 ≡ true
unfolding occurs remove_duplicate_stracks keep_right goes_right
stays_right = refl

remove_duplicate_stracks-apart_example : near 2 13 ≡ false
remove_duplicate_stracks-apart_example =
    remove_duplicate_stracks-apart near (λ p. pos p) (2 ∷ 3 ∷ []) (12 ∷ 13 ∷ []) 2 13 stays_left
      stays_right

abbrev looks : List Number → ℕ → STrack numbers
looks feature i = record (fresh.heap i) { curr_feat = feature; smooth_feat = feature }

abbrev far : Mat numbers
far i j = ones 40

abbrev fused : Mat numbers
fused = fuse_appearance numbers plain far far (looks (ones 100 ∷ [])) (looks (ones 80 ∷ []))

lowered : fused 0 0 ≡ ones 10
unfolding fuse_appearance no_appearance candidate
lowered = refl

fuse_appearance-lowers_example :
    (fused 0 0 ≡ far 0 0)
    ⊎ ((numbers.lt (fused 0 0) (far 0 0) ≡ true)
        × MayLook numbers plain far (looks (ones 100 ∷ [])) (looks (ones 80 ∷ [])) 0 0)
fuse_appearance-lowers_example =
    fuse_appearance-lowers numbers plain far far (looks (ones 100 ∷ [])) (looks (ones 80 ∷ [])) 0 0
