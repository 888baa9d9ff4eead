-- ===== src/Video/Metas.antt =====
-- pipeline/async_video_detection_pipeline.cc: the metadata queue, "pushed in commit order, popped in
-- delivery order".
pub mod Steps
use rcdl.Common.{
  ℕ, ◌≡◌, ◌<◌, ◌≤◌, ◌+◌, refl, sym, subst, ap, ◌∙◌, Bool, true, false, List, [], ◌∷◌, ◌++◌, map,
  length, length-append, Option, none, some, Result, ok, err, arith, suc, if-both,
}
use mathlib.Core.List.{append-nil, append_assoc}
use rcdl.Common.Pairwise.{length-map, map-snoc}
use rcdl.Async.Interface.{Stages}
use rcdl.Async.Impl.{Pipeline, Parked, Error}
use rcdl.Video.Channel.{Channel}
use rcdl.Video.Impl.{
  Text, FrameMeta, VideoFrame, VideoPipeline, meta_of, publish, pop_back, retract, take_front,
  pop_meta, finish_input, stop, record_failure,
}
use rcdl.Video.State.{
  Letterboxer, acquiring, admitted, claiming, taking, returning, framed, unwinding, boxed,
  published, retracting, broken, clearing, leaving, left, Caller, idle, calling_next, owing,
  stopping, joining, Shown, VideoWorld, with_detect, after_admit, after_claim, after_pop,
  after_letterbox, after_commit, after_push, after_next,
}
use rcdl.Video.World.{
  LetterboxStep, admits, takes, take_throws, claims, pops, gives_back, give_back_throws,
  letterboxes, unwinds, unwind_throws, publishes, commits, commit_throws, retracts, lb_fails,
  clears, leaves, DrainStep, looks, reads, hears, hands, drain_fails, unblocks, drain_ends,
  drain_closes, ClientStep, asks_next, gets_none, takes_next, pops_meta, finishes, stops,
  client_closes, client_ends, VideoStep, letterbox, draining, calling, worker, drops,
}

cons-injective {ℓ} : {A : Type ℓ} {x y : A} {xs ys : List A} → x ∷ xs ≡ y ∷ ys → (x ≡ y) × (xs ≡ ys)
cons-injective h = (cc, cc)

-- A deque whose last entry was not taken loses it to pop_back, and nothing else.
pop_back-snoc :
    (taken metas committed : List FrameMeta) (m : FrameMeta)
    → committed ++ m ∷ [] ≡ taken ++ metas
    → length taken ≤ length committed
    → committed ≡ taken ++ pop_back metas
pop_back-snoc [] [] [] m h few = refl
pop_back-snoc [] metas committed m h few = sym (ap pop_back (sym h) ∙ pop_back-last committed m)
  where
    pop_back-last : (xs : List FrameMeta) (x : FrameMeta) → pop_back (xs ++ x ∷ []) ≡ xs
    pop_back-last [] x = refl
    pop_back-last (y ∷ []) x = refl
    pop_back-last (y ∷ z ∷ xs) x = ap (λ (ys : List FrameMeta). y ∷ ys) (pop_back-last (z ∷ xs) x)
pop_back-snoc (t ∷ taken) metas [] m h few = absurd (omega (arith, few))
pop_back-snoc (t ∷ taken) metas (c ∷ committed) m h few =
    let (same, rest) = cons-injective h in
    rw same (
      ap (λ (ys : List FrameMeta). t ∷ ys)
        (pop_back-snoc taken metas committed m rest (omega (arith, few))))

module _ (E : Stages) where
  -- What is published and not committed.
  abbrev pub Announced : Letterboxer E → List FrameMeta → Type 0
  Announced (published i f g) a = a ≡ meta_of E f ∷ []
  Announced retracting a = (m : FrameMeta) × (a ≡ m ∷ [])
  Announced (broken what) a = Unit
  Announced clearing a = Unit
  Announced leaving a = Unit
  Announced left a = Unit
  Announced _ a = a ≡ []

  pub record Metas (committed : List (VideoFrame E)) (announced : List FrameMeta)
      (lb : Letterboxer E) (shown : List (Shown E)) (metas : List FrameMeta) : Type 0 where
    pub queue :
        map (meta_of E) committed ++ announced ≡ map (λ (s : Shown E). s.meta) shown ++ metas
    pub due : Announced lb announced

  abbrev pub MetasOf : VideoWorld E → Type 0
  MetasOf w = Metas w.committed_frames w.announced w.lb w.shown w.impl.meta

  abbrev pub owed : Caller E → ℕ
  owed (owing r) = 1
  owed idle = 0
  owed (calling_next waits) = 0
  owed stopping = 0
  owed joining = 0

  due_at :
      {a b : Letterboxer E} (announced : List FrameMeta)
      → a ≡ b
      → Announced a announced
      → Announced b announced
  due_at announced h = subst (λ (x : Letterboxer E). Announced x announced) h

  module _ {committed : List (VideoFrame E)} {announced : List FrameMeta} {shown : List (Shown E)}
      {metas : List FrameMeta} where
    -- The letterbox thread goes on, and the queue stays.
    pub moves :
        {a a' b : Letterboxer E}
        → a ≡ a'
        → (Announced a' announced → Announced b announced)
        → Metas committed announced a shown metas
        → Metas committed announced b shown metas
    moves h goes v = record { queue = v.queue; due = goes (due_at announced h v.due) }

    pub publishes-Metas :
        {a : Letterboxer E} {i : ℕ} {f : VideoFrame E} {g : E.Geometry}
        → a ≡ boxed i f g
        → Metas committed announced a shown metas
        → Metas committed (meta_of E f ∷ []) (published i f g) shown (metas ++ meta_of E f ∷ [])
    publishes-Metas {f = f} h v = record {
      queue =
          ap (λ (l : List FrameMeta). l ++ meta_of E f ∷ [])
            (sym (append-nil _)
              ∙ ap (λ (l : List FrameMeta). map (meta_of E) committed ++ l)
                  (sym (due_at announced h v.due))
              ∙ v.queue)
          ∙ append_assoc _ metas (meta_of E f ∷ []);
      due = refl;
    }

    pub commits-Metas :
        {a : Letterboxer E} {i : ℕ} {f : VideoFrame E} {g : E.Geometry}
        → a ≡ published i f g
        → Metas committed announced a shown metas
        → Metas (committed ++ f ∷ []) [] acquiring shown metas
    commits-Metas {f = f} h v = record {
      queue =
          append-nil _
          ∙ map-snoc (meta_of E) committed f
          ∙ ap (λ (l : List FrameMeta). map (meta_of E) committed ++ l)
              (sym (due_at announced h v.due))
          ∙ v.queue;
      due = refl;
    }

    pub retracts-Metas :
        {a : Letterboxer E}
        → a ≡ retracting
        → length shown ≤ length committed
        → Metas committed announced a shown metas
        → Metas committed [] leaving shown (pop_back metas)
    retracts-Metas h few v =
        let (m, e) = due_at announced h v.due in
        record {
          queue =
              append-nil _
              ∙ pop_back-snoc _ metas _ m
                  (ap (λ (l : List FrameMeta). map (meta_of E) committed ++ l) (sym e) ∙ v.queue)
                  (omega (
                    arith,
                    few,
                    length-map (meta_of E) committed,
                    length-map (λ (s : Shown E). s.meta) shown,
                  ));
          due = tt;
        }

  pub pops-Metas :
      {committed : List (VideoFrame E)} {announced : List FrameMeta} {lb : Letterboxer E}
      {shown : List (Shown E)} (p : VideoPipeline E) (metas : List FrameMeta) (r : Parked E)
      (thrown : ℕ)
      → length shown < length committed
      → Metas committed announced lb shown metas
      → Metas committed announced lb
          (shown
            ++ record { result = r; meta = (take_front E p metas).last_meta; thrown = thrown } ∷ [])
          (take_front E p metas).meta
  pops-Metas {committed} {announced} {lb} {shown} p (m ∷ rest) r thrown few v = record {
    queue =
        v.queue
        ∙ sym (append_assoc (map (λ (s : Shown E). s.meta) shown) (m ∷ []) rest)
        ∙ ap (λ (l : List FrameMeta). l ++ rest)
            (sym (
              map-snoc (λ (s : Shown E). s.meta) shown
                (record { result = r; meta = m; thrown = thrown })));
    due = v.due;
  }
  pops-Metas {committed} {announced} {lb} {shown} p [] r thrown few v = absurd (
      omega (
        arith,
        few,
        ap length v.queue,
        length-append (map (meta_of E) committed) announced,
        length-append (map (λ (s : Shown E). s.meta) shown) [],
        length-map (meta_of E) committed,
        length-map (λ (s : Shown E). s.meta) shown,
      ))
