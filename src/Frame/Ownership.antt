-- ===== src/Frame/Ownership.antt =====
-- media/video_frame.cc: "the buffer goes back to the group it came from": each MppFrame goes back
-- once.
use rcdl.Common.{
  ℕ, suc, ◌≡◌, ◌≢◌, refl, ◌∙◌, inl, inr, List, [], ◌∷◌, Option, none, some, get_elem?,
  get_elem?-set_ne, set, ◌==◌, ==_false, Bool-cases, arith, weigh-append, weigh-set,
}
use rcdl.Frame.{
  Frame, no_frame, Platform, adopt, reset, move_frame, assign_frame, begin_cpu_read, end_cpu_read,
}
use rcdl.Frame.Program.{
  Program, Call, adopts, moves, assigns, begins, ends, resets, on_frame, move_from, assign_to, step,
  run,
}
use rcdl.Frame.Handles.{
  has_handle, Returned, reset_at-Returned, made-Returned, changed-Returned, begin-Keeps, end-Keeps,
}

move_from-Returned :
    (s : Program) (k : ℕ) (f : Frame)
    → Returned s
    → get_elem? s.frames k ≡ some f
    → Returned (move_from s k f)
unfolding move_frame
move_from-Returned s k f c e = record {
  handles = λ h. omega (
    arith,
    c.handles h,
    weigh-set (has_handle h) s.frames k f no_frame e,
    weigh-append (has_handle h) (set s.frames k no_frame) (f ∷ []),
  );
}

assign_to-Returned :
    (os : Platform) (n : ℕ) (s : Program) (j k : ℕ) (self other : Frame)
    → Returned s
    → get_elem? s.frames j ≡ some self
    → get_elem? s.frames k ≡ some other
    → Returned (assign_to os n s j self k other)
unfolding assign_frame
assign_to-Returned os n s j k self other c hj hk = elim (Bool-cases (j == k)) [
  | inl same ↦ rw same c
  | inr apart ↦
      let ne : j ≢ k = ==_false j k apart in
      let freed : Returned _ = reset_at-Returned os n s j self c hj in
      let there : get_elem? (set s.frames j other) k ≡ some other =
        get_elem?-set_ne s.frames other ne ∙ hk in
      rw apart (record {
        handles = λ h. omega (
          arith,
          freed.handles h,
          weigh-set (has_handle h) s.frames j self no_frame hj,
          weigh-set (has_handle h) s.frames j self other hj,
          weigh-set (has_handle h) (set s.frames j other) k other no_frame there,
        );
      })
]

on_frame-Returned :
    (s : Program) (m : Option Frame) (g : Frame → Program)
    → Returned s
    → ((f : Frame) → m ≡ some f → Returned (g f))
    → Returned (on_frame s m g)
on_frame-Returned s none g c h = c
on_frame-Returned s (some f) g c h = h f refl

step-Returned :
    (os : Platform) (n : ℕ) (s : Program) (call : Call) → Returned s → Returned (step os n s call)
unfolding step reset adopt
step-Returned os n s (adopts d view pts_us index) c = made-Returned s d view pts_us index c
step-Returned os n s (moves k) c =
    on_frame-Returned s (get_elem? s.frames k) _ c (λ f h. move_from-Returned s k f c h)
step-Returned os n s (assigns j k) c = on_frame-Returned s (get_elem? s.frames j) _ c λ self hj.
    on_frame-Returned s (get_elem? s.frames k) _ c
      λ other hk. assign_to-Returned os n s j k self other c hj hk
step-Returned os n s (begins k) c =
    on_frame-Returned s (get_elem? s.frames k) _ c
      λ f h. changed-Returned s k f (begin_cpu_read os n f) c h (begin-Keeps os n f)
step-Returned os n s (ends k) c =
    on_frame-Returned s (get_elem? s.frames k) _ c
      λ f h. changed-Returned s k f (end_cpu_read os n f) c h (end-Keeps os n f)
step-Returned os n s (resets k) c =
    on_frame-Returned s (get_elem? s.frames k) _ c (λ f h. reset_at-Returned os n s k f c h)

-- From a program in which it is so, whatever calls the program makes, whichever of them fail: each
-- MppFrame was given back as often as it was adopted, but for those that an object still holds.
pub run-Returned :
    (os : Platform) (n : ℕ) (s : Program) (cs : List Call) → Returned s → Returned (run os n s cs)
unfolding run
run-Returned os n s [] c = c
run-Returned os n s (call ∷ cs) c =
    run-Returned os (suc n) (step os n s call) cs (step-Returned os n s call c)
