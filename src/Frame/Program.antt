-- ===== src/Frame/Program.antt =====
-- media/video_frame.cc: a program that uses VideoFrame, as the objects that it has made, oldest
-- first, and what it has asked of MPP and of the kernel.
use rcdl.Common.{
  ℕ, suc, List, [], ◌∷◌, ◌++◌, Option, none, some, get_elem?, set, ◌==◌, if◌then◌else◌, Result, ok,
  err,
}
use rcdl.Image.View.{ImageView}
use rcdl.Frame.{
  Frame, Event, Error, Platform, adopt, reset, move_frame, assign_frame, begin_cpu_read,
  end_cpu_read,
}

pub record Program : Type 0 where
  pub frames : List Frame
  pub log : List Event

pub data Call : Type 0 where
  adopts : Option ℕ → ImageView → ℕ → ℕ → Call
  moves : ℕ → Call
  assigns : ℕ → ℕ → Call
  begins : ℕ → Call
  ends : ℕ → Call
  resets : ℕ → Call

abbrev pub made : Program → List Event × Result Error Frame → Program
made s (events, err e) = record s { log = s.log ++ events }
made s (events, ok f) = record { frames = s.frames ++ f ∷ []; log = s.log ++ events }

abbrev pub changed : Program → ℕ → List Event × Frame × Option Error → Program
changed s k (events, f, e) = record { frames = set s.frames k f; log = s.log ++ events }

abbrev pub on_frame : Program → Option Frame → (Frame → Program) → Program
on_frame s none g = s
on_frame s (some f) g = g f

-- `reset()` of an object, or its destructor.
abbrev pub reset_at : Platform → ℕ → Program → ℕ → Frame → Program
reset_at os n s k f = record {
  frames = set s.frames k (reset os n f).1;
  log = s.log ++ (reset os n f).0;
}

abbrev pub move_from : Program → ℕ → Frame → Program
move_from s k f = record s { frames = set s.frames k (move_frame f).1 ++ (move_frame f).0 ∷ [] }

-- Assigning an object to itself does nothing.
abbrev pub assign_to : Platform → ℕ → Program → ℕ → Frame → ℕ → Frame → Program
assign_to os n s j self k other =
    if j == k
    then s
    else let (events, self', other') = assign_frame os n self other in
      record { frames = set (set s.frames j self') k other'; log = s.log ++ events }

unfoldable pub step : Platform → ℕ → Program → Call → Program
step os n s (adopts h view pts_us index) = made s (adopt h view pts_us index)
step os n s (moves k) = on_frame s (get_elem? s.frames k) (move_from s k)
step os n s (assigns j k) =
    on_frame s (get_elem? s.frames j)
      (λ self. on_frame s (get_elem? s.frames k) (λ other. assign_to os n s j self k other))
step os n s (begins k) =
    on_frame s (get_elem? s.frames k) (λ f. changed s k (begin_cpu_read os n f))
step os n s (ends k) = on_frame s (get_elem? s.frames k) (λ f. changed s k (end_cpu_read os n f))
step os n s (resets k) = on_frame s (get_elem? s.frames k) (reset_at os n s k)

unfoldable pub run : Platform → ℕ → Program → List Call → Program
run os n s [] = s
run os n s (c ∷ cs) = run os (suc n) (step os n s c) cs
