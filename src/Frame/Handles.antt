-- ===== src/Frame/Handles.antt =====
-- media/video_frame.cc: the frames that a call adopts, gives back and leaves with an object.
use rcdl.Common.{
  ℕ, ◌+◌, ◌≡◌, refl, Bool, true, false, List, [], ◌∷◌, ◌++◌, Option, none, some, get_elem?, set,
  ◌==◌, if◌then◌else◌, Result, ok, err, arith, weigh, weigh-append, weigh-set,
}
use rcdl.Common.Family.{bit}
use rcdl.Image.View.{ImageView}
use rcdl.Frame.{
  Frame, no_frame, Event, adopted, dropped, Error, Platform, adopt_on, closing, dropping, reset,
  opened_on, open_window, read_mapped, mapping, read_on, begin_cpu_read, closed_on, end_cpu_read,
}
use rcdl.Frame.Program.{Program, made, changed}

abbrev pub adopts_it : ℕ → Event → ℕ
adopts_it h (adopted g) = bit (g == h)
adopts_it h _ = 0

abbrev pub drops_it : ℕ → Event → ℕ
drops_it h (dropped g) = bit (g == h)
drops_it h _ = 0

abbrev pub is_handle : ℕ → Option ℕ → ℕ
is_handle h none = 0
is_handle h (some g) = bit (g == h)

abbrev pub has_handle : ℕ → Frame → ℕ
has_handle h f = is_handle h f.handle

-- Each MppFrame was given back as often as it was adopted, but for those that an object holds.
pub record Returned (s : Program) : Type 0 where
  pub handles :
      (h : ℕ) → weigh (adopts_it h) s.log ≡ weigh (drops_it h) s.log + weigh (has_handle h) s.frames

pub reset-handles :
    (os : Platform) (n : ℕ) (f : Frame) (h : ℕ)
    → (weigh (adopts_it h) (reset os n f).0 ≡ 0)
      × (weigh (drops_it h) (reset os n f).0 ≡ has_handle h f)
unfolding reset
reset-handles os n f h = by_fields f.cpu_window (os.sync_end n f.view.fd) f.handle
  where
    by_fields :
        (w : Bool) (r : Result ℕ (Unit {0})) (d : Option ℕ)
        → (weigh (adopts_it h) ((if w then closing f.view.fd r else []) ++ dropping d) ≡ 0)
          × (weigh (drops_it h) ((if w then closing f.view.fd r else []) ++ dropping d)
              ≡ is_handle h d)
    by_fields true (ok u) none = (refl, refl)
    by_fields true (ok u) (some d) = (refl, omega arith)
    by_fields true (err e) none = (refl, refl)
    by_fields true (err e) (some d) = (refl, omega arith)
    by_fields false r none = (refl, refl)
    by_fields false r (some d) = (refl, omega arith)

pub reset_at-Returned :
    (os : Platform) (n : ℕ) (s : Program) (k : ℕ) (f : Frame)
    → Returned s
    → get_elem? s.frames k ≡ some f
    → Returned (record { frames = set s.frames k no_frame; log = s.log ++ (reset os n f).0 })
reset_at-Returned os n s k f c e = record {
  handles = λ h. omega (
    arith,
    c.handles h,
    reset-handles os n f h,
    weigh-append (adopts_it h) s.log (reset os n f).0,
    weigh-append (drops_it h) s.log (reset os n f).0,
    weigh-set (has_handle h) s.frames k f no_frame e,
  );
}

pub made-Returned :
    (s : Program) (d : Option ℕ) (view : ImageView) (pts_us index : ℕ)
    → Returned s
    → Returned (made s (adopt_on d view pts_us index))
made-Returned s none view pts_us index c = record {
  handles = λ h.
      omega (
        arith,
        c.handles h,
        weigh-append (adopts_it h) s.log [],
        weigh-append (drops_it h) s.log [],
      );
}
made-Returned s (some d) view pts_us index c =
    let f : Frame = record {
      handle = some d;
      view = view;
      pts_us = pts_us;
      index = index;
      cpu_window = false;
    } in
    record {
      handles = λ h. omega (
        arith,
        c.handles h,
        weigh-append (adopts_it h) s.log (adopted d ∷ []),
        weigh-append (drops_it h) s.log (adopted d ∷ []),
        weigh-append (has_handle h) s.frames (f ∷ []),
      );
    }

-- A call that leaves the handle where it is.
pub record Keeps (f : Frame) (r : List Event × Frame × Option Error) : Type 0 where
  pub silent : (h : ℕ) → (weigh (adopts_it h) r.0 ≡ 0) × (weigh (drops_it h) r.0 ≡ 0)
  pub kept : r.1.handle ≡ f.handle

pub changed-Returned :
    (s : Program) (k : ℕ) (f : Frame) (r : List Event × Frame × Option Error)
    → Returned s
    → get_elem? s.frames k ≡ some f
    → Keeps f r
    → Returned (changed s k r)
changed-Returned s k f (events, g, e) c at_k keeps = record {
  handles = λ h.
      let same : has_handle h g ≡ has_handle h f = rw keeps.kept refl in
      omega (
        arith,
        c.handles h,
        keeps.silent h,
        same,
        weigh-append (adopts_it h) s.log events,
        weigh-append (drops_it h) s.log events,
        weigh-set (has_handle h) s.frames k f g at_k,
      );
}

either :
    {f : Frame} (w : Bool) {x y : List Event × Frame × Option Error}
    → Keeps f x
    → Keeps f y
    → Keeps f (if w then x else y)
either true h k = h
either false h k = k

pub begin-Keeps : (os : Platform) (n : ℕ) (f : Frame) → Keeps f (begin_cpu_read os n f)
unfolding begin_cpu_read
begin-Keeps os n f = by_handle f.handle
  where
    by_sync :
        (g : Frame) → g.handle ≡ f.handle → (r : Result ℕ (Unit {0})) → Keeps f (opened_on g r)
    by_sync g e (ok u) = record { silent = λ h. (refl, refl); kept = e }
    by_sync g e (err x) = record { silent = λ h. (refl, refl); kept = e }

    by_window : (g : Frame) → g.handle ≡ f.handle → Keeps f (open_window os n g)
    by_window g e =
        either g.cpu_window (record { silent = λ h. (refl, refl); kept = e })
          (by_sync g e (os.sync_start n g.view.fd))

    by_map : (m : Option ℕ) → Keeps f (read_mapped os n f m)
    by_map none = record { silent = λ h. (refl, refl); kept = refl }
    by_map (some address) =
        by_window (record f { view = record f.view { data_at = some address } }) refl

    by_handle : (d : Option ℕ) → Keeps f (read_on os n f d)
    by_handle none = record { silent = λ h. (refl, refl); kept = refl }
    by_handle (some h) = by_map (mapping os n h f.view.data_at)

pub end-Keeps : (os : Platform) (n : ℕ) (f : Frame) → Keeps f (end_cpu_read os n f)
unfolding end_cpu_read
end-Keeps os n f =
    either f.cpu_window (by_sync (os.sync_end n f.view.fd))
      (record { silent = λ h. (refl, refl); kept = refl })
  where
    by_sync : (r : Result ℕ (Unit {0})) → Keeps f (closed_on f r)
    by_sync (ok u) = record { silent = λ h. (refl, refl); kept = refl }
    by_sync (err x) = record { silent = λ h. (refl, refl); kept = refl }
