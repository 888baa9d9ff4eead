-- ===== src/Frame.antt =====
-- media/video_frame.h, media/video_frame.cc: VideoFrame, in a build with MPP. What a function asks of
-- MPP and of the kernel is the list of events that it returns.
pub mod Program
pub mod Handles
pub mod Ownership
pub mod Examples
use rcdl.Common.{
  ℕ, Bool, true, false, List, [], ◌∷◌, ◌++◌, Option, none, some, if◌then◌else◌, Result, ok, err,
}
use rcdl.Common.Int.{pos}
use rcdl.Image.Formats.{unknown}
use rcdl.Image.View.{ImageView}

pub record Frame : Type 0 where
  pub handle : Option ℕ
  pub view : ImageView
  pub pts_us : ℕ
  pub index : ℕ
  pub cpu_window : Bool

abbrev pub no_view : ImageView
no_view = record {
  data_at = none;
  fd = none;
  width = pos 0;
  height = pos 0;
  wstride = pos 0;
  hstride = pos 0;
  format = unknown;
  size = 0;
  below4g = false;
}

-- What a frame is left with that was reset or moved from.
abbrev pub no_frame : Frame
no_frame = record { handle = none; view = no_view; pts_us = 0; index = 0; cpu_window = false }

pub data Event : Type 0 where
  adopted : ℕ → Event
  -- mpp_frame_deinit
  dropped : ℕ → Event
  -- A read window on the buffer with this descriptor.
  window_opened : Option ℕ → Event
  window_closed : Option ℕ → Event

pub data Error : Type 0 where
  null_frame empty_frame not_mapped : Error
  no_sync : ℕ → Error

-- dmaBufSyncStart and dmaBufSyncEnd for a read, and mpp::mapFrame; the first argument tells the calls
-- of one run apart.
pub record Platform : Type 0 where
  pub sync_start : ℕ → Option ℕ → Result ℕ (Unit {0})
  pub sync_end : ℕ → Option ℕ → Result ℕ (Unit {0})
  pub map_frame : ℕ → ℕ → Option ℕ

abbrev pub adopt_on : Option ℕ → ImageView → ℕ → ℕ → List Event × Result Error Frame
adopt_on none view pts_us index = ([], err null_frame)
adopt_on (some h) view pts_us index = (
  adopted h ∷ [],
  ok (record { handle = some h; view = view; pts_us = pts_us; index = index; cpu_window = false }),
)

unfoldable pub adopt : Option ℕ → ImageView → ℕ → ℕ → List Event × Result Error Frame
adopt mpp_frame view pts_us index = adopt_on mpp_frame view pts_us index

abbrev pub closing : Option ℕ → Result ℕ (Unit {0}) → List Event
closing fd (err e) = []
closing fd (ok done) = window_closed fd ∷ []

abbrev pub dropping : Option ℕ → List Event
dropping none = []
dropping (some h) = dropped h ∷ []

-- A failure to close the window is swallowed.
unfoldable pub reset : Platform → ℕ → Frame → List Event × Frame
reset os call f = (
  (if f.cpu_window then closing f.view.fd (os.sync_end call f.view.fd) else [])
      ++ dropping f.handle,
  no_frame,
)

-- VideoFrame(VideoFrame&&): the new frame, and what is left in the other.
unfoldable pub move_frame : Frame → Frame × Frame
move_frame other = (other, no_frame)

-- operator=(VideoFrame&&) between two objects.
unfoldable pub assign_frame : Platform → ℕ → Frame → Frame → List Event × Frame × Frame
assign_frame os call self other = ((reset os call self).0, other, no_frame)

-- The frame stays mapped when its window cannot be opened.
abbrev pub opened_on : Frame → Result ℕ (Unit {0}) → List Event × Frame × Option Error
opened_on f (err e) = ([], f, some (no_sync e))
opened_on f (ok done) = (window_opened f.view.fd ∷ [], record f { cpu_window = true }, none)

abbrev pub open_window : Platform → ℕ → Frame → List Event × Frame × Option Error
open_window os call f =
    if f.cpu_window then ([], f, none) else opened_on f (os.sync_start call f.view.fd)

abbrev pub read_mapped : Platform → ℕ → Frame → Option ℕ → List Event × Frame × Option Error
read_mapped os call f none = ([], f, some not_mapped)
read_mapped os call f (some address) =
    open_window os call (record f { view = record f.view { data_at = some address } })

abbrev pub mapping : Platform → ℕ → ℕ → Option ℕ → Option ℕ
mapping os call h (some address) = some address
mapping os call h none = os.map_frame call h

abbrev pub read_on : Platform → ℕ → Frame → Option ℕ → List Event × Frame × Option Error
read_on os call f none = ([], f, some empty_frame)
read_on os call f (some h) = read_mapped os call f (mapping os call h f.view.data_at)

-- The frame afterwards, and the reason if it throws; what it returns is `view.data_at`.
unfoldable pub begin_cpu_read : Platform → ℕ → Frame → List Event × Frame × Option Error
begin_cpu_read os call f = read_on os call f f.handle

abbrev pub closed_on : Frame → Result ℕ (Unit {0}) → List Event × Frame × Option Error
closed_on f (err e) = ([], f, some (no_sync e))
closed_on f (ok done) = (window_closed f.view.fd ∷ [], record f { cpu_window = false }, none)

unfoldable pub end_cpu_read : Platform → ℕ → Frame → List Event × Frame × Option Error
end_cpu_read os call f =
    if f.cpu_window then closed_on f (os.sync_end call f.view.fd) else ([], f, none)
