-- ===== src/Frame/Examples.antt =====
-- VideoFrame on a platform whose first window cannot be closed.
use rcdl.Common.{refl, List, [], ◌∷◌, none, some, ltb, if◌then◌else◌, ok, err}
use rcdl.Frame.{Platform, no_view}
use rcdl.Frame.Program.{Program, Call, adopts, moves, assigns, begins, ends, resets, run}
use rcdl.Frame.Handles.{Returned}
use rcdl.Frame.Ownership.{run-Returned}

abbrev flaky : Platform
flaky = record {
  sync_start = λ call fd. ok tt;
  sync_end = λ call fd. if ltb call 4 then err 9 else ok tt;
  map_frame = λ call h. some h;
}

abbrev no_frames : Program
no_frames = record { frames = []; log = [] }

no_frames-Returned : Returned no_frames
no_frames-Returned = record { handles = λ h. refl }

abbrev history : List Call
history =
    adopts (some 70) no_view 0 0
    ∷ adopts none no_view 0 1
    ∷ begins 0
    ∷ ends 0
    ∷ adopts (some 71) no_view 40 1
    ∷ moves 0
    ∷ assigns 2 1
    ∷ resets 2
    ∷ []

run-Returned_example : Returned (run flaky 0 no_frames history)
run-Returned_example = run-Returned flaky 0 no_frames history no_frames-Returned
