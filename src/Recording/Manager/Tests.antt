-- ===== src/Recording/Manager/Tests.antt =====
-- A clip whose folder cannot be created, and the theorems on the mark of an export.
use yummi_lcu.Common.{◌≡◌, refl, true, false, not, [], ◌∷◌, none, some, arith, ok, err}
use yummi_lcu.Recording.Rolling.{RollingCapture, reserve_export, reserve_segments, select_segments}
use yummi_lcu.Recording.Manager.{
  RecordingManager, World, exporting, new_manager, begin_clip, save_last_clip, stop_clip_buffer,
  cleanup_finished, cleanup_general, cleanup_rolling, cleanup_live,
}
use yummi_lcu.Recording.Manager.Clips.{
  buffers, saves, run, run_exporting_refuses, save_last_clip-clip_exporting,
}

abbrev capture_state : RollingCapture
capture_state = record {
  encoder = false;
  current_path = some 1;
  next_index = 2;
  segments = (record { path = 0; duration = 10000 }) ∷ [];
  protected = [];
  removed = [];
}

-- Everything succeeds, except that no folder can be created.
abbrev world : World
world = record {
  now = 1000;
  supported = true;
  general_finished = false;
  rolling_finished = false;
  live_finished = false;
  wait_fails = false;
  folder = false;
  target = true;
  starts = true;
  stops = true;
  metadata_written = true;
  video_valid = true;
  renders = true;
  rolling_moment = record { elapsed = 0; opens = true; finishes = true; written = true };
  fresh_capture = capture_state;
}

abbrev running : RecordingManager
running = record new_manager { rolling = some capture_state }

reserved : (begin_clip world 10 running).1 ≡ ok (record { paths = 0 ∷ []; requested = 10000 })
unfolding begin_clip new_manager cleanup_finished cleanup_general cleanup_rolling cleanup_live
    reserve_export reserve_segments select_segments
reserved = refl

save_last_clip-clip_exporting_example :
    (save_last_clip world 10 running).0.clip_exporting
    ≡ elim (begin_clip world 10 running).1 [ ok r ↦ not world.folder | err e ↦ false ]
unfolding new_manager
save_last_clip-clip_exporting_example = save_last_clip-clip_exporting world 10 running refl

-- The mark is left behind.
left_behind : (save_last_clip world 10 running).0.clip_exporting ≡ true
unfolding save_last_clip begin_clip new_manager cleanup_finished cleanup_general cleanup_rolling
    cleanup_live reserve_export reserve_segments select_segments
left_behind = refl

run_exporting_refuses_example :
    let s = run (save_last_clip world 10 running).0 (buffers world none ∷ saves world 20 ∷ []) in
    ((stop_clip_buffer world s).1 ≡ err exporting) × ((save_last_clip world 10 s).1 ≡ err exporting)
run_exporting_refuses_example =
    run_exporting_refuses (buffers world none ∷ saves world 20 ∷ [])
      (save_last_clip world 10 running).0 world 10 left_behind (omega arith) (omega arith)
