-- ===== src/Recording/Manager/Clips.antt =====
-- recording.rs, `save_last_clip` and `stop_clip_buffer`: the mark of an export in progress.
use yummi_lcu.Common.{
  ℕ, ◌*◌, ◌≤◌, ◌≡◌, inl, inr, Bool, true, false, not, ◌&&◌, List, [], ◌∷◌, Option, String, arith,
  leb, if◌then◌else◌, ok, err, Bool-cases, Option-cases, Result-cases,
}
use yummi_lcu.Recording.Rolling.{ExportReservation, reserve_export}
use yummi_lcu.Recording.Manager.{
  RecordingManager, World, exporting, cleanup_general, cleanup_rolling, cleanup_live,
  cleanup_finished, begin_recording, start_recording_inner, finish_recording, stop_recording,
  stop_auto_game_recording, start_clip_buffer, stop_clip_buffer, begin_clip, end_clip,
  save_last_clip, bad_length,
}

-- One operation, other than the end of an export that another caller began.
pub data Op : Type 0 where
  cleans : World → Op
  records :
      World → (source : Option String) → (automatic : Bool) → (game_id riot_id : Option String) → Op
  stops_recording : World → Op
  stops_game : World → Op
  buffers : World → Option String → Op
  stops_buffer : World → Op
  saves : World → ℕ → Op

unfoldable pub step : RecordingManager → Op → RecordingManager
step s (cleans w) = cleanup_finished w s
step s (records w source automatic game_id riot_id) =
    (start_recording_inner w source automatic game_id riot_id s).0
step s (stops_recording w) = (stop_recording w s).0
step s (stops_game w) = (stop_auto_game_recording w s).0
step s (buffers w source) = (start_clip_buffer w source s).0
step s (stops_buffer w) = (stop_clip_buffer w s).0
step s (saves w seconds) = (save_last_clip w seconds s).0

unfoldable pub run : RecordingManager → List Op → RecordingManager
run s [] = s
run s (op ∷ ops) = run (step s op) ops

exporting-cleanup :
    (w : World) (s : RecordingManager) → (cleanup_finished w s).clip_exporting ≡ s.clip_exporting
unfolding cleanup_finished cleanup_general cleanup_rolling cleanup_live
exporting-cleanup w s = ground arith

exporting-start_recording :
    (w : World) (source : Option String) (automatic : Bool) (game_id riot_id : Option String)
    (s : RecordingManager)
    → (start_recording_inner w source automatic game_id riot_id s).0.clip_exporting
      ≡ s.clip_exporting
unfolding start_recording_inner begin_recording
exporting-start_recording w source automatic game_id riot_id s =
    ground (arith, exporting-cleanup w s)

exporting-stop_recording :
    (w : World) (s : RecordingManager) → (stop_recording w s).0.clip_exporting ≡ s.clip_exporting
unfolding stop_recording finish_recording
exporting-stop_recording w s = ground (arith, exporting-cleanup w s)

exporting-start_clip_buffer :
    (w : World) (source : Option String) (s : RecordingManager)
    → (start_clip_buffer w source s).0.clip_exporting ≡ s.clip_exporting
unfolding start_clip_buffer
exporting-start_clip_buffer w source s = ground (arith, exporting-cleanup w s)

exporting-stop_clip_buffer :
    (w : World) (s : RecordingManager) → (stop_clip_buffer w s).0.clip_exporting ≡ s.clip_exporting
unfolding stop_clip_buffer
exporting-stop_clip_buffer w s = ground (arith, exporting-cleanup w s)

begin_clip_busy :
    (w : World) (seconds : ℕ) (s : RecordingManager)
    → s.clip_exporting ≡ true
    → begin_clip w seconds s ≡ (
        if leb 5 seconds && leb seconds 60
        then (cleanup_finished w s, err exporting)
        else (s, err bad_length))
unfolding begin_clip
begin_clip_busy w seconds s busy = ground (arith, exporting-cleanup w s)

save_last_clip_busy :
    (w : World) (seconds : ℕ) (s : RecordingManager)
    → s.clip_exporting ≡ true
    → ((save_last_clip w seconds s).0.clip_exporting ≡ true)
      × ((save_last_clip w seconds s).1
          ≡ (if leb 5 seconds && leb seconds 60 then err exporting else err bad_length))
unfolding save_last_clip
save_last_clip_busy w seconds s busy = elim (Bool-cases (leb 5 seconds && leb seconds 60)) [
  | inl fits ↦
      let clean : (cleanup_finished w s).clip_exporting ≡ true =
        ground (arith, exporting-cleanup w s) in
      let answer : begin_clip w seconds s ≡ (cleanup_finished w s, err exporting) =
        ground (arith, begin_clip_busy w seconds s busy) in
      (ground arith, ground arith)
  | inr unfit ↦
      let answer : begin_clip w seconds s ≡ (s, err bad_length) =
        ground (arith, begin_clip_busy w seconds s busy) in
      (ground arith, ground arith)
]

step_busy :
    (s : RecordingManager) (op : Op) → s.clip_exporting ≡ true → (step s op).clip_exporting ≡ true
unfolding step stop_auto_game_recording
step_busy s (cleans w) h = ground (arith, exporting-cleanup w s)
step_busy s (records w source automatic game_id riot_id) h =
    ground (arith, exporting-start_recording w source automatic game_id riot_id s)
step_busy s (stops_recording w) h = ground (arith, exporting-stop_recording w s)
step_busy s (stops_game w) h = ground (arith, exporting-stop_recording w s, exporting-cleanup w s)
step_busy s (buffers w source) h = ground (arith, exporting-start_clip_buffer w source s)
step_busy s (stops_buffer w) h = ground (arith, exporting-stop_clip_buffer w s)
step_busy s (saves w seconds) h = (save_last_clip_busy w seconds s h).0

run_busy :
    (ops : List Op) (s : RecordingManager)
    → s.clip_exporting ≡ true
    → (run s ops).clip_exporting ≡ true
unfolding run
run_busy [] s h = h
run_busy (op ∷ ops) s h = run_busy ops (step s op) (step_busy s op h)

stop_clip_buffer_busy :
    (w : World) (s : RecordingManager)
    → s.clip_exporting ≡ true
    → (stop_clip_buffer w s).1 ≡ err exporting
unfolding stop_clip_buffer
stop_clip_buffer_busy w s h = ground (arith, exporting-cleanup w s)

-- While a clip is being exported, and whatever else is done meanwhile, every request to stop the clip
-- buffer and every request for another clip of a proper length is refused.
pub run_exporting_refuses :
    (ops : List Op) (s : RecordingManager) (w : World) (seconds : ℕ)
    → s.clip_exporting ≡ true
    → 5 ≤ seconds
    → seconds ≤ 60
    → ((stop_clip_buffer w (run s ops)).1 ≡ err exporting)
      × ((save_last_clip w seconds (run s ops)).1 ≡ err exporting)
run_exporting_refuses ops s w seconds busy low high =
    let still = run_busy ops s busy in
    let fits : (leb 5 seconds && leb seconds 60) ≡ true = ground arith in
    (
      stop_clip_buffer_busy w (run s ops) still,
      ground (arith, save_last_clip_busy w seconds (run s ops) still),
    )

end_clip-clip_exporting :
    (w : World) (r : ExportReservation) (s : RecordingManager)
    → (end_clip w r s).0.clip_exporting ≡ false
unfolding end_clip
end_clip-clip_exporting w r s = ground arith

begin_clip-clip_exporting :
    (w : World) (seconds : ℕ) (s : RecordingManager)
    → s.clip_exporting ≡ false
    → (begin_clip w seconds s).0.clip_exporting
      ≡ elim (begin_clip w seconds s).1 [ ok r ↦ true | err e ↦ false ]
unfolding begin_clip
begin_clip-clip_exporting w seconds s h =
    let clean : (cleanup_finished w s).clip_exporting ≡ false =
      ground (arith, exporting-cleanup w s) in
    elim (Option-cases (cleanup_finished w s).rolling) [
      | inl missing ↦ ground arith
      | inr (c, held) ↦ elim (Result-cases (reserve_export w.rolling_moment (seconds * 1000) c).1) [
        | inl (e, failed) ↦ ground arith
        | inr (r, reserved) ↦ ground arith
      ]
    ]

-- Saving a clip while no export is in progress ends with an export still marked exactly if a
-- reservation was made and the folder for clips could not be created.
pub save_last_clip-clip_exporting :
    (w : World) (seconds : ℕ) (s : RecordingManager)
    → s.clip_exporting ≡ false
    → (save_last_clip w seconds s).0.clip_exporting
      ≡ elim (begin_clip w seconds s).1 [ ok r ↦ not w.folder | err e ↦ false ]
unfolding save_last_clip
save_last_clip-clip_exporting w seconds s h = elim (Result-cases (begin_clip w seconds s).1) [
  | inl (e, failed) ↦ ground (arith, begin_clip-clip_exporting w seconds s h)
  | inr (r, begun) ↦ ground (
    arith,
    begin_clip-clip_exporting w seconds s h,
    end_clip-clip_exporting w r (begin_clip w seconds s).0,
  )
]
