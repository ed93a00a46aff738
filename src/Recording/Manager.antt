-- ===== src/Recording/Manager.antt =====
-- recording.rs, `RecordingManager`: recordings, the clip buffer and the saving of clips. A capture is a
-- thread of a library; the manager's view of it is whether it is there. What the file system, the
-- capture and the clock answer is a parameter of each operation. A lock is held over each step that is
-- one step here; rendering a clip happens between two of them. The status that most operations end by
-- returning starts with `cleanup_finished` again, which is a further step.
pub mod Clips
mod Tests
use yummi_lcu.Common.{
  ℕ, Bool, true, false, not, ◌&&◌, ◌||◌, List, [], ◌∷◌, ◌*◌, Option, none, some, String, leb, ltb,
  if◌then◌else◌, str_eq, unwrap_or, is_some, Result, ok, err, ◌>>=◌, guard,
}
use yummi_lcu.Recording.Rolling.{
  RollingCapture, CaptureError, ExportReservation, reserve_export, release_export,
}
use yummi_lcu.Recording.Rolling as Rolling
use yummi_lcu.Recording.Live.{LiveStreamConfig, same_config}

pub data ManagerError : Type 0 where
  not_supported bad_source no_folder no_window capture_failed metadata_failed stop_failed bad_video
        bad_length exporting not_running no_clip_folder render_failed :
      ManagerError
  wait_failed : ManagerError
  capture : CaptureError → ManagerError

pub record RecordingSessionMetadata : Type 0 where
  pub game_id : Option String
  pub riot_id : Option String
  pub source : String
  pub automatic : Bool
  pub started_at_ms : ℕ
  pub ended_at_ms : Option ℕ

pub record RecordingManager : Type 0 where
  pub general : Bool
  pub rolling : Option RollingCapture
  pub live : Bool
  pub live_config : Option LiveStreamConfig
  pub recording_path : Option ℕ
  pub rolling_directory : Option ℕ
  pub last_clip_path : Option ℕ
  pub last_error : Option ManagerError
  pub clip_exporting : Bool
  pub recording_source : String
  pub clip_source : String
  pub auto_game_recording : Bool
  pub auto_game_id : Option String
  pub active_recording_metadata_path : Option ℕ
  pub active_recording_metadata : Option RecordingSessionMetadata

-- What an operation finds. Files are named by the time of their making.
pub record World : Type 0 where
  pub now : ℕ
  pub supported : Bool
  -- A capture that is there has finished, and waiting for it gives an error.
  pub general_finished : Bool
  pub rolling_finished : Bool
  pub live_finished : Bool
  pub wait_fails : Bool
  pub folder : Bool
  pub target : Bool
  pub starts : Bool
  pub stops : Bool
  pub metadata_written : Bool
  pub video_valid : Bool
  pub renders : Bool
  pub rolling_moment : Rolling.Moment
  pub fresh_capture : RollingCapture

unfoldable pub new_manager : RecordingManager
new_manager = record {
  general = false;
  rolling = none;
  live = false;
  live_config = none;
  recording_path = none;
  rolling_directory = none;
  last_clip_path = none;
  last_error = none;
  clip_exporting = false;
  recording_source = "monitor";
  clip_source = "leagueWindow";
  auto_game_recording = false;
  auto_game_id = none;
  active_recording_metadata_path = none;
  active_recording_metadata = none;
}

abbrev pub error_after : World → Option ManagerError → Option ManagerError
error_after w old = if w.wait_fails then some wait_failed else old

unfoldable pub cleanup_general : World → RecordingManager → RecordingManager
cleanup_general w s =
    if s.general && w.general_finished
    then record s { general = false; last_error = error_after w s.last_error }
    else s

unfoldable pub cleanup_rolling : World → RecordingManager → RecordingManager
cleanup_rolling w s =
    if is_some s.rolling && w.rolling_finished
    then record s { rolling = none; last_error = error_after w s.last_error }
    else s

unfoldable pub cleanup_live : World → RecordingManager → RecordingManager
cleanup_live w s =
    if s.live && w.live_finished
    then record s { live = false; live_config = none; last_error = error_after w s.last_error }
    else s

unfoldable pub cleanup_finished : World → RecordingManager → RecordingManager
cleanup_finished w s = cleanup_live w (cleanup_rolling w (cleanup_general w s))

unfoldable pub normalized_source : Option String → String → Result ManagerError String
normalized_source source default_source =
    let name = unwrap_or source default_source in
    if str_eq name "monitor"
    then ok "monitor"
    else if str_eq name "leagueWindow"
    then ok "leagueWindow"
    else err bad_source

-- The state, and how the operation ends.
abbrev pub Outcome : Type 0
Outcome = RecordingManager × Result ManagerError (Unit {0})

-- Which of the answers fails first when a capture is started.
unfoldable pub start_checks : World → Result ManagerError (Unit {0})
start_checks w = guard w.folder no_folder >>= λ _.
    guard w.target no_window >>= λ _. guard w.starts capture_failed

unfoldable pub begin_recording :
    World → String → Bool → (game_id riot_id : Option String) → RecordingManager → Outcome
begin_recording w source automatic game_id riot_id s =
    let metadata : RecordingSessionMetadata = record {
      game_id = game_id;
      riot_id = riot_id;
      source = source;
      automatic = automatic;
      started_at_ms = w.now;
      ended_at_ms = none;
    } in
    elim (start_checks w >>= λ _. guard w.metadata_written metadata_failed) [
      | err e ↦ (s, err e)
      | ok _ ↦ (
        record s {
          general = true;
          recording_path = some w.now;
          recording_source = source;
          auto_game_recording = automatic;
          auto_game_id = if automatic then game_id else none;
          active_recording_metadata_path = some w.now;
          active_recording_metadata = some metadata;
          last_error = none;
        },
        ok tt,
      )
    ]

unfoldable pub start_recording_inner :
    World
    → (source : Option String) → (automatic : Bool) → (game_id riot_id : Option String)
    → RecordingManager
    → Outcome
start_recording_inner w source automatic game_id riot_id s =
    let default_source = if automatic then "leagueWindow" else "monitor" in
    let clean = cleanup_finished w s in
    if not w.supported
    then (s, err not_supported)
    else elim (normalized_source source default_source) [
      | err e ↦ (s, err e)
      | ok name ↦
          if clean.general
          then (clean, ok tt)
          else begin_recording w name automatic game_id riot_id clean
    ]

-- The end of `stop_recording`, once the capture has stopped.
unfoldable pub finish_recording : World → RecordingManager → Outcome
finish_recording w s =
    let bad = is_some s.recording_path && not w.video_valid in
    let checked : RecordingManager = if bad then record s { last_error = some bad_video } else s in
    let noted : RecordingManager =
      if is_some s.active_recording_metadata_path
        && is_some s.active_recording_metadata
        && not w.metadata_written
      then record checked { last_error = some metadata_failed }
      else checked in
    (
      record noted {
        active_recording_metadata = none;
        auto_game_recording = false;
        auto_game_id = none;
        active_recording_metadata_path = none;
      },
      if bad then err bad_video else ok tt,
    )

unfoldable pub stop_recording : World → RecordingManager → Outcome
stop_recording w s =
    let clean = cleanup_finished w s in
    let taken : RecordingManager = record clean { general = false } in
    if clean.general && not w.stops then (taken, err stop_failed) else finish_recording w taken

unfoldable pub stop_auto_game_recording : World → RecordingManager → Outcome
stop_auto_game_recording w s =
    if s.auto_game_recording then stop_recording w s else (cleanup_finished w s, ok tt)

unfoldable pub start_clip_buffer : World → Option String → RecordingManager → Outcome
start_clip_buffer w source s =
    let clean = cleanup_finished w s in
    if not w.supported
    then (s, err not_supported)
    else elim (normalized_source source "leagueWindow") [
      | err e ↦ (s, err e)
      | ok name ↦ if is_some clean.rolling then (clean, ok tt) else elim (start_checks w) [
        | err e ↦ (clean, err e)
        | ok _ ↦ (
          record clean {
            rolling = some w.fresh_capture;
            rolling_directory = some w.now;
            clip_source = name;
            last_error = none;
          },
          ok tt,
        )
      ]
    ]

unfoldable pub stop_clip_buffer : World → RecordingManager → Outcome
stop_clip_buffer w s =
    let clean = cleanup_finished w s in
    let taken : RecordingManager = record clean { rolling = none; rolling_directory = none } in
    if clean.clip_exporting
    then (clean, err exporting)
    else if is_some clean.rolling && not w.stops
    then (taken, err stop_failed)
    else (taken, ok tt)

-- The first part of `save_last_clip`, under the lock: the reservation.
unfoldable pub begin_clip :
    World → ℕ → RecordingManager → RecordingManager × Result ManagerError ExportReservation
begin_clip w seconds s =
    let clean = cleanup_finished w s in
    if not (leb 5 seconds && leb seconds 60)
    then (s, err bad_length)
    else if clean.clip_exporting
    then (clean, err exporting)
    else elim clean.rolling [
      | none ↦ (clean, err not_running)
      | some capture_state ↦
          let (after, reserved) = reserve_export w.rolling_moment (seconds * 1000) capture_state in
          elim reserved [
            | err e ↦ (record clean { rolling = some after }, err (capture e))
            | ok r ↦ (record clean { rolling = some after; clip_exporting = true }, ok r)
          ]
    ]

abbrev pub release_in : List ℕ → Option RollingCapture → Option RollingCapture
release_in paths none = none
release_in paths (some c) = some (release_export paths c)

-- Its last part, under the lock again: the release.
unfoldable pub end_clip : World → ExportReservation → RecordingManager → Outcome
end_clip w r s =
    let released : RecordingManager = record s {
      clip_exporting = false;
      rolling = release_in r.paths s.rolling;
    } in
    if w.renders
    then (record released { last_clip_path = some w.now; last_error = none }, ok tt)
    else (record released { last_error = some render_failed }, err render_failed)

-- `save_last_clip` where nothing comes between its parts.
unfoldable pub save_last_clip : World → ℕ → RecordingManager → Outcome
save_last_clip w seconds s =
    let (begun, reserved) = begin_clip w seconds s in
    elim reserved [
      | err e ↦ (begun, err e)
      | ok r ↦ if w.folder then end_clip w r begun else (begun, err no_clip_folder)
    ]
