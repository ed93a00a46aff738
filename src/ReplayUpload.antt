-- ===== src/ReplayUpload.antt =====
-- lcu/events.rs, `LcuEventPoller`: what it keeps about the replay of the last game, from the game's end
-- over the relay's answer whether the replay is wanted to the time limit, and across connections of the
-- League client. A moment is a number of milliseconds, a diagnostic its kind with the game.
pub mod Ops
pub mod Approved
mod Tests
use yummi_lcu.Common.{
  ℕ, ◌+◌, ◌-◌, ◌%◌, ◌^◌, Bool, true, false, not, ◌&&◌, ◌||◌, ltb, leb, ◌==◌, if◌then◌else◌, Bytes,
  text_eq, Option, none, some, is_some, is_none, is_some_and, is_none_or, length, drop, List, [],
  ◌∷◌, ◌++◌,
}

pub record LcuIdentity : Type 0 where
  pub process_id : ℕ
  pub port : ℕ

pub data Note : Type 0 where
  ignored approved declined check_again waiting asked timed_out : Bytes → Note
  connected disconnected : ℕ → Note

-- The fields of the poller that these operations read or write.
pub record Poller : Type 0 where
  pub eog_sent : Bool
  pub last_eog_attempt : Option ℕ
  pub eog_recovery_started_at : Option ℕ
  pub eog_attempt_count : ℕ
  pub eog_expected_game_id : Option Bytes
  -- The game of `rofl_match_hint`.
  pub rofl_match_hint : Option Bytes
  pub rofl_preflight_requested_game_id : Option Bytes
  pub rofl_preflight_resolved_game_id : Option Bytes
  pub rofl_upload_authorized_game_id : Option Bytes
  pub rofl_sent_game_id : Option Bytes
  pub rofl_file_ready_game_id : Option Bytes
  pub rofl_recovery_started_at : Option ℕ
  pub last_rofl_attempt : Option ℕ
  pub rofl_attempt_count : ℕ
  pub rofl_download_requested_game_id : Option Bytes
  pub rofl_auto_download_owned_game_id : Option Bytes
  pub diagnostics : List Note
  pub connection_identity : Option LcuIdentity
  pub connection_generation : ℕ

abbrev pub is_game : Option Bytes → Bytes → Bool
is_game o g = is_some_and o (λ h. text_eq h g)

unfoldable pub diagnostic : Note → Poller → Poller
diagnostic n p =
    let all = p.diagnostics ++ (n ∷ []) in
    record p { diagnostics = if ltb 64 (length all) then drop 1 all else all }

-- The entry into a game, and this part of `reset_lcu_snapshot`, clear the same fields.
unfoldable pub enter_game : Poller → Poller
enter_game p = record p {
  eog_sent = false;
  last_eog_attempt = none;
  eog_recovery_started_at = none;
  eog_attempt_count = 0;
  eog_expected_game_id = none;
  rofl_match_hint = none;
  rofl_preflight_requested_game_id = none;
  rofl_preflight_resolved_game_id = none;
  rofl_upload_authorized_game_id = none;
  rofl_sent_game_id = none;
  rofl_file_ready_game_id = none;
  rofl_recovery_started_at = none;
  last_rofl_attempt = none;
  rofl_attempt_count = 0;
  rofl_download_requested_game_id = none;
  rofl_auto_download_owned_game_id = none;
}

abbrev same_identity : Option LcuIdentity → LcuIdentity → Bool
same_identity none i = false
same_identity (some c) i = c.process_id == i.process_id && c.port == i.port

unfoldable pub observe_connection : LcuIdentity → Poller → Poller
unfolding enter_game diagnostic
observe_connection i p =
    if same_identity p.connection_identity i
    then p
    else (let generation = (p.connection_generation + 1) % 2 ^ 64 in
        diagnostic (connected generation) (
          enter_game
            (record p { connection_generation = generation; connection_identity = some i })))

unfoldable pub observe_disconnected : Poller → Poller
unfolding enter_game diagnostic
observe_disconnected p =
    if is_none p.connection_identity
    then p
    else (let generation = (p.connection_generation + 1) % 2 ^ 64 in
        diagnostic (disconnected generation) (
          enter_game (record p { connection_generation = generation; connection_identity = none })))

-- A game whose replay was not looked for yet.
unfoldable pub discover : Bytes → ℕ → Poller → Poller
unfolding diagnostic
discover g now p =
    if not (is_game p.rofl_preflight_resolved_game_id g) && not (is_game p.rofl_match_hint g)
    then diagnostic (waiting g) record p {
      rofl_match_hint = some g;
      rofl_preflight_requested_game_id = none;
      rofl_preflight_resolved_game_id = none;
      rofl_upload_authorized_game_id = none;
      rofl_recovery_started_at = some now;
      last_rofl_attempt = none;
      rofl_attempt_count = 0;
      rofl_download_requested_game_id = none;
      rofl_auto_download_owned_game_id = none;
      rofl_file_ready_game_id = none;
    }
    else p

-- What one round does about the replay: ask the relay, or go on to the download.
pub data Action : Type 0 where
  idle : Action
  ask_relay : Bytes → Action
  download : Bytes → Action

unfoldable pub next_action : Poller → Poller × Action
unfolding diagnostic
next_action p = elim (p.rofl_match_hint) [
  | none ↦ (p, idle)
  | some g ↦
      if is_game p.rofl_sent_game_id g
      then (p, idle)
      else if is_game p.rofl_upload_authorized_game_id g
      then (p, download g)
      else if is_game p.rofl_preflight_requested_game_id g
      then (p, idle)
      else (
        diagnostic (asked g) (record p { rofl_preflight_requested_game_id = some g }),
        ask_relay g,
      )
]

-- The end of the round: 300 seconds after the discovery the replay is given up.
unfoldable pub give_up : ℕ → Poller → Poller
unfolding diagnostic
give_up now p = elim (p.rofl_match_hint) [
  | none ↦ p
  | some g ↦
      if is_some_and p.rofl_recovery_started_at (λ started. ltb 300000 (now - started))
        && not (is_game p.rofl_sent_game_id g)
      then (let noted = diagnostic (timed_out g) p in
          record noted {
            rofl_match_hint = none;
            rofl_preflight_requested_game_id = none;
            rofl_upload_authorized_game_id = none;
            rofl_file_ready_game_id = none;
            rofl_download_requested_game_id = none;
            rofl_auto_download_owned_game_id = none;
            rofl_recovery_started_at = none;
            last_rofl_attempt = none;
            rofl_attempt_count = 0;
          })
      else p
]

unfoldable pub set_rofl_upload_decision : Bytes → Bool → Poller → Poller
unfolding diagnostic
set_rofl_upload_decision g needed p =
    if not (is_game p.rofl_match_hint g)
    then diagnostic (ignored g) p
    else if needed
    then diagnostic (approved g) record p {
      rofl_preflight_resolved_game_id = some g;
      rofl_upload_authorized_game_id = some g;
    }
    else diagnostic (declined g) record p {
      rofl_preflight_resolved_game_id = some g;
      rofl_match_hint = none;
      rofl_preflight_requested_game_id = none;
      rofl_upload_authorized_game_id = none;
      rofl_file_ready_game_id = none;
      rofl_recovery_started_at = none;
      last_rofl_attempt = none;
      rofl_attempt_count = 0;
      rofl_download_requested_game_id = none;
      rofl_auto_download_owned_game_id = none;
    }

unfoldable pub retry_rofl_upload_check : Bytes → Poller → Poller
unfolding diagnostic
retry_rofl_upload_check g p =
    if is_game p.rofl_match_hint g && not (is_game p.rofl_upload_authorized_game_id g)
    then diagnostic (check_again g) (record p { rofl_preflight_requested_game_id = none })
    else p
