-- ===== src/ReplayUpload/Tests.antt =====
-- A game whose replay is wanted, and one whose answer comes too late.
use yummi_lcu.Common.{
  ◌≤◌, true, false, Bytes, codes, text_eq, none, some, any, length, List, [], ◌∷◌, ◌≡◌, refl, arith,
}
use yummi_lcu.ReplayUpload.{Poller, next_action, download, ask_relay, idle}
use yummi_lcu.ReplayUpload.Ops.{Op, entered, found, polled, decided, run}
use yummi_lcu.ReplayUpload.Approved.{is_approval, run-IsApproved}

abbrev new_poller : Poller
new_poller = record {
  eog_sent = false;
  last_eog_attempt = none;
  eog_recovery_started_at = none;
  eog_attempt_count = 0;
  eog_expected_game_id = none;
  rofl_match_hint = none;
  rofl_preflight_requested_game_id = none;
  rofl_preflight_resolved_game_id = none;
  rofl_upload_authorized_game_id = none;
  rofl_sent_game_id = none;
  rofl_file_ready_game_id = none;
  rofl_recovery_started_at = none;
  last_rofl_attempt = none;
  rofl_attempt_count = 0;
  rofl_download_requested_game_id = none;
  rofl_auto_download_owned_game_id = none;
  diagnostics = [];
  connection_identity = none;
  connection_generation = 0;
}

-- Found, asked, approved; the last operation first.
abbrev wanted : List Op
wanted = decided (codes "7") true ∷ (polled ∷ (found (codes "7") 1000 ∷ (entered ∷ [])))

asks_first : (next_action (run (found (codes "7") 1000 ∷ []) new_poller)).1 ≡ ask_relay (codes "7")
unfolding run next_action text_eq
asks_first = refl

then_downloads : (next_action (run wanted new_poller)).1 ≡ download (codes "7")
unfolding run next_action text_eq
then_downloads = refl

-- The answer for an earlier game changes nothing for the current one.
other_answer :
    (next_action
      (run (decided (codes "6") true ∷ (polled ∷ (found (codes "7") 1000 ∷ []))) new_poller)).1
    ≡ idle
unfolding run next_action text_eq
other_answer = refl

run-IsApproved_example :
    (length (run wanted new_poller).diagnostics ≤ 64)
    × ((g : Bytes)
        → (next_action (run wanted new_poller)).1 ≡ download g
        → ((run wanted new_poller).rofl_match_hint ≡ some g) × (any (is_approval g) wanted ≡ true))
run-IsApproved_example = run-IsApproved new_poller refl (omega arith) wanted
