-- ===== src/ReplayUpload/Ops.antt =====
-- The operations on the poller in any order.
use yummi_lcu.Common.{ℕ, Bool, Bytes, some, List, [], ◌∷◌}
use yummi_lcu.ReplayUpload.{
  LcuIdentity, Poller, enter_game, observe_connection, observe_disconnected, discover, next_action,
  give_up, set_rofl_upload_decision, retry_rofl_upload_check,
}

-- What can happen to the poller.
pub data Op : Type 0 where
  entered : Op
  connect : LcuIdentity → Op
  disconnect : Op
  found : (game_id : Bytes) → (now : ℕ) → Op
  polled : Op
  ended : (now : ℕ) → Op
  decided : (game_id : Bytes) → (needed : Bool) → Op
  retried : (game_id : Bytes) → Op
  -- A part of the poller that uploads the replay reports it as sent.
  sent : (game_id : Bytes) → Op

unfoldable pub step : Op → Poller → Poller
unfolding enter_game observe_connection observe_disconnected discover next_action give_up
    set_rofl_upload_decision retry_rofl_upload_check
step entered p = enter_game p
step (connect i) p = observe_connection i p
step disconnect p = observe_disconnected p
step (found g now) p = discover g now p
step polled p = (next_action p).0
step (ended now) p = give_up now p
step (decided g needed) p = set_rofl_upload_decision g needed p
step (retried g) p = retry_rofl_upload_check g p
step (sent g) p = record p { rofl_sent_game_id = some g }

-- The last operation stands first.
unfoldable pub run : List Op → Poller → Poller
unfolding step
run [] p = p
run (op ∷ before) p = step op (run before p)
