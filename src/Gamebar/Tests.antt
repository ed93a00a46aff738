-- ===== src/Gamebar/Tests.antt =====
-- Runs of the Game Bar snapshot, and its theorems at concrete operations.
use yummi_lcu.Common.{◌≡◌, refl, List, [], ◌∷◌, none, some, arith, length, retain, str_eq}
use yummi_lcu.Gamebar.{
  GameBarSnapshot, GameBarToast, VoiceChatOverlayMessage, default_snapshot, push_gamebar_toast,
  keep_last, push_gamebar_voice_chat_message, switch_channel, stamp, stamp_message, prune_toasts,
  prune_voice_chat_messages, replace_toast, restamp, same_toast,
}
use yummi_lcu.Gamebar.Distinct.{IsToasts, IsMessages}
use yummi_lcu.Gamebar.Bounds.{Op, pushes, says, step, run, IsOverlay, run-IsOverlay}
use yummi_lcu.Gamebar.Notify.{
  push_gamebar_toast_quiet, toast_of, IsPushed, push_gamebar_toast-IsPushed,
}

abbrev invite : GameBarToast
invite = record {
  id = "invite";
  source = "discord";
  title = "Party";
  body = "Join?";
  tone = "info";
  timestamp_ms = 0;
  expires_at_ms = 0;
}

abbrev hello : VoiceChatOverlayMessage
hello = record {
  channel_id = 5;
  message_id = 9;
  author_id = 2;
  author_name = "Ahri";
  avatar_url = none;
  content = "gg";
  timestamp_ms = 0;
}

abbrev ops : List Op
ops = pushes 1000 invite ∷ says 1100 hello ∷ pushes 1200 invite ∷ []

abbrev after : GameBarSnapshot
after = run default_snapshot ops

-- The second push replaces the first.
one_toast : length after.overlay_toasts ≡ 1
unfolding run step push_gamebar_toast keep_last push_gamebar_voice_chat_message switch_channel stamp
    stamp_message prune_toasts prune_voice_chat_messages replace_toast restamp retain str_eq
one_toast = refl

run-IsOverlay_example : IsOverlay after
unfolding IsToasts IsMessages
run-IsOverlay_example = run-IsOverlay ops default_snapshot (record {
  toasts_bounded = omega arith;
  toasts_distinct = tt;
  messages_bounded = omega arith;
  messages_distinct = tt;
  one_channel = tt;
})

abbrev shown : GameBarToast
shown = record invite { timestamp_ms = 1200; expires_at_ms = 7200 }

push_gamebar_toast_quiet_example :
    (push_gamebar_toast 1300 shown after).0.overlay_toasts ≡ after.overlay_toasts
unfolding run step push_gamebar_toast keep_last push_gamebar_voice_chat_message switch_channel stamp
    stamp_message prune_toasts prune_voice_chat_messages replace_toast restamp retain str_eq
    same_toast
push_gamebar_toast_quiet_example = push_gamebar_toast_quiet 1300 shown after refl

abbrev changed : GameBarToast
changed = record invite { body = "Still there?"; expires_at_ms = 9000 }

push_gamebar_toast-IsPushed_example :
    (u : GameBarToast) × (toast_of "invite" (push_gamebar_toast 2000 changed after).0.overlay_toasts
      ≡ some u)
    × IsPushed 2000 changed u
push_gamebar_toast-IsPushed_example = push_gamebar_toast-IsPushed 2000 changed after
