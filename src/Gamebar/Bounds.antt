-- ===== src/Gamebar/Bounds.antt =====
-- state.rs, the Game Bar snapshot: what holds after any sequence of its operations.
use yummi_lcu.Common.{
  ℕ, ◌≤◌, ◌≡◌, refl, inl, inr, Bool, true, false, not, List, [], ◌∷◌, ◌++◌, some, String, arith,
  length, ◌==◌, if◌then◌else◌, length-retain-le, str_eq, is_some_and, Option-cases, All, All-append,
  All-retain,
}
use yummi_lcu.Gamebar.{
  GameBarSnapshot, GameBarToast, VoiceChatOverlayMessage, prune_toasts, prune_voice_chat_messages,
  prune, set_gamebar_snapshot, push_gamebar_toast, remove_gamebar_toast, stamp, keep_last,
  has_toast, has_message, toast_max_items, voice_chat_max_items, stamp_message, switch_channel,
  push_gamebar_voice_chat_message, clear_gamebar_voice_chat, request_gamebar_tutorial_reset,
  toast_is_shown, message_is_shown,
}
use yummi_lcu.Gamebar.Distinct.{
  length-keep_last, IsToasts, IsMessages, retain-IsToasts, retain-IsMessages, drop-IsToasts,
  drop-IsMessages, drop-All, append-IsToasts, append-IsMessages, replace_toast-IsToasts,
  length-replace_toast,
}

-- The overlay's bounds: at most eight toasts and six messages, none twice, and every message is one
-- of the channel that is shown.
pub record IsOverlay (s : GameBarSnapshot) : Type 0 where
  pub toasts_bounded : length s.overlay_toasts ≤ toast_max_items
  pub toasts_distinct : IsToasts s.overlay_toasts
  pub messages_bounded : length s.voice_chat_messages ≤ voice_chat_max_items
  pub messages_distinct : IsMessages s.voice_chat_messages
  pub one_channel : All (λ m. s.voice_chat_channel_id ≡ some m.channel_id) s.voice_chat_messages

prune_toasts-IsOverlay :
    (now : ℕ) (s : GameBarSnapshot) → IsOverlay s → IsOverlay (prune_toasts now s).0
unfolding prune_toasts
prune_toasts-IsOverlay now s o = record {
  toasts_bounded =
      omega (arith, length-retain-le (toast_is_shown now) s.overlay_toasts, o.toasts_bounded);
  toasts_distinct = retain-IsToasts (toast_is_shown now) s.overlay_toasts o.toasts_distinct;
  messages_bounded = o.messages_bounded;
  messages_distinct = o.messages_distinct;
  one_channel = o.one_channel;
}

prune_messages-IsOverlay :
    (now : ℕ) (s : GameBarSnapshot) → IsOverlay s → IsOverlay (prune_voice_chat_messages now s).0
unfolding prune_voice_chat_messages
prune_messages-IsOverlay now s o = record {
  toasts_bounded = o.toasts_bounded;
  toasts_distinct = o.toasts_distinct;
  messages_bounded =
      omega
        (arith, length-retain-le (message_is_shown now) s.voice_chat_messages, o.messages_bounded);
  messages_distinct =
      retain-IsMessages (message_is_shown now) s.voice_chat_messages o.messages_distinct;
  one_channel = All-retain _ (message_is_shown now) s.voice_chat_messages o.one_channel;
}

set-IsOverlay :
    (now : ℕ) (update s : GameBarSnapshot)
    → IsOverlay s
    → IsOverlay (set_gamebar_snapshot now update s).0
unfolding set_gamebar_snapshot prune
set-IsOverlay now update s o =
    let p = prune_toasts-IsOverlay now _ (prune_messages-IsOverlay now s o) in
    record {
      toasts_bounded = p.toasts_bounded;
      toasts_distinct = p.toasts_distinct;
      messages_bounded = p.messages_bounded;
      messages_distinct = p.messages_distinct;
      one_channel = p.one_channel;
    }

if-IsOverlay :
    (c : Bool) (x y : GameBarSnapshot × Bool)
    → (c ≡ true → IsOverlay x.0)
    → (c ≡ false → IsOverlay y.0)
    → IsOverlay (if c then x else y).0
if-IsOverlay true x y p q = p refl
if-IsOverlay false x y p q = q refl

push_toast-IsOverlay :
    (now : ℕ) (toast : GameBarToast) (s : GameBarSnapshot)
    → IsOverlay s
    → IsOverlay (push_gamebar_toast now toast s).0
unfolding push_gamebar_toast keep_last
push_toast-IsOverlay now toast s o =
    let t = stamp now toast in
    let p = prune_toasts-IsOverlay now s o in
    let ts = (prune_toasts now s).0.overlay_toasts in
    if-IsOverlay (has_toast t.id ts) _ _
      (λ old. record {
        toasts_bounded = omega (arith, length-replace_toast t ts, p.toasts_bounded);
        toasts_distinct = replace_toast-IsToasts t ts p.toasts_distinct;
        messages_bounded = p.messages_bounded;
        messages_distinct = p.messages_distinct;
        one_channel = p.one_channel;
      })
      λ new. record {
        toasts_bounded = length-keep_last toast_max_items (ts ++ t ∷ []);
        toasts_distinct = drop-IsToasts _ _ (append-IsToasts ts t new p.toasts_distinct);
        messages_bounded = p.messages_bounded;
        messages_distinct = p.messages_distinct;
        one_channel = p.one_channel;
      }

switch_channel-IsOverlay :
    (channel : ℕ) (s : GameBarSnapshot) → IsOverlay s → IsOverlay (switch_channel channel s).0
unfolding switch_channel IsMessages
switch_channel-IsOverlay channel s o =
    let emptied : GameBarSnapshot = record s {
      voice_chat_channel_id = some channel;
      voice_chat_messages = [];
    } in
    if-IsOverlay (is_some_and s.voice_chat_channel_id (λ c. c == channel)) (s, false)
      (emptied, true) (λ same. o)
      λ other. record {
        toasts_bounded = o.toasts_bounded;
        toasts_distinct = o.toasts_distinct;
        messages_bounded = omega arith;
        messages_distinct = tt;
        one_channel = tt;
      }

switch_channel-channel :
    (channel : ℕ) (s : GameBarSnapshot)
    → (switch_channel channel s).0.voice_chat_channel_id ≡ some channel
unfolding switch_channel
switch_channel-channel channel s = elim (Option-cases s.voice_chat_channel_id) [
  | inl missing ↦ rw missing refl
  | inr (c, held) ↦ ground arith
]

push_message-IsOverlay :
    (now : ℕ) (message : VoiceChatOverlayMessage) (s : GameBarSnapshot)
    → IsOverlay s
    → IsOverlay (push_gamebar_voice_chat_message now message s).0
unfolding push_gamebar_voice_chat_message keep_last
push_message-IsOverlay now message s o =
    let m = stamp_message now message in
    let pruned = (prune_voice_chat_messages now s).0 in
    let switched = (switch_channel m.channel_id pruned).0 in
    let p = switch_channel-IsOverlay m.channel_id pruned (prune_messages-IsOverlay now s o) in
    if-IsOverlay (has_message m.message_id switched.voice_chat_messages) _ _ (λ old. p)
      λ new. record {
        toasts_bounded = p.toasts_bounded;
        toasts_distinct = p.toasts_distinct;
        messages_bounded =
            length-keep_last voice_chat_max_items (switched.voice_chat_messages ++ m ∷ []);
        messages_distinct =
            drop-IsMessages _ _
              (append-IsMessages switched.voice_chat_messages m new p.messages_distinct);
        one_channel = drop-All _ _ _ (
            All-append _ switched.voice_chat_messages (m ∷ []) p.one_channel
              (switch_channel-channel m.channel_id pruned, tt));
      }

clear-IsOverlay : (s : GameBarSnapshot) → IsOverlay s → IsOverlay (clear_gamebar_voice_chat s).0
unfolding clear_gamebar_voice_chat IsMessages
clear-IsOverlay s o = record {
  toasts_bounded = o.toasts_bounded;
  toasts_distinct = o.toasts_distinct;
  messages_bounded = omega arith;
  messages_distinct = tt;
  one_channel = tt;
}

remove-IsOverlay :
    (id : String) (s : GameBarSnapshot) → IsOverlay s → IsOverlay (remove_gamebar_toast id s).0
unfolding remove_gamebar_toast
remove-IsOverlay id s o = record {
  toasts_bounded =
      omega
        (arith, length-retain-le (λ t. not (str_eq t.id id)) s.overlay_toasts, o.toasts_bounded);
  toasts_distinct = retain-IsToasts _ s.overlay_toasts o.toasts_distinct;
  messages_bounded = o.messages_bounded;
  messages_distinct = o.messages_distinct;
  one_channel = o.one_channel;
}

reset-IsOverlay :
    (now : ℕ) (s : GameBarSnapshot)
    → IsOverlay s
    → IsOverlay (request_gamebar_tutorial_reset now s).0
unfolding request_gamebar_tutorial_reset
reset-IsOverlay now s o = record {
  toasts_bounded = o.toasts_bounded;
  toasts_distinct = o.toasts_distinct;
  messages_bounded = o.messages_bounded;
  messages_distinct = o.messages_distinct;
  one_channel = o.one_channel;
}

-- One operation, with the clock's reading.
pub data Op : Type 0 where
  sets : ℕ → GameBarSnapshot → Op
  pushes : ℕ → GameBarToast → Op
  removes : String → Op
  says : ℕ → VoiceChatOverlayMessage → Op
  clears : Op
  resets : ℕ → Op
  reads : ℕ → Op

unfoldable pub step : GameBarSnapshot → Op → GameBarSnapshot
step s (sets now update) = (set_gamebar_snapshot now update s).0
step s (pushes now toast) = (push_gamebar_toast now toast s).0
step s (removes id) = (remove_gamebar_toast id s).0
step s (says now message) = (push_gamebar_voice_chat_message now message s).0
step s clears = (clear_gamebar_voice_chat s).0
step s (resets now) = (request_gamebar_tutorial_reset now s).0
step s (reads now) = (prune now s).0

unfoldable pub run : GameBarSnapshot → List Op → GameBarSnapshot
run s [] = s
run s (op ∷ ops) = run (step s op) ops

step-IsOverlay : (s : GameBarSnapshot) (op : Op) → IsOverlay s → IsOverlay (step s op)
unfolding step prune
step-IsOverlay s (sets now update) = set-IsOverlay now update s
step-IsOverlay s (pushes now toast) = push_toast-IsOverlay now toast s
step-IsOverlay s (removes id) = remove-IsOverlay id s
step-IsOverlay s (says now message) = push_message-IsOverlay now message s
step-IsOverlay s clears = clear-IsOverlay s
step-IsOverlay s (resets now) = reset-IsOverlay now s
step-IsOverlay s (reads now) = λ o. prune_toasts-IsOverlay now _ (prune_messages-IsOverlay now s o)

-- Any sequence of operations keeps the overlay within its bounds: at most eight toasts and six
-- messages, no toast or message identifier twice, and messages only of the channel that is shown.
pub run-IsOverlay : (ops : List Op) (s : GameBarSnapshot) → IsOverlay s → IsOverlay (run s ops)
unfolding run
run-IsOverlay [] s o = o
run-IsOverlay (op ∷ ops) s o = run-IsOverlay ops (step s op) (step-IsOverlay s op o)
