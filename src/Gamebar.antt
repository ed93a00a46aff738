-- ===== src/Gamebar.antt =====
-- state.rs, the snapshot that the Game Bar overlay shows: its toasts and its voice chat messages. Each
-- operation returns the snapshot and whether the overlay is notified. `now` is the clock's reading.
pub mod Distinct
pub mod Bounds
pub mod Notify
mod Tests
use yummi_lcu.Common.{
  ℕ, ◌-◌, ◌+◌, Bool, true, false, not, ◌&&◌, ◌||◌, List, [], ◌∷◌, ◌++◌, Option, none, some, String,
  length, drop, any, leb, ltb, ◌==◌, if◌then◌else◌, retain, str_eq, is_some, saturating_add,
  is_some_and,
}

abbrev pub voice_chat_max_retention_ms : ℕ
voice_chat_max_retention_ms = 60000

abbrev pub toast_default_retention_ms : ℕ
toast_default_retention_ms = 6000

abbrev pub toast_sticky_expires_at_ms : ℕ
toast_sticky_expires_at_ms = 4102444800000

abbrev pub toast_max_items : ℕ
toast_max_items = 8

pub record VoiceChatOverlayMessage : Type 0 where
  pub channel_id : ℕ
  pub message_id : ℕ
  pub author_id : ℕ
  pub author_name : String
  pub avatar_url : Option String
  pub content : String
  pub timestamp_ms : ℕ

pub record GameBarToast : Type 0 where
  pub id : String
  pub source : String
  pub title : String
  pub body : String
  pub tone : String
  pub timestamp_ms : ℕ
  pub expires_at_ms : ℕ

pub record GameBarSnapshot : Type 0 where
  pub connected : Bool
  pub riot_id : Option String
  pub phase : String
  pub party_members : List String
  pub online_friends : List String
  pub overlay_toasts : List GameBarToast
  pub voice_chat_channel_id : Option ℕ
  pub voice_chat_messages : List VoiceChatOverlayMessage
  pub tutorial_reset_generation : ℕ
  pub updated_at_ms : ℕ

-- `GameBarSnapshot::default`
abbrev pub default_snapshot : GameBarSnapshot
default_snapshot = record {
  connected = false;
  riot_id = none;
  phase = "Offline";
  party_members = [];
  online_friends = [];
  overlay_toasts = [];
  voice_chat_channel_id = none;
  voice_chat_messages = [];
  tutorial_reset_generation = 0;
  updated_at_ms = 0;
}

abbrev pub toast_is_shown : ℕ → GameBarToast → Bool
toast_is_shown now t = t.expires_at_ms == 0 || ltb now t.expires_at_ms

abbrev pub message_is_shown : ℕ → VoiceChatOverlayMessage → Bool
message_is_shown now m =
    m.timestamp_ms == 0 || ltb (now - m.timestamp_ms) voice_chat_max_retention_ms

unfoldable pub prune_toasts : ℕ → GameBarSnapshot → GameBarSnapshot × Bool
prune_toasts now s =
    let kept = retain (toast_is_shown now) s.overlay_toasts in
    (record s { overlay_toasts = kept }, not (length s.overlay_toasts == length kept))

unfoldable pub prune_voice_chat_messages : ℕ → GameBarSnapshot → GameBarSnapshot × Bool
prune_voice_chat_messages now s =
    let kept = retain (message_is_shown now) s.voice_chat_messages in
    (record s { voice_chat_messages = kept }, not (length s.voice_chat_messages == length kept))

-- Both prunings, in the order of `gamebar_snapshot` and `set_gamebar_snapshot`.
unfoldable pub prune : ℕ → GameBarSnapshot → GameBarSnapshot × Bool
prune now s =
    let (messages_pruned, messages_changed) = prune_voice_chat_messages now s in
    let (pruned, toasts_changed) = prune_toasts now messages_pruned in
    (pruned, messages_changed || toasts_changed)

unfoldable pub same_text_option : Option String → Option String → Bool
same_text_option none none = true
same_text_option (some a) (some b) = str_eq a b
same_text_option _ _ = false

unfoldable pub same_texts : List String → List String → Bool
same_texts [] [] = true
same_texts (a ∷ s) (b ∷ t) = str_eq a b && same_texts s t
same_texts _ _ = false

unfoldable pub same_bool : Bool → Bool → Bool
same_bool true b = b
same_bool false b = not b

-- The toasts, messages, channel and generation are carried over, so only the other fields can differ.
unfoldable pub set_gamebar_snapshot : ℕ → GameBarSnapshot → GameBarSnapshot → GameBarSnapshot × Bool
set_gamebar_snapshot now update current =
    let (pruned, changed) = prune now current in
    let next : GameBarSnapshot = record update {
      overlay_toasts = pruned.overlay_toasts;
      voice_chat_channel_id = pruned.voice_chat_channel_id;
      voice_chat_messages = pruned.voice_chat_messages;
      tutorial_reset_generation = pruned.tutorial_reset_generation;
    } in
    (
      next,
      changed
          || not (same_bool pruned.connected next.connected)
          || not (same_text_option pruned.riot_id next.riot_id)
          || not (str_eq pruned.phase next.phase)
          || not (same_texts pruned.party_members next.party_members)
          || not (same_texts pruned.online_friends next.online_friends),
    )

-- The toast with the times that it is given on arrival.
unfoldable pub stamp : ℕ → GameBarToast → GameBarToast
stamp now t =
    let at = if t.timestamp_ms == 0 then now else t.timestamp_ms in
    record t {
      timestamp_ms = at;
      expires_at_ms =
          if t.expires_at_ms == 0
          then saturating_add at toast_default_retention_ms
          else t.expires_at_ms;
    }

unfoldable pub same_toast : GameBarToast → GameBarToast → Bool
same_toast a b =
    str_eq a.id b.id
    && (str_eq a.source b.source
        && (str_eq a.title b.title
            && (str_eq a.body b.body
                && (str_eq a.tone b.tone
                    && (a.timestamp_ms == b.timestamp_ms && a.expires_at_ms == b.expires_at_ms)))))

abbrev pub has_toast : String → List GameBarToast → Bool
has_toast id = any (λ t. str_eq t.id id)

-- What is written over a toast of the same identifier: a sticky toast keeps its first time.
unfoldable pub restamp : GameBarToast → GameBarToast → GameBarToast
restamp old t =
    if t.expires_at_ms == toast_sticky_expires_at_ms
    then record t { timestamp_ms = old.timestamp_ms }
    else t

-- The first toast of the identifier is replaced. `true` says that it differed.
unfoldable pub replace_toast : GameBarToast → List GameBarToast → List GameBarToast × Bool
replace_toast t [] = ([], false)
replace_toast t (old ∷ toasts) =
    let (rest, changed) = replace_toast t toasts in
    if str_eq old.id t.id
    then (restamp old t ∷ toasts, not (same_toast old (restamp old t)))
    else (old ∷ rest, changed)

-- `drain(0..len - limit)` when the list is over the limit.
unfoldable pub keep_last {ℓ} : {A : Type ℓ} → ℕ → List A → List A
keep_last limit xs = drop (length xs - limit) xs

unfoldable pub push_gamebar_toast : ℕ → GameBarToast → GameBarSnapshot → GameBarSnapshot × Bool
push_gamebar_toast now toast s =
    let t = stamp now toast in
    let (pruned, changed) = prune_toasts now s in
    let (replaced, differed) = replace_toast t pruned.overlay_toasts in
    if has_toast t.id pruned.overlay_toasts
    then (record pruned { overlay_toasts = replaced }, changed || differed)
    else (
      record pruned {
        overlay_toasts = keep_last toast_max_items (pruned.overlay_toasts ++ t ∷ []);
      },
      true,
    )

unfoldable pub remove_gamebar_toast : String → GameBarSnapshot → GameBarSnapshot × Bool
remove_gamebar_toast id s =
    let kept = retain (λ t. not (str_eq t.id id)) s.overlay_toasts in
    (record s { overlay_toasts = kept }, not (length s.overlay_toasts == length kept))

abbrev pub voice_chat_max_items : ℕ
voice_chat_max_items = 6

unfoldable pub stamp_message : ℕ → VoiceChatOverlayMessage → VoiceChatOverlayMessage
stamp_message now m = if m.timestamp_ms == 0 then record m { timestamp_ms = now } else m

abbrev pub has_message : ℕ → List VoiceChatOverlayMessage → Bool
has_message id = any (λ m. m.message_id == id)

-- A message of another channel empties the list first.
unfoldable pub switch_channel : ℕ → GameBarSnapshot → GameBarSnapshot × Bool
switch_channel channel s =
    if is_some_and s.voice_chat_channel_id (λ c. c == channel)
    then (s, false)
    else (record s { voice_chat_channel_id = some channel; voice_chat_messages = [] }, true)

unfoldable pub push_gamebar_voice_chat_message :
    ℕ → VoiceChatOverlayMessage → GameBarSnapshot → GameBarSnapshot × Bool
push_gamebar_voice_chat_message now message s =
    let m = stamp_message now message in
    let (pruned, changed) = prune_voice_chat_messages now s in
    let (switched, cleared) = switch_channel m.channel_id pruned in
    if has_message m.message_id switched.voice_chat_messages
    then (switched, changed || cleared)
    else (
      record switched {
        voice_chat_messages =
            keep_last voice_chat_max_items (switched.voice_chat_messages ++ m ∷ []);
      },
      true,
    )

unfoldable pub clear_gamebar_voice_chat : GameBarSnapshot → GameBarSnapshot × Bool
clear_gamebar_voice_chat s = (
  record s { voice_chat_channel_id = none; voice_chat_messages = [] },
  is_some s.voice_chat_channel_id || ltb 0 (length s.voice_chat_messages),
)

unfoldable pub request_gamebar_tutorial_reset : ℕ → GameBarSnapshot → GameBarSnapshot × Bool
request_gamebar_tutorial_reset now s = (record s { tutorial_reset_generation = now }, true)

-- `push_log` of the interface's state: the newest 2000 lines.
abbrev pub max_ui_logs : ℕ
max_ui_logs = 2000

unfoldable pub push_log : String → List String → List String
push_log message logs =
    let pushed = logs ++ message ∷ [] in
    if ltb max_ui_logs (length pushed) then drop 1 pushed else pushed
