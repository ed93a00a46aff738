-- ===== src/Relay/Protocol.antt =====
-- relay/protocol.rs, `IncomingMessage`: the messages of the relay and the checks that `parse` makes on
-- a decoded one. Texts are their UTF-8 bytes. `serde_json` and `uuid` are parameters.
pub mod Safe
pub mod Accepts
mod Tests
use yummi_lcu.Common.{
  ℕ, suc, ◌-◌, ◌%◌, Bool, true, false, not, ◌&&◌, ◌||◌, List, [], ◌∷◌, Option, none, some, length,
  any, all, leb, ltb, ◌==◌, if◌then◌else◌, Bytes, codes, text_eq, is_ascii, is_ascii_digit,
  is_some_and, is_none_or, is_none, Result, ok, err, map,
}
use yummi_lcu.Json.{Value, is_object}

abbrev pub max_relay_message_bytes : ℕ
max_relay_message_bytes = 262144

pub data IncomingMessage : Type 0 where
  command : (action request_id : Bytes) → (payload : Value) → IncomingMessage
  session_bound :
      (discord_id : Option ℕ)
      → (discord_name username discord_avatar avatar_url : Option Bytes)
      → (trust_level refresh_token : Option Bytes) → IncomingMessage
  pong : IncomingMessage
  force_reconnect : (reason : Option Bytes) → IncomingMessage
  live_game_polling : (enabled : Bool) → IncomingMessage
  live_preview_control : (enabled : Bool) → (ttl_ms : Option ℕ) → IncomingMessage
  live_sfu_control :
      (enabled : Bool)
      → (ttl_ms : Option ℕ) → (url room token codec : Option Bytes)
      → (width height fps bitrate : Option ℕ) → IncomingMessage
  server_hello : (protocol_version : ℕ) → (capabilities : List (Bytes × Bool)) → IncomingMessage
  device_challenge : (challenge_id nonce : Bytes) → IncomingMessage
  event_ack : (event_id : Bytes) → IncomingMessage
  live_delta_resend : (stream_id : Bytes) → (from_seq to_seq : ℕ) → IncomingMessage
  live_delta_resync : (stream_id : Bytes) → IncomingMessage
  discord_join_request_resolved :
      (requester_discord_id : ℕ) → (riot_id : Option Bytes) → (status : Bytes) → IncomingMessage
  discord_presence_context :
      (active : Bool)
      → (status : Bytes) → (invite_code discord_guild_id : Option Bytes) → IncomingMessage
  discord_voice_chat_message :
      (guild_id channel_id message_id author_id : ℕ)
      → (author_name : Bytes) → (avatar_url : Option Bytes) → (content : Bytes) → (timestamp_ms : ℕ)
      → IncomingMessage
  discord_voice_chat_clear : IncomingMessage
  unknown : IncomingMessage

-- The texts of the errors of `parse`.
pub data ParseError : Type 0 where
  message_too_large invalid_message invalid_command invalid_event_ack invalid_resend invalid_resync
        invalid_join_resolution invalid_presence_context invalid_voice_chat_message
        invalid_live_preview invalid_live_sfu invalid_server_hello invalid_device_challenge
        invalid_session_metadata :
      ParseError

abbrev pub is_empty : Bytes → Bool
is_empty [] = true
is_empty (c ∷ s) = false

-- `!(lo..=hi).contains(&value)`
abbrev pub is_outside : ℕ → ℕ → ℕ → Bool
is_outside lo hi value = not (leb lo value && leb value hi)

abbrev pub is_odd : ℕ → Bool
is_odd value = not (value % 2 == 0)

-- `chars().count()`: the bytes that are not continuation bytes.
unfoldable pub chars_count : Bytes → ℕ
chars_count [] = 0
chars_count (c ∷ s) = if leb 128 c && ltb c 192 then chars_count s else suc (chars_count s)

unfoldable pub is_ascii_graphic : ℕ → Bool
is_ascii_graphic c = leb 33 c && leb c 126

-- Empty, or longer than `limit` bytes.
abbrev pub is_bad_text : ℕ → Bytes → Bool
is_bad_text limit s = is_empty s || ltb limit (length s)

abbrev pub is_long_option : ℕ → Option Bytes → Bool
is_long_option limit o = is_some_and o (λ s. ltb limit (length s))

module _ (is_uuid : Bytes → Bool) where
  -- The error of the arm of `parse` that takes the message, `none` for the last arm.
  unfoldable pub refusal : IncomingMessage → Option ParseError
  refusal (command action request_id payload) =
      if is_bad_text 64 action || (is_bad_text 128 request_id || not (is_object payload))
      then some invalid_command
      else none
  refusal (event_ack event_id) = if is_uuid event_id then none else some invalid_event_ack
  refusal (live_delta_resend stream_id from_seq to_seq) =
      if not (is_uuid stream_id)
        || (from_seq == 0 || (ltb to_seq from_seq || ltb 1024 (to_seq - from_seq)))
      then some invalid_resend
      else none
  refusal (live_delta_resync stream_id) = if is_uuid stream_id then none else some invalid_resync
  refusal (discord_join_request_resolved requester_discord_id riot_id status) =
      if requester_discord_id == 0
        || (is_bad_text 64 status || is_some_and riot_id (is_bad_text 128))
      then some invalid_join_resolution
      else none
  refusal (discord_presence_context active status invite_code discord_guild_id) =
      if is_bad_text 64 status
        || (is_some_and invite_code (is_bad_text 64)
            || (is_some_and discord_guild_id
                  (λ id. is_bad_text 32 id || not (all is_ascii_digit id))
                || (active && (is_none invite_code || is_none discord_guild_id))))
      then some invalid_presence_context
      else none
  refusal
        (discord_voice_chat_message guild_id channel_id message_id author_id author_name avatar_url
          content timestamp_ms) =
      if guild_id == 0
        || (channel_id == 0
            || (message_id == 0
                || (author_id == 0
                    || (timestamp_ms == 0
                        || (is_empty author_name
                            || (ltb 128 (chars_count author_name)
                                || (is_empty content
                                    || (ltb 800 (chars_count content)
                                        || is_some_and avatar_url (is_bad_text 2048)))))))))
      then some invalid_voice_chat_message
      else none
  refusal (live_preview_control enabled ttl_ms) =
      if is_some_and ttl_ms (is_outside 500 10000) then some invalid_live_preview else none
  refusal (live_sfu_control enabled ttl_ms url room token codec width height fps bitrate) =
      if is_some_and ttl_ms (is_outside 1000 30000)
        || (is_some_and width (λ v. is_outside 640 2560 v || is_odd v)
            || (is_some_and height (λ v. is_outside 360 1440 v || is_odd v)
                || (is_some_and fps (is_outside 10 60)
                    || (is_some_and bitrate (is_outside 500000 20000000)
                        || (enabled
                            && (is_none_or url (is_bad_text 2048)
                                || (is_none_or room (is_bad_text 128)
                                    || (is_none_or token (λ v.
                                          ltb (length v) 32
                                          || (ltb 8192 (length v) || not (all is_ascii v)))
                                        || is_some_and codec (λ v. not (
                                            text_eq v (codes "h264")
                                            || text_eq v (codes "av1")))))))))))
      then some invalid_live_sfu
      else none
  refusal (server_hello protocol_version capabilities) =
      if ltb 64 (length capabilities) || any (is_bad_text 64) (map (λ p. p.0) capabilities)
      then some invalid_server_hello
      else none
  refusal (device_challenge challenge_id nonce) =
      if not (is_uuid challenge_id)
        || (ltb (length nonce) 32 || (ltb 256 (length nonce) || not (all is_ascii nonce)))
      then some invalid_device_challenge
      else none
  refusal
        (session_bound discord_id discord_name username discord_avatar avatar_url trust_level
          refresh_token) =
      if is_some_and discord_id (λ id. id == 0)
        || ((is_long_option 128 discord_name || is_long_option 128 username)
            || ((is_long_option 2048 discord_avatar || is_long_option 2048 avatar_url)
                || (is_some_and trust_level
                      (λ v. not (text_eq v (codes "trusted") || text_eq v (codes "new_device")))
                    || is_some_and refresh_token
                        (λ v. is_outside 32 256 (length v) || not (all is_ascii_graphic v)))))
      then some invalid_session_metadata
      else none
  refusal _ = none

  -- `decode` is `serde_json::from_str`.
  unfoldable pub parse :
      (Bytes → Option IncomingMessage) → Bytes → Result ParseError IncomingMessage
  parse decode s =
      if ltb max_relay_message_bytes (length s) then err message_too_large else elim (decode s) [
        | none ↦ err invalid_message
        | some message ↦ elim (refusal message) [ none ↦ ok message | some e ↦ err e ]
      ]
