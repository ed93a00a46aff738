-- ===== src/Relay/Protocol/Safe.antt =====
-- relay/protocol.rs, `parse`: what the program relies on in a message.
use yummi_lcu.Common.{
  ℕ, ◌+◌, ◌%◌, ◌≤◌, ◌≡◌, ◌≢◌, ◌⊎◌, Bool, true, false, [], Option, none, some, length, all, Bytes,
  codes, is_ascii, is_ascii_digit, is_none, All,
}
use yummi_lcu.Json.{is_object}
use yummi_lcu.Relay.Protocol.{
  IncomingMessage, command, session_bound, live_preview_control, live_sfu_control, server_hello,
  device_challenge, event_ack, live_delta_resend, live_delta_resync, discord_join_request_resolved,
  discord_presence_context, discord_voice_chat_message, chars_count, is_ascii_graphic,
}

-- A value that is given satisfies `P`.
abbrev pub IfGiven {ℓ} : {A : Type ℓ} → (A → Type 0) → Option A → Type 0
IfGiven P none = Unit {0}
IfGiven P (some a) = P a

-- A value is given and satisfies `P`.
abbrev pub IsGiven {ℓ} : {A : Type ℓ} → (A → Type 0) → Option A → Type 0
IsGiven P none = ⊥
IsGiven P (some a) = P a

-- A text of 1 to `limit` bytes.
abbrev pub IsShort : ℕ → Bytes → Type 0
IsShort limit s = (1 ≤ length s) × (length s ≤ limit)

abbrev pub IsIn : ℕ → ℕ → ℕ → Type 0
IsIn lo hi v = (lo ≤ v) × (v ≤ hi)

abbrev pub IsEvenIn : ℕ → ℕ → ℕ → Type 0
IsEvenIn lo hi v = (IsIn lo hi v) × (v % 2 ≡ 0)

module _ (is_uuid : Bytes → Bool) where
  -- What the program may rely on in a message that it acts on.
  unfoldable pub IsSafe : IncomingMessage → Type 0
  IsSafe (command action request_id payload) =
      IsShort 64 action × (IsShort 128 request_id × (is_object payload ≡ true))
  IsSafe (event_ack event_id) = is_uuid event_id ≡ true
  IsSafe (live_delta_resend stream_id from_seq to_seq) =
      (is_uuid stream_id ≡ true)
      × ((1 ≤ from_seq) × ((from_seq ≤ to_seq) × (to_seq ≤ from_seq + 1024)))
  IsSafe (live_delta_resync stream_id) = is_uuid stream_id ≡ true
  IsSafe (discord_join_request_resolved requester riot_id status) =
      (1 ≤ requester) × (IsShort 64 status × IfGiven (IsShort 128) riot_id)
  IsSafe (discord_presence_context active status invite_code guild_id) =
      IsShort 64 status
      × (IfGiven (IsShort 64) invite_code
          × (IfGiven (λ id. IsShort 32 id × (all is_ascii_digit id ≡ true)) guild_id
              × (active ≡ true → (is_none invite_code ≡ false) × (is_none guild_id ≡ false))))
  IsSafe
        (discord_voice_chat_message guild_id channel_id message_id author_id name avatar content
          time) =
      ((1 ≤ guild_id) × ((1 ≤ channel_id) × ((1 ≤ message_id) × ((1 ≤ author_id) × (1 ≤ time)))))
      × ((name ≢ [])
          × ((chars_count name ≤ 128)
              × ((content ≢ []) × ((chars_count content ≤ 800) × IfGiven (IsShort 2048) avatar))))
  IsSafe (live_preview_control enabled ttl_ms) = IfGiven (IsIn 500 10000) ttl_ms
  IsSafe (live_sfu_control enabled ttl_ms url room token codec width height fps bitrate) =
      IfGiven (IsIn 1000 30000) ttl_ms
      × (IfGiven (IsEvenIn 640 2560) width
          × (IfGiven (IsEvenIn 360 1440) height
              × (IfGiven (IsIn 10 60) fps
                  × (IfGiven (IsIn 500000 20000000) bitrate
                      × (enabled ≡ true
                          → IsGiven (IsShort 2048) url
                            × (IsGiven (IsShort 128) room
                                × (IsGiven (λ v. IsIn 32 8192 (length v) × (all is_ascii v ≡ true))
                                      token
                                    × IfGiven (λ v. (v ≡ codes "h264") ⊎ (v ≡ codes "av1"))
                                        codec)))))))
  IsSafe (server_hello protocol_version capabilities) =
      (length capabilities ≤ 64) × All (λ p. IsShort 64 p.0) capabilities
  IsSafe (device_challenge challenge_id nonce) =
      (is_uuid challenge_id ≡ true) × (IsIn 32 256 (length nonce) × (all is_ascii nonce ≡ true))
  IsSafe (session_bound discord_id discord_name username discord_avatar avatar_url trust token) =
      IfGiven (λ id. 1 ≤ id) discord_id
      × ((IfGiven (λ s. length s ≤ 128) discord_name × IfGiven (λ s. length s ≤ 128) username)
          × ((IfGiven (λ s. length s ≤ 2048) discord_avatar
                × IfGiven (λ s. length s ≤ 2048) avatar_url)
              × (IfGiven (λ v. (v ≡ codes "trusted") ⊎ (v ≡ codes "new_device")) trust
                  × IfGiven (λ v. IsIn 32 256 (length v) × (all is_ascii_graphic v ≡ true)) token)))
  IsSafe _ = Unit {0}
