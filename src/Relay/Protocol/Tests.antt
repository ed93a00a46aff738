-- ===== src/Relay/Protocol/Tests.antt =====
-- A run of `parse`, and its theorem at a concrete message.
use yummi_lcu.Common.{◌≤◌, ◌≡◌, ◌↔◌, refl, Bool, true, Option, some, length, Bytes, codes, ok}
use yummi_lcu.Relay.Protocol.{
  IncomingMessage, live_delta_resend, max_relay_message_bytes, parse, refusal,
}
use yummi_lcu.Relay.Protocol.Safe.{IsSafe}
use yummi_lcu.Relay.Protocol.Accepts.{parse-IsSafe}

-- A decoder that reads one message out of every text, and a test that takes every identifier.
abbrev is_uuid : Bytes → Bool
is_uuid s = true

abbrev request : IncomingMessage
request = live_delta_resend (codes "0b6f8a52") 7 9

abbrev decode : Bytes → Option IncomingMessage
decode s = some request

accepted : parse is_uuid decode (codes "{}") ≡ ok request
unfolding parse refusal
accepted = refl

parse-IsSafe_example : (parse is_uuid decode (codes "{}") ≡ ok request) ↔ (
    (length (codes "{}") ≤ max_relay_message_bytes)
    × ((decode (codes "{}") ≡ some request) × IsSafe is_uuid request))
parse-IsSafe_example = parse-IsSafe is_uuid decode (codes "{}") request
