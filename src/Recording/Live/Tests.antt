-- ===== src/Recording/Live/Tests.antt =====
-- A request to publish, and the theorems at it.
use yummi_lcu.Common.{
  ◌+◌, ◌-◌, ◌≤◌, ◌≡◌, refl, true, false, none, some, Bytes, codes, is_ascii, text_eq, ok, err,
  if◌then◌else◌,
}
use yummi_lcu.Relay.Protocol.{IncomingMessage, live_sfu_control, parse, refusal}
use yummi_lcu.Recording.Live.{
  SfuState, capture_failed, control, start_publishing, check_control, validate_url, starts_with,
  parse_codec, new_config, is_alive,
}
use yummi_lcu.Recording.Live.Lease.{IsReachable, control-parse, is_alive-control}

abbrev url : Bytes
url = codes "wss://live.example"

abbrev room : Bytes
room = codes "game"

abbrev token : Bytes
token = codes "0123456789abcdef0123456789abcdef"

abbrev request : IncomingMessage
request =
    live_sfu_control true (some 5000) (some url) (some room) (some token) (some (codes "av1"))
      (some 1920) (some 1080) none none

abbrev idle : SfuState
idle = record {
  deadline_ms = 0;
  stream_deadline_ms = 0;
  stream_generation = 0;
  config = none;
  publishing = false;
}

read : parse (λ s. true) (λ s. some request) (codes "{}") ≡ ok request
unfolding parse refusal is_ascii text_eq
read = refl

reachable : IsReachable (λ s. s) (some url) (some room)
unfolding validate_url starts_with is_ascii
reachable = (refl, refl)

control-parse_example :
    (control
      (λ s. s)
      1000
      1002
      true
      true
      5000
      (some url)
      (some room)
      (some token)
      (some (codes "av1"))
      (some 1920)
      (some 1080)
      none
      none
      idle).1
    ≡ (if true then ok tt else err capture_failed)
control-parse_example =
    control-parse (λ s. true) (λ s. some request) (codes "{}") (λ s. s) (some 5000) (some url)
      (some room) (some token) (some (codes "av1")) (some 1920) (some 1080) none none 1000 1002 5000
      true idle read reachable

is_alive-control_example :
    let r =
      control
        (λ s. s)
        1000
        1002
        true
        true
        90000
        (some url)
        (some room)
        (some token)
        none
        none
        none
        none
        none
        idle in
    (is_alive 31000 r.0.deadline_ms ≡ true → (true ≡ true) × (31000 ≤ 1000 + 30000))
    × ((is_alive 31000 r.0.stream_deadline_ms ≡ true → (true ≡ true) × (31000 ≤ 1002 + 15000))
        × (r.0.stream_deadline_ms ≤ r.0.deadline_ms + (1002 - 1000)))
unfolding control start_publishing check_control validate_url starts_with parse_codec new_config
    is_ascii text_eq
is_alive-control_example =
    is_alive-control (λ s. s) 1000 1002 90000 31000 true true (some url) (some room) (some token)
      none none none none none idle refl
