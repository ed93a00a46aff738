-- ===== src/Recording/Live/Lease.antt =====
-- live_sfu.rs, `control`: what a request of the relay comes to, and how long it lasts.
use yummi_lcu.Common.{
  ℕ, ◌+◌, ◌-◌, ◌≤◌, ◌≡◌, ◌⊎◌, inl, inr, refl, Bool, true, false, not, ◌&&◌, [], ◌∷◌, Option, none,
  some, arith, length, all, leb, if◌then◌else◌, Bytes, codes, text_eq, is_ascii, unwrap_or, ok, err,
  is_ok, Bool-cases, Result-cases,
}
use yummi_lcu.Relay.Protocol.{IncomingMessage, live_sfu_control, parse, is_empty}
use yummi_lcu.Relay.Protocol.Safe.{IsSafe, IsIn, IsEvenIn, IfGiven, IsGiven}
use yummi_lcu.Relay.Protocol.Accepts.{parse-IsSafe}
use yummi_lcu.Recording.Live.{
  SfuState, new_config, parse_codec, validate_url, check_control, control, start_publishing,
  live_stream_deadline, is_alive, capture_failed,
}

new_config-ok :
    (w h f b : ℕ)
    → IsEvenIn 640 2560 w
    → IsEvenIn 360 1440 h
    → IsIn 10 60 f
    → IsIn 500000 20000000 b
    → new_config w h f b ≡ ok (record { max_width = w; max_height = h; fps = f; bitrate = b })
unfolding new_config
new_config-ok w h f b p q r s = ground arith

or_default : (P : ℕ → Type 0) (o : Option ℕ) (d : ℕ) → IfGiven P o → P d → P (unwrap_or o d)
or_default P none d g h = h
or_default P (some v) d g h = g

parse_codec-ok :
    (codec : Option Bytes)
    → IfGiven (λ v. (v ≡ codes "h264") ⊎ (v ≡ codes "av1")) codec
    → is_ok (parse_codec codec) ≡ true
unfolding parse_codec text_eq
parse_codec-ok none g = refl
parse_codec-ok (some v) (inl e) = rw e refl
parse_codec-ok (some v) (inr e) = rw e refl

-- What `control` asks for beyond what the relay's message was checked for.
abbrev pub IsReachable : (Bytes → Bytes) → Option Bytes → Option Bytes → Type 0
IsReachable trim url room =
    IsGiven (λ u. validate_url trim u ≡ true) url × IsGiven (λ r. all is_ascii r ≡ true) room

given : (s : Bytes) → 1 ≤ length s → is_empty s ≡ false
given [] h = absurd (omega arith)
given (c ∷ s) h = refl

check_control-ok :
    (is_uuid : Bytes → Bool) (trim : Bytes → Bytes) (ttl : Option ℕ)
    (url room token codec : Option Bytes) (w h f b : Option ℕ)
    → IsSafe is_uuid (live_sfu_control true ttl url room token codec w h f b)
    → IsReachable trim url room
    → is_ok (check_control trim url room token codec w h f b) ≡ true
unfolding check_control IsSafe
check_control-ok is_uuid trim ttl none room token codec w h f b safe reach = absurd reach.0
check_control-ok is_uuid trim ttl (some u) none token codec w h f b safe reach = absurd reach.1
check_control-ok is_uuid trim ttl (some u) (some r) none codec w h f b (_, (_, (_, (_, (_, g)))))
      reach =
    absurd (g refl).1.1.0
check_control-ok is_uuid trim ttl (some u) (some r) (some t) codec w h f b
      (_, (wide, (high, (fast, (rich, g))))) (reached, ascii) =
    let (_, (room_short, (token_fits, codec_known))) = g refl in
    let quality =
      new_config-ok (unwrap_or w 1280) (unwrap_or h 720) (unwrap_or f 15) (unwrap_or b 3000000)
        (or_default _ w 1280 wide ((omega arith, omega arith), refl))
        (or_default _ h 720 high ((omega arith, omega arith), refl))
        (or_default _ f 15 fast (omega arith, omega arith))
        (or_default _ b 3000000 rich (omega arith, omega arith)) in
    let room_given : is_empty r ≡ false = given r room_short.0 in
    elim (Result-cases (parse_codec codec)) [
      | inl (e, bad) ↦ absurd (ground (arith, parse_codec-ok codec codec_known))
      | inr (c, parsed) ↦
          let passed : (validate_url trim u
                && (not (is_empty r)
                    && (leb (length r) 128
                        && (all is_ascii r
                            && (leb 32 (length t) && (leb (length t) 8192 && all is_ascii t))))))
              ≡ true =
            ground arith in
          rw (passed, parsed, quality) refl
    ]

-- A request to publish that `parse` accepts, over a secure address and with a plain room name, never
-- fails on its settings: only the capture itself can fail.
pub control-parse :
    (is_uuid : Bytes → Bool) (decode : Bytes → Option IncomingMessage) (text : Bytes)
    (trim : Bytes → Bytes) (ttl : Option ℕ) (url room token codec : Option Bytes)
    (w h f b : Option ℕ) (now later ttl_ms : ℕ) (captures : Bool) (s : SfuState)
    → parse is_uuid decode text ≡ ok (live_sfu_control true ttl url room token codec w h f b)
    → IsReachable trim url room
    → (control trim now later captures true ttl_ms url room token codec w h f b s).1
      ≡ (if captures then ok tt else err capture_failed)
unfolding control start_publishing
control-parse is_uuid decode text trim ttl url room token codec w h f b now later ttl_ms captures s
      read reach =
    let message = live_sfu_control true ttl url room token codec w h f b in
    let safe = ((parse-IsSafe is_uuid decode text message).0 read).1.1 in
    elim (Result-cases (check_control trim url room token codec w h f b)) [
      | inl (e, bad) ↦ absurd (
          ground (arith, check_control-ok is_uuid trim ttl url room token codec w h f b safe reach))
      | inr (c, good) ↦ rw good (ground arith)
    ]

-- However long a lease the relay asks for, publishing is over 30 seconds after the time that a successful
-- call of `control` which renews it has read, and the frames end 15 seconds after its second reading of the
-- clock; after a call that ends it both are over at once, all unless another call has renewed them. The
-- lease of the frames outlasts that of the publisher by no more than the time between the readings.
pub is_alive-control :
    (trim : Bytes → Bytes) (now later ttl_ms at : ℕ) (captures enabled : Bool)
    (url room token codec : Option Bytes) (w h f b : Option ℕ) (s : SfuState)
    → let r = control trim now later captures enabled ttl_ms url room token codec w h f b s in
      (r.1 ≡ ok tt)
      → (is_alive at r.0.deadline_ms ≡ true → (enabled ≡ true) × (at ≤ now + 30000))
        × ((is_alive at r.0.stream_deadline_ms ≡ true → (enabled ≡ true) × (at ≤ later + 15000))
            × (r.0.stream_deadline_ms ≤ r.0.deadline_ms + (later - now)))
unfolding control start_publishing live_stream_deadline is_alive
is_alive-control trim now later ttl_ms at captures false url room token codec w h f b s =
    λ done. (λ alive. ground arith, (λ alive. ground arith, ground arith))
is_alive-control trim now later ttl_ms at captures true url room token codec w h f b s =
    elim (Result-cases (check_control trim url room token codec w h f b)) [
      | inl (e, bad) ↦ rw bad (λ done. absurd (ground arith))
      | inr (c, good) ↦ elim (Bool-cases captures) [
        | inl starts ↦
            rw (good, starts)
              (λ done. (λ alive. ground arith, (λ alive. ground arith, ground arith)))
        | inr fails ↦ rw (good, fails) (λ done. absurd (ground arith))
      ]
    ]
