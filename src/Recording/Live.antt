-- ===== src/Recording/Live.antt =====
-- recording.rs, the limits of the live stream and the leases of the preview and the stream;
-- live_sfu.rs, `control`, which starts and stops publishing it. Times are milliseconds. A release build
-- is modelled, so `validate_url` takes `wss://` only. `str::trim` is a parameter.
pub mod Lease
mod Tests
use yummi_lcu.Common.{
  ℕ, suc, ◌+◌, ◌%◌, min, max, Bool, true, false, not, ◌&&◌, ◌||◌, List, [], ◌∷◌, Option, none, some,
  length, all, leb, ltb, ◌==◌, if◌then◌else◌, Bytes, codes, text_eq, is_ascii, unwrap_or,
  is_some_and, saturating_add, u64_max, Result, ok, err, ◌>>=◌, ◌>>◌, guard, ok_or,
}
use yummi_lcu.Relay.Protocol.{is_empty, is_outside, is_odd}

pub record LiveStreamConfig : Type 0 where
  pub max_width : ℕ
  pub max_height : ℕ
  pub fps : ℕ
  pub bitrate : ℕ

pub data SfuError : Type 0 where
  no_url no_room no_token bad_settings bad_codec bad_quality capture_failed : SfuError

-- `LiveStreamConfig::default`
abbrev pub default_config : LiveStreamConfig
default_config = record { max_width = 1280; max_height = 720; fps = 15; bitrate = 3000000 }

-- `LiveStreamConfig::new`
unfoldable pub new_config : ℕ → ℕ → ℕ → ℕ → Result SfuError LiveStreamConfig
new_config max_width max_height fps bitrate =
    if is_outside 640 2560 max_width
      || (is_outside 360 1440 max_height
          || (is_odd max_width
              || (is_odd max_height
                  || (is_outside 10 60 fps || is_outside 500000 20000000 bitrate))))
    then err bad_quality
    else ok
        (record { max_width = max_width; max_height = max_height; fps = fps; bitrate = bitrate })

abbrev pub clamp : ℕ → ℕ → ℕ → ℕ
clamp lo hi v = min hi (max lo v)

-- `set_live_preview_enabled`, `set_live_stream_enabled`: the deadline that is stored.
unfoldable pub live_preview_deadline : ℕ → Bool → ℕ → ℕ
live_preview_deadline now enabled ttl_ms =
    if enabled then saturating_add now (clamp 500 10000 ttl_ms) else 0

unfoldable pub live_stream_deadline : ℕ → Bool → ℕ → ℕ
live_stream_deadline now enabled ttl_ms =
    if enabled then saturating_add now (clamp 1000 15000 ttl_ms) else 0

-- `live_preview_requested`, `live_stream_requested`, `lease_alive`.
unfoldable pub is_alive : ℕ → ℕ → Bool
is_alive now deadline = ltb 0 deadline && leb now deadline

pub data VideoCodec : Type 0 where
  h264 av1 : VideoCodec

unfoldable pub parse_codec : Option Bytes → Result SfuError VideoCodec
parse_codec value =
    let name = unwrap_or value (codes "h264") in
    if text_eq name (codes "h264")
    then ok h264
    else if text_eq name (codes "av1")
    then ok av1
    else err bad_codec

unfoldable pub starts_with : Bytes → Bytes → Bool
starts_with [] s = true
starts_with (p ∷ ps) [] = false
starts_with (p ∷ ps) (c ∷ s) = p == c && starts_with ps s

unfoldable pub validate_url : (Bytes → Bytes) → Bytes → Bool
validate_url trim value =
    let v = trim value in
    not (is_empty v) && (leb (length v) 2048 && (all is_ascii v && starts_with (codes "wss://") v))

pub record SfuConfig : Type 0 where
  pub url : Bytes
  pub token : Bytes
  pub codec : VideoCodec
  pub stream : LiveStreamConfig

-- The statics of live_sfu.rs, the stream's deadline of recording.rs, and whether a publisher runs.
pub record SfuState : Type 0 where
  pub deadline_ms : ℕ
  pub stream_deadline_ms : ℕ
  pub stream_generation : ℕ
  pub config : Option SfuConfig
  pub publishing : Bool

unfoldable pub same_config : LiveStreamConfig → LiveStreamConfig → Bool
same_config a b =
    a.max_width == b.max_width
    && (a.max_height == b.max_height && (a.fps == b.fps && a.bitrate == b.bitrate))

-- The checks of `control`, up to the first change of state.
unfoldable pub check_control :
    (Bytes → Bytes)
    → (url room token codec : Option Bytes) → (width height fps bitrate : Option ℕ)
    → Result SfuError SfuConfig
check_control trim url room token codec width height fps bitrate = ok_or url no_url >>= λ u.
    ok_or room no_room >>= λ r. ok_or token no_token >>= λ t.
    guard
      (validate_url trim u
        && (not (is_empty r)
            && (leb (length r) 128
                && (all is_ascii r
                    && (leb 32 (length t) && (leb (length t) 8192 && all is_ascii t))))))
      bad_settings
    >> (parse_codec codec >>= λ c.
        new_config (unwrap_or width default_config.max_width)
          (unwrap_or height default_config.max_height) (unwrap_or fps default_config.fps)
          (unwrap_or bitrate default_config.bitrate)
        >>= λ stream. ok (record { url = u; token = t; codec = c; stream = stream }))

-- `fetch_add` on an `AtomicU64`.
abbrev pub next_generation : ℕ → ℕ
next_generation g = (g + 1) % (u64_max + 1)

-- The rest of `control`. The clock is read for the publisher's deadline (`now`) and again for that of
-- the frames (`later`); `captures` says whether the capture starts.
unfoldable pub start_publishing :
    (now later : ℕ)
    → (captures : Bool) → ℕ
    → Result SfuError SfuConfig
    → SfuState
    → SfuState × Result SfuError (Unit {0})
start_publishing now later captures ttl_ms (err e) s = (s, err e)
start_publishing now later captures ttl_ms (ok config) s =
    let ttl = clamp 1000 30000 ttl_ms in
    let leased : SfuState = record s {
      deadline_ms = saturating_add now ttl;
      stream_deadline_ms = live_stream_deadline later true ttl;
    } in
    let changed = is_some_and s.config (λ c. not (same_config c.stream config.stream)) in
    if captures
    then (
      record leased {
        config = some config;
        stream_generation =
            if changed then next_generation s.stream_generation else s.stream_generation;
        publishing = true;
      },
      ok tt,
    )
    else (leased, err capture_failed)

unfoldable pub control :
    (Bytes → Bytes)
    → (now later : ℕ) → (captures enabled : Bool) → (ttl_ms : ℕ)
    → (url room token codec : Option Bytes) → (width height fps bitrate : Option ℕ) → SfuState
    → SfuState × Result SfuError (Unit {0})
control trim now later captures enabled ttl_ms url room token codec width height fps bitrate s =
    if enabled
    then start_publishing now later captures ttl_ms
        (check_control trim url room token codec width height fps bitrate) s
    else (
      record s {
        deadline_ms = 0;
        stream_deadline_ms = live_stream_deadline later false 1000;
        stream_generation = next_generation s.stream_generation;
      },
      ok tt,
    )
