-- ===== src/RecordingHttp.antt =====
-- recording_http.rs: which pages may read recordings, and the part of a video that `serve_video` sends.
-- Texts are bytes; `str::trim` is a parameter. The file is its bytes; what each read of it yields is one
-- of the answers that the loop takes.
pub mod Ranges
mod Tests
use yummi_lcu.Common.{
  ℕ, suc, ◌+◌, ◌-◌, ◌<◌, min, Bool, true, false, not, ◌&&◌, ◌||◌, List, [], ◌∷◌, ◌++◌, Option, none,
  some, length, take, drop, any, leb, ltb, ◌==◌, if◌then◌else◌, Bytes, codes, text_eq, and_then,
}
use yummi_lcu.Updater.{parse_u64, strip_prefix}
use yummi_lcu.Relay.Protocol.{is_empty}

abbrev pub chunk_bytes : ℕ
chunk_bytes = 65536

unfoldable pub allowed_origin : (Bytes → Bytes) → Option Bytes → Option Bytes
allowed_origin trim none = none
allowed_origin trim (some given) =
    let origin = trim given in
    if any (text_eq origin) (
      codes "https://yummi.duckdns.org"
      ∷ codes "tauri://localhost"
      ∷ codes "http://tauri.localhost"
      ∷ codes "https://tauri.localhost"
      ∷ codes "http://localhost:3000"
      ∷ codes "http://localhost:5173"
      ∷ codes "http://localhost:1420"
      ∷ codes "http://127.0.0.1:3000"
      ∷ codes "http://127.0.0.1:5173"
      ∷ codes "http://127.0.0.1:1420"
      ∷ [])
    then some origin
    else none

abbrev pub prepend : ℕ → Option (Bytes × Bytes) → Option (Bytes × Bytes)
prepend c none = none
prepend c (some (a, b)) = some (c ∷ a, b)

-- `split_once('-')`
unfoldable pub split_dash : Bytes → Option (Bytes × Bytes)
split_dash [] = none
split_dash (c ∷ s) = if c == b'-' then some ([], s) else prepend c (split_dash s)

-- The end of a range: the last byte where none is given, and never beyond it.
unfoldable pub range_end : ℕ → Bytes → Option ℕ
range_end total end_text =
    if is_empty end_text
    then some (total - 1)
    else and_then (parse_u64 end_text) (λ end. some (min end (total - 1)))

unfoldable pub check_range : ℕ → Option ℕ → Option ℕ → Option (ℕ × ℕ)
check_range total (some start) (some end) =
    if leb start end && ltb start total then some (start, end) else none
check_range total _ _ = none

unfoldable pub parse_range : ℕ → Option Bytes → Option (ℕ × ℕ)
parse_range total range = and_then (and_then range (strip_prefix (codes "bytes="))) (λ value.
    and_then (split_dash value)
      (λ parts. check_range total (parse_u64 parts.0) (range_end total parts.1)))

-- The head of the answer: where it starts, its length, and whether it is a part.
pub record Head : Type 0 where
  pub start : ℕ
  pub length : ℕ
  pub partial : Bool

unfoldable pub head_of : ℕ → Option (ℕ × ℕ) → Head
head_of total none = record { start = 0; length = total - 1 - 0 + 1; partial = false }
head_of total (some (start, end)) = record {
  start = start;
  length = end - start + 1;
  partial = true;
}

-- One turn of the loop: the read fails, or yields at most `n` bytes, and the write fails or not. What a
-- failed write may have sent is left out.
pub record Turn : Type 0 where
  pub read : Option ℕ
  pub written : Bool

-- The bytes that reach the client. The turns after the given ones do not happen.
unfoldable pub send_loop : Bytes → List Turn → (position remaining : ℕ) → Bytes
send_loop file [] position remaining = []
send_loop file (t ∷ ts) position remaining =
    let wanted = min remaining chunk_bytes in
    elim t.read [
      | none ↦ []
      | some n ↦
          let chunk = take (min n wanted) (drop position file) in
          let rest = send_loop file ts (position + length chunk) (remaining - length chunk) in
          if remaining == 0 || (is_empty chunk || not t.written) then [] else chunk ++ rest
    ]

-- `serve_video` once the file is open: `none` is an empty file.
unfoldable pub serve_video : Bytes → Option Bytes → List Turn → Option (Head × Bytes)
serve_video file range turns =
    let head = head_of (length file) (parse_range (length file) range) in
    if length file == 0 then none else some (head, send_loop file turns head.start head.length)
