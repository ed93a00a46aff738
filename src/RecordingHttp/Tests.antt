-- ===== src/RecordingHttp/Tests.antt =====
-- A part of a small file, and the theorems at it.
use yummi_lcu.Common.{
  ◌≡◌, refl, true, [], ◌∷◌, none, some, arith, length, Bytes, codes, is_ascii_digit, All,
}
use yummi_lcu.Updater.{parse_u64, parse_digits, digits_value, strip_prefix}
use yummi_lcu.RecordingHttp.{
  Head, Turn, split_dash, range_end, check_range, parse_range, head_of, send_loop, serve_video,
}
use yummi_lcu.RecordingHttp.Ranges.{
  IsInside, IsPart, IsGood, serve_video-IsPart, length-serve_video,
}

abbrev file : Bytes
file = codes "0123456789"

abbrev turn : Turn
turn = record { read = some 2; written = true }

abbrev head : Head
head = record { start = 4; length = 3; partial = true }

served :
    serve_video file (some (codes "bytes=4-6")) (turn ∷ turn ∷ turn ∷ []) ≡ some (head, codes "456")
unfolding serve_video head_of parse_range check_range range_end split_dash send_loop parse_u64
    parse_digits digits_value strip_prefix is_ascii_digit
served = refl

-- A range that starts behind the end gives the whole file.
behind_the_end : parse_range 10 (some (codes "bytes=10-")) ≡ none
unfolding parse_range check_range range_end split_dash parse_u64 parse_digits digits_value
    strip_prefix is_ascii_digit
behind_the_end = refl

serve_video-IsPart_example :
    IsInside (length file) head × IsPart file head.start head.length (codes "456")
serve_video-IsPart_example =
    serve_video-IsPart file (some (codes "bytes=4-6")) (turn ∷ turn ∷ turn ∷ []) head (codes "456")
      served

good : All IsGood (turn ∷ turn ∷ turn ∷ [])
good = (
  (2, (omega arith, (refl, refl))),
  ((2, (omega arith, (refl, refl))), ((2, (omega arith, (refl, refl))), tt)),
)

length-serve_video_example : length (codes "456") ≡ head.length
length-serve_video_example =
    length-serve_video file (some (codes "bytes=4-6")) (turn ∷ turn ∷ turn ∷ []) head (codes "456")
      served good (omega arith)
