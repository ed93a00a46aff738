-- ===== src/RecordingHttp/Ranges.antt =====
-- recording_http.rs, `serve_video`: the range lies in the file, and what is sent is a part of it.
use yummi_lcu.Common.{
  ℕ, zero, suc, ◌+◌, ◌-◌, ◌≤◌, ◌<◌, min, ◌≡◌, refl, sym, ap, subst, ◌∙◌, inl, inr, true, false, not,
  ◌||◌, List, [], ◌∷◌, ◌++◌, Option, none, some, arith, length, take, drop, length-take,
  length-drop, length-append, ◌==◌, Bytes, codes, Bool-cases, Option-cases, All,
}
use yummi_lcu.Relay.Protocol.{is_empty}
use yummi_lcu.RecordingHttp.{
  Head, Turn, chunk_bytes, range_end, check_range, parse_range, head_of, send_loop, serve_video,
  split_dash,
}
use yummi_lcu.Updater.{parse_u64, strip_prefix}

-- The head of an answer announces a part of the file.
abbrev pub IsInside : ℕ → Head → Type 0
IsInside total h = (1 ≤ h.length) × (h.start + h.length ≤ total)

range_end-lt :
    (total : ℕ) (s : Bytes) (end : ℕ) → 1 ≤ total → range_end total s ≡ some end → end < total
unfolding range_end
range_end-lt total s end h r = elim (Option-cases (parse_u64 s)) [
  | inl bad ↦ ground arith
  | inr (n, read) ↦ ground arith
]

check_range-inside :
    (total : ℕ) (a b : Option ℕ) (r : ℕ × ℕ)
    → ((end : ℕ) → b ≡ some end → end < total)
    → check_range total a b ≡ some r
    → (r.0 ≤ r.1) × (r.1 < total)
unfolding check_range
check_range-inside total none b r k h = absurd (ground arith)
check_range-inside total (some start) none r k h = absurd (ground arith)
check_range-inside total (some start) (some end) r k h = ground (arith, k end refl)

parse_range-inside :
    (total : ℕ) (range : Option Bytes) (r : ℕ × ℕ)
    → 1 ≤ total
    → parse_range total range ≡ some r
    → (r.0 ≤ r.1) × (r.1 < total)
unfolding parse_range
parse_range-inside total none r h k = absurd (ground arith)
parse_range-inside total (some s) r h k = elim (Option-cases (strip_prefix (codes "bytes=") s)) [
  | inl bad ↦ absurd (ground arith)
  | inr (value, found) ↦ elim (Option-cases (split_dash value)) [
    | inl bad ↦ absurd (ground arith)
    | inr (parts, cut) ↦
        check_range-inside total (parse_u64 parts.0) (range_end total parts.1) r
          (λ end e. range_end-lt total parts.1 end h e) (ground arith)
  ]
]

head_of-IsInside :
    (total : ℕ) (range : Option Bytes)
    → 1 ≤ total
    → IsInside total (head_of total (parse_range total range))
unfolding head_of
head_of-IsInside total range h = elim (Option-cases (parse_range total range)) [
  | inl whole ↦ rw whole (omega arith, omega arith)
  | inr (r, part) ↦
      let inside = parse_range-inside total range r h part in
      rw part (omega arith, omega (arith, inside.0, inside.1))
]

take-append-take :
    (n m : ℕ) (ys : Bytes)
    → take n ys ++ take m (drop (length (take n ys)) ys) ≡ take (length (take n ys) + m) ys
take-append-take zero m ys = let e : 0 + m ≡ m = omega arith in rw e refl
take-append-take (suc n) m [] = let e : 0 + m ≡ m = omega arith in rw e refl
take-append-take (suc n) m (y ∷ ys) =
    let e : suc (length (take n ys)) + m ≡ suc (length (take n ys) + m) = omega arith in
    rw e (ap (λ l. y ∷ l) (take-append-take n m ys))

drop-drop : (p n : ℕ) (xs : Bytes) → drop (p + n) xs ≡ drop n (drop p xs)
drop-drop zero n xs = let e : 0 + n ≡ n = omega arith in rw e refl
drop-drop (suc p) zero [] = let e : suc p + 0 ≡ suc p = omega arith in rw e refl
drop-drop (suc p) (suc n) [] = let e : suc p + suc n ≡ suc (p + suc n) = omega arith in rw e refl
drop-drop (suc p) n (x ∷ xs) =
    let e : suc p + n ≡ suc (p + n) = omega arith in rw e (drop-drop p n xs)

-- The bytes are those of the file from `position` on, at most `limit` of them.
abbrev pub IsPart : Bytes → ℕ → ℕ → Bytes → Type 0
IsPart file position limit sent = (k : ℕ) × ((k ≤ limit) × (sent ≡ take k (drop position file)))

send_loop-IsPart :
    (file : Bytes) (ts : List Turn) (position remaining : ℕ)
    → IsPart file position remaining (send_loop file ts position remaining)
unfolding send_loop
send_loop-IsPart file [] position remaining = (0, (omega arith, refl))
send_loop-IsPart file (t ∷ ts) position remaining = elim (Option-cases t.read) [
  | inl failed ↦ rw failed (0, (omega arith, refl))
  | inr (n, answered) ↦
      let ys = drop position file in
      let chunk = take (min n (min remaining chunk_bytes)) ys in
      elim (Bool-cases (remaining == 0 || (is_empty chunk || not t.written))) [
        | inl ends ↦ rw (answered, ends) (0, (omega arith, refl))
        | inr goes_on ↦
            let (k, (bounded, rest)) =
              send_loop-IsPart file ts (position + length chunk) (remaining - length chunk) in
            rw (answered, goes_on)
              (
                length chunk + k,
                (
                  omega (arith, length-take (min n (min remaining chunk_bytes)) ys, bounded),
                  ap (λ l. chunk ++ l) (rest ∙ ap (take k) (drop-drop position (length chunk) file))
                      ∙ take-append-take (min n (min remaining chunk_bytes)) k ys,
                ),
              )
      ]
]

-- For a file that is not empty, whatever range is asked for and however the reads and writes go, the
-- head announces at least one byte and only bytes of the file, and what is sent is the file from the
-- announced start on, never more than was announced.
pub serve_video-IsPart :
    (file : Bytes) (range : Option Bytes) (turns : List Turn) (head : Head) (sent : Bytes)
    → serve_video file range turns ≡ some (head, sent)
    → IsInside (length file) head × IsPart file head.start head.length sent
unfolding serve_video
serve_video-IsPart file range turns head sent h =
    let made = head_of (length file) (parse_range (length file) range) in
    elim (Bool-cases (length file == 0)) [
      | inl empty ↦ absurd (ground arith)
      | inr full ↦
          let heads : made ≡ head = ground arith in
          let sends : send_loop file turns made.start made.length ≡ sent = ground arith in
          (
            subst (IsInside (length file)) heads
                (head_of-IsInside (length file) range (ground arith)),
            subst (λ d. IsPart file d.start d.length sent) heads
                (subst (IsPart file made.start made.length) sends
                  (send_loop-IsPart file turns made.start made.length)),
          )
    ]

-- A read that yields something, and a write that succeeds.
abbrev pub IsGood : Turn → Type 0
IsGood t = (n : ℕ) × ((1 ≤ n) × ((t.read ≡ some n) × (t.written ≡ true)))

not_empty : (s : Bytes) → 1 ≤ length s → is_empty s ≡ false
not_empty [] h = absurd (omega arith)
not_empty (c ∷ s) h = refl

length-send_loop :
    (file : Bytes) (ts : List Turn) (position remaining : ℕ)
    → All IsGood ts
    → position + remaining ≤ length file
    → remaining ≤ length ts
    → length (send_loop file ts position remaining) ≡ remaining
unfolding send_loop
length-send_loop file [] position remaining good fits enough = omega arith
length-send_loop file (t ∷ ts) position remaining ((n, (some_read, (answered, wrote))), good) fits
      enough =
    let wanted = min remaining chunk_bytes in
    let chunk = take (min n wanted) (drop position file) in
    let size : length chunk ≡ min (min n wanted) (length file - position) =
      omega (arith, length-take (min n wanted) (drop position file), length-drop position file) in
    elim (Bool-cases (remaining == 0)) [
      | inl done ↦ rw (answered, done) (ground arith)
      | inr left ↦
          let some_left : 1 ≤ remaining = ground arith in
          let filled : is_empty chunk ≡ false = not_empty chunk (omega (arith, size)) in
          rw (answered, left, filled, wrote)
            (omega (
              arith,
              size,
              length-append chunk
                  (send_loop file ts (position + length chunk) (remaining - length chunk)),
              length-send_loop file ts (position + length chunk) (remaining - length chunk) good
                  (omega (arith, size)) (omega (arith, size)),
            ))
    ]

-- If every read yields something and every write succeeds, the loop ends having sent as many bytes as
-- the head announced, after at most as many turns as bytes.
pub length-serve_video :
    (file : Bytes) (range : Option Bytes) (turns : List Turn) (head : Head) (sent : Bytes)
    → serve_video file range turns ≡ some (head, sent)
    → All IsGood turns
    → head.length ≤ length turns
    → length sent ≡ head.length
unfolding serve_video
length-serve_video file range turns head sent h good enough =
    let made = head_of (length file) (parse_range (length file) range) in
    elim (Bool-cases (length file == 0)) [
      | inl empty ↦ absurd (ground arith)
      | inr full ↦
          let heads : made ≡ head = ground arith in
          let sends : send_loop file turns made.start made.length ≡ sent = ground arith in
          let inside = head_of-IsInside (length file) range (ground arith) in
          ap length (sym sends)
          ∙ length-send_loop file turns made.start made.length good inside.1
              (omega (arith, ap (λ (d : Head). d.length) heads))
          ∙ ap (λ (d : Head). d.length) heads
    ]
