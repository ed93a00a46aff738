-- ===== src/Recording/Rolling/Fresh.antt =====
-- recording.rs, `RollingCapture`: while encoders open and finish, no file is listed twice.
use yummi_lcu.Common.{
  ℕ, suc, ◌+◌, ◌-◌, ◌≤◌, ◌<◌, ◌≡◌, refl, subst, reverse, retain, inl, inr, true, false, not, ◌&&◌,
  List, [], ◌∷◌, ◌++◌, some, arith, length, leb, ltb, if◌then◌else◌, saturating_add, u64_max,
  Bool-cases, List-cases, All, ok,
}
use yummi_lcu.Common.Pigeons.{has}
use yummi_lcu.Recording.Rolling.{
  Segment, RollingCapture, Moment, max_buffer_duration, min_segment_duration, segment_duration,
  prune_loop, prune, then_prune, then_start, start_segment, commit_current_segment, rotate_segment,
  on_frame_arrived, reserve_export, reserve_segments, release_export, select_segments,
}
use yummi_lcu.Recording.Rolling.Kept.{Op, frame, reserve, close, release, step, run}

-- The segments are in the order of their numbers, and each has its own.
abbrev pub IsIncreasing : List Segment → Type 0
IsIncreasing [] = Unit {0}
IsIncreasing (s ∷ ss) = All (λ g. s.path < g.path) ss × IsIncreasing ss

-- The file that is being written comes after all that are listed, and the next number after it.
pub record IsFresh (s : RollingCapture) : Type 0 where
  pub writing : s.encoder ≡ true
  pub current : ℕ
  pub named : s.current_path ≡ some current
  pub ahead : current < s.next_index
  pub behind : All (λ g. g.path < current) s.segments
  pub increasing : IsIncreasing s.segments

All-below :
    (c n : ℕ) (ss : List Segment) → c ≤ n → All (λ g. g.path < c) ss → All (λ g. g.path < n) ss
All-below c n [] h k = tt
All-below c n (s ∷ ss) h (p, k) = (omega arith, All-below c n ss h k)

All-snoc :
    (P : Segment → Type 0) (ss : List Segment) (g : Segment) → All P ss → P g → All P (ss ++ g ∷ [])
All-snoc P [] g h p = (p, tt)
All-snoc P (s ∷ ss) g (q, h) p = (q, All-snoc P ss g h p)

IsIncreasing-snoc :
    (ss : List Segment) (g : Segment)
    → All (λ x. x.path < g.path) ss
    → IsIncreasing ss
    → IsIncreasing (ss ++ g ∷ [])
IsIncreasing-snoc [] g b i = (tt, tt)
IsIncreasing-snoc (s ∷ ss) g (p, b) (q, i) =
    (All-snoc (λ x. s.path < x.path) ss g q p, IsIncreasing-snoc ss g b i)

prune_loop-All :
    (P : Segment → Type 0) (total : ℕ) (protected : List ℕ) (ss : List Segment)
    → All P ss
    → All P (prune_loop total protected ss).0
unfolding prune_loop
prune_loop-All P total protected [] h = tt
prune_loop-All P total protected (s ∷ ss) (p, h) =
    elim (Bool-cases (ltb max_buffer_duration total && not (has s.path protected))) [
      | inl e ↦ rw e (prune_loop-All P (total - s.duration) protected ss h)
      | inr e ↦ rw e (p, h)
    ]

prune_loop-IsIncreasing :
    (total : ℕ) (protected : List ℕ) (ss : List Segment)
    → IsIncreasing ss
    → IsIncreasing (prune_loop total protected ss).0
unfolding prune_loop
prune_loop-IsIncreasing total protected [] h = tt
prune_loop-IsIncreasing total protected (s ∷ ss) (p, h) =
    elim (Bool-cases (ltb max_buffer_duration total && not (has s.path protected))) [
      | inl e ↦ rw e (prune_loop-IsIncreasing (total - s.duration) protected ss h)
      | inr e ↦ rw e (p, h)
    ]

prune-IsFresh : (s : RollingCapture) → IsFresh s → IsFresh (prune s)
unfolding prune
prune-IsFresh s f = record {
  writing = f.writing;
  current = f.current;
  named = f.named;
  ahead = f.ahead;
  behind = prune_loop-All _ _ s.protected s.segments f.behind;
  increasing = prune_loop-IsIncreasing _ s.protected s.segments f.increasing;
}

next_index-prune : (s : RollingCapture) → (prune s).next_index ≤ s.next_index
unfolding prune
next_index-prune s = omega arith

-- Encoders open and finish.
abbrev pub IsSmooth : Moment → Type 0
IsSmooth m = (m.opens ≡ true) × (m.finishes ≡ true)

-- The segments after a commit: the file that was being written joins them, or is too short.
committed : Moment → ℕ → List Segment → List Segment
committed m c ss =
    if leb min_segment_duration m.elapsed && m.written
    then ss ++ (record { path = c; duration = m.elapsed }) ∷ []
    else ss

-- A commit that finishes leaves these segments, whatever it deletes.
commit-smooth :
    (m : Moment) (s : RollingCapture) (c : ℕ)
    → m.finishes ≡ true
    → s.current_path ≡ some c
    → (removed : List ℕ) × (commit_current_segment m s ≡ (
      record s { encoder = false; segments = committed m c s.segments; removed = removed },
      ok tt,
    ))
unfolding commit_current_segment committed
commit-smooth m s c finishes named =
    elim (Bool-cases (leb min_segment_duration m.elapsed && m.written)) [
      | inl kept ↦ (s.removed, ground arith)
      | inr lost ↦ (c ∷ s.removed, ground arith)
    ]

start-smooth :
    (m : Moment) (s : RollingCapture)
    → m.opens ≡ true
    → s.next_index < u64_max
    → start_segment m s ≡ (
      record s { next_index = suc s.next_index; encoder = true; current_path = some s.next_index },
      ok tt,
    )
unfolding start_segment
start-smooth m s opens room =
    let counted : saturating_add s.next_index 1 ≡ suc s.next_index = omega arith in ground arith

committed-below :
    (m : Moment) (c n : ℕ) (ss : List Segment)
    → c < n
    → All (λ g. g.path < c) ss
    → All (λ g. g.path < n) (committed m c ss)
unfolding committed
committed-below m c n ss h k = elim (Bool-cases (leb min_segment_duration m.elapsed && m.written)) [
  | inl kept ↦ rw kept (All-snoc _ ss _ (All-below c n ss (omega arith) k) h)
  | inr lost ↦ rw lost (All-below c n ss (omega arith) k)
]

committed-IsIncreasing :
    (m : Moment) (c : ℕ) (ss : List Segment)
    → All (λ g. g.path < c) ss
    → IsIncreasing ss
    → IsIncreasing (committed m c ss)
unfolding committed
committed-IsIncreasing m c ss k i =
    elim (Bool-cases (leb min_segment_duration m.elapsed && m.written)) [
      | inl kept ↦ rw kept (IsIncreasing-snoc ss _ k i)
      | inr lost ↦ rw lost i
    ]

-- The state is fresh, and has counted at most one number more than `n`.
record IsFreshAfter (n : ℕ) (s : RollingCapture) : Type 0 where
  fresh : IsFresh s
  counted : s.next_index ≤ suc n

rotate-IsFresh :
    (m : Moment) (s : RollingCapture)
    → IsSmooth m
    → s.next_index < u64_max
    → IsFresh s
    → (t : RollingCapture) × ((rotate_segment m s ≡ (t, ok tt)) × IsFreshAfter s.next_index t)
unfolding rotate_segment then_prune then_start
rotate-IsFresh m s (opens, finishes) room f =
    let (removed, committed_eq) = commit-smooth m s f.current finishes f.named in
    let closed : RollingCapture = record s {
      encoder = false;
      segments = committed m f.current s.segments;
      removed = removed;
    } in
    let opened : RollingCapture = record closed {
      next_index = suc s.next_index;
      encoder = true;
      current_path = some s.next_index;
    } in
    let is_fresh : IsFresh opened = record {
      writing = refl;
      current = s.next_index;
      named = refl;
      ahead = omega arith;
      behind = committed-below m f.current s.next_index s.segments f.ahead f.behind;
      increasing = committed-IsIncreasing m f.current s.segments f.behind f.increasing;
    } in
    (
      prune opened,
      (
        ground (arith, committed_eq, start-smooth m closed opens room),
        record { fresh = prune-IsFresh opened is_fresh; counted = next_index-prune opened },
      ),
    )

reserve_segments-IsFreshAfter :
    (n requested : ℕ) (s : RollingCapture)
    → IsFreshAfter n s
    → IsFreshAfter n (reserve_segments requested (s, ok tt)).0
unfolding reserve_segments
reserve_segments-IsFreshAfter n requested s f =
    let paths = reverse (select_segments requested 0 (reverse s.segments)).0 in
    let after : RollingCapture = record s { protected = paths ++ s.protected } in
    let same : IsFreshAfter n after = record {
      fresh = record {
        writing = f.fresh.writing;
        current = f.fresh.current;
        named = f.fresh.named;
        ahead = f.fresh.ahead;
        behind = f.fresh.behind;
        increasing = f.fresh.increasing;
      };
      counted = f.counted;
    } in
    elim (List-cases s.segments) [
      | inl empty ↦ subst (IsFreshAfter n) (ground arith) f
      | inr (x, (xs, listed)) ↦ subst (IsFreshAfter n) (ground arith) same
    ]

on_frame_arrived-IsFreshAfter :
    (m : Moment) (s : RollingCapture)
    → IsSmooth m
    → s.next_index < u64_max
    → IsFresh s
    → IsFreshAfter s.next_index (on_frame_arrived m s).0
unfolding on_frame_arrived
on_frame_arrived-IsFreshAfter m s smooth room f =
    elim (Bool-cases (leb segment_duration m.elapsed)) [
      | inl due ↦
          let (t, (rotated, after)) = rotate-IsFresh m s smooth room f in rw (due, rotated) after
      | inr early ↦ rw early (record { fresh = f; counted = omega arith })
    ]

reserve_export-IsFreshAfter :
    (m : Moment) (requested : ℕ) (s : RollingCapture)
    → IsSmooth m
    → s.next_index < u64_max
    → IsFresh s
    → IsFreshAfter s.next_index (reserve_export m requested s).0
unfolding reserve_export
reserve_export-IsFreshAfter m requested s smooth room f =
    elim (Bool-cases (s.encoder && leb min_segment_duration m.elapsed)) [
      | inl due ↦
          let (t, (rotated, after)) = rotate-IsFresh m s smooth room f in
          rw (due, rotated) (reserve_segments-IsFreshAfter s.next_index requested t after)
      | inr early ↦ rw early (
          reserve_segments-IsFreshAfter s.next_index requested s
            (record { fresh = f; counted = omega arith }))
    ]

release_export-IsFreshAfter :
    (paths : List ℕ) (s : RollingCapture)
    → IsFresh s
    → IsFreshAfter s.next_index (release_export paths s)
unfolding release_export
release_export-IsFreshAfter paths s f =
    let kept : RollingCapture = record s {
      protected = retain (λ p. not (has p paths)) s.protected;
    } in
    let same : IsFresh kept = record {
      writing = f.writing;
      current = f.current;
      named = f.named;
      ahead = f.ahead;
      behind = f.behind;
      increasing = f.increasing;
    } in
    record { fresh = prune-IsFresh kept same; counted = omega (arith, next_index-prune kept) }

-- The step goes on capturing, and its encoders open and finish.
abbrev pub GoesOn : Op → Type 0
GoesOn (frame m) = IsSmooth m
GoesOn (reserve m requested) = IsSmooth m
GoesOn (close m) = ⊥
GoesOn (release paths) = Unit {0}

step-IsFreshAfter :
    (s : RollingCapture) (op : Op)
    → GoesOn op
    → s.next_index < u64_max
    → IsFresh s
    → IsFreshAfter s.next_index (step s op)
unfolding step
step-IsFreshAfter s (frame m) g room f = on_frame_arrived-IsFreshAfter m s g room f
step-IsFreshAfter s (reserve m requested) g room f =
    reserve_export-IsFreshAfter m requested s g room f
step-IsFreshAfter s (close m) g room f = absurd g
step-IsFreshAfter s (release paths) g room f = release_export-IsFreshAfter paths s f

-- While the capture goes on and its encoders open and finish, the segments of the buffer stay in order
-- of time, no file is listed twice, and the file that is being written is none of them.
pub run-IsFresh :
    (ops : List Op) (s : RollingCapture)
    → All GoesOn ops
    → s.next_index + length ops ≤ u64_max
    → IsFresh s
    → IsFresh (run s ops)
unfolding run
run-IsFresh [] s g room f = f
run-IsFresh (op ∷ ops) s (on, g) room f =
    let after = step-IsFreshAfter s op on (omega arith) f in
    run-IsFresh ops (step s op) g (omega (arith, after.counted)) after.fresh
