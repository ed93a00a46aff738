-- ===== src/Recording/Rolling/Prune.antt =====
-- recording.rs, `RollingCapture::prune`: what stays in the buffer, and that nothing reserved is lost.
use yummi_lcu.Common.{
  ℕ, ◌+◌, ◌-◌, ◌≤◌, ◌≡◌, refl, inl, inr, false, ◌||◌, List, [], ◌∷◌, arith, leb, if◌then◌else◌,
  Bool-cases, All,
}
use yummi_lcu.Common.Pigeons.{has}
use yummi_lcu.Recording.Rolling.{
  Segment, RollingCapture, max_buffer_duration, duration_max, add_duration, total_duration,
  prune_loop, prune,
}

-- The length of the segments together.
unfoldable pub sum : List Segment → ℕ
sum [] = 0
sum (s ∷ ss) = s.duration + sum ss

total_duration-sum :
    (a : ℕ) (ss : List Segment) → a + sum ss ≤ duration_max → total_duration a ss ≡ a + sum ss
unfolding total_duration sum
total_duration-sum a [] h = omega arith
total_duration-sum a (s ∷ ss) h =
    let added : add_duration a s.duration ≡ a + s.duration = omega arith in
    rw added (omega (arith, total_duration-sum (a + s.duration) ss (omega arith)))

-- The segments that the buffer is meant to keep: the newest that fit into 75 seconds, or that follow a
-- protected one.
pub recent : List ℕ → List Segment → List Segment
recent protected [] = []
recent protected (s ∷ ss) =
    if leb (sum (s ∷ ss)) max_buffer_duration || has s.path protected
    then s ∷ ss
    else recent protected ss

prune_loop-recent :
    (protected : List ℕ) (ss : List Segment)
    → (prune_loop (sum ss) protected ss).0 ≡ recent protected ss
unfolding prune_loop recent sum
prune_loop-recent protected [] = refl
prune_loop-recent protected (s ∷ ss) =
    let less : (s.duration + sum ss) - s.duration ≡ sum ss = omega arith in
    elim (Bool-cases (leb (s.duration + sum ss) max_buffer_duration || has s.path protected)) [
      | inl stays ↦ ground arith
      | inr goes ↦ rw less (ground (arith, prune_loop-recent protected ss))
    ]

-- The running total of `prune` gives what recomputing the length at every step would give, as long as
-- the lengths together do not exceed the largest duration.
pub prune-recent :
    (s : RollingCapture)
    → sum s.segments ≤ duration_max
    → (prune s).segments ≡ recent s.protected s.segments
unfolding prune
prune-recent s h =
    let whole : total_duration 0 s.segments ≡ sum s.segments =
      omega (arith, total_duration-sum 0 s.segments (omega arith)) in
    rw whole (prune_loop-recent s.protected s.segments)

sum-recent :
    (ss : List Segment) (protected : List ℕ)
    → All (λ s. has s.path protected ≡ false) ss
    → sum (recent protected ss) ≤ max_buffer_duration
unfolding recent sum
sum-recent [] protected h = omega arith
sum-recent (s ∷ ss) protected (free, h) = ground (arith, sum-recent ss protected h)

-- Where nothing in it is reserved, a pruned buffer is at most 75 seconds long.
pub sum-prune :
    (s : RollingCapture)
    → sum s.segments ≤ duration_max
    → All (λ g. has g.path s.protected ≡ false) s.segments
    → sum (prune s).segments ≤ max_buffer_duration
sum-prune s h free = rw (prune-recent s h) (sum-recent s.segments s.protected free)
