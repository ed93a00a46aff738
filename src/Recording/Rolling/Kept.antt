-- ===== src/Recording/Rolling/Kept.antt =====
-- recording.rs, `RollingCapture::prune`: nothing that is reserved for an export is lost.
use yummi_lcu.Common.{
  ℕ, ◌-◌, ◌≡◌, refl, ap, ◌⊎◌, inl, inr, Bool, true, false, not, ◌&&◌, List, [], ◌∷◌, ◌++◌, arith,
  leb, ltb, ◌==◌, retain, Bool-cases, Option-cases, List-cases, All, Result, ok, err,
}
use yummi_lcu.Common.Pigeons.{has}
use yummi_lcu.Recording.Rolling.{
  Segment, RollingCapture, Moment, CaptureError, max_buffer_duration, min_segment_duration,
  segment_duration, prune_loop, prune, then_prune, then_start, start_segment,
  commit_current_segment, rotate_segment, on_frame_arrived, reserve_export, reserve_segments,
  release_export, on_closed,
}

-- The segment is in the buffer.
abbrev pub IsHeld : Segment → List Segment → Type 0
IsHeld g [] = ⊥
IsHeld g (s ∷ ss) = (s ≡ g) ⊎ IsHeld g ss

IsHeld-append : (g : Segment) (ss ts : List Segment) → IsHeld g ss → IsHeld g (ss ++ ts)
IsHeld-append g [] ts h = absurd h
IsHeld-append g (s ∷ ss) ts (inl p) = inl p
IsHeld-append g (s ∷ ss) ts (inr h) = inr (IsHeld-append g ss ts h)

prune_loop-IsHeld :
    (g : Segment) (total : ℕ) (protected : List ℕ) (ss : List Segment)
    → has g.path protected ≡ true
    → IsHeld g ss
    → IsHeld g (prune_loop total protected ss).0
unfolding prune_loop
prune_loop-IsHeld g total protected [] k h = absurd h
prune_loop-IsHeld g total protected (s ∷ ss) k h =
    elim (Bool-cases (ltb max_buffer_duration total && not (has s.path protected))) [
      | inr stays ↦ rw stays h
      | inl goes ↦ elim h [
        | inl same ↦ absurd (ground (arith, ap (λ x. has x.path protected) same))
        | inr later ↦ rw goes (prune_loop-IsHeld g (total - s.duration) protected ss k later)
      ]
    ]

-- The segment is reserved for an export, and in the buffer.
pub record IsReserved (g : Segment) (s : RollingCapture) : Type 0 where
  pub protected : has g.path s.protected ≡ true
  pub held : IsHeld g s.segments

prune-IsReserved : (g : Segment) (s : RollingCapture) → IsReserved g s → IsReserved g (prune s)
unfolding prune
prune-IsReserved g s r = record {
  protected = r.protected;
  held = prune_loop-IsHeld g _ s.protected s.segments r.protected r.held;
}

start-IsReserved :
    (g : Segment) (m : Moment) (s : RollingCapture)
    → IsReserved g s
    → IsReserved g (start_segment m s).0
unfolding start_segment
start-IsReserved g m s r = elim (Bool-cases m.opens) [
  | inl e ↦ rw e (record { protected = r.protected; held = r.held })
  | inr e ↦ rw e (record { protected = r.protected; held = r.held })
]

commit-IsReserved :
    (g : Segment) (m : Moment) (s : RollingCapture)
    → IsReserved g s
    → IsReserved g (commit_current_segment m s).0
unfolding commit_current_segment
commit-IsReserved g m s r = elim (Bool-cases (s.encoder && not m.finishes)) [
  | inl e ↦ rw e (record { protected = r.protected; held = r.held })
  | inr e ↦ elim (Option-cases s.current_path) [
    | inl p ↦ rw (e, p) (record { protected = r.protected; held = r.held })
    | inr (path, p) ↦ elim (Bool-cases (leb min_segment_duration m.elapsed && m.written)) [
      | inl w ↦
          rw (e, p, w)
            (record { protected = r.protected; held = IsHeld-append g s.segments _ r.held })
      | inr w ↦ rw (e, p, w) (record { protected = r.protected; held = r.held })
    ]
  ]
]

then_start-IsReserved :
    (g : Segment) (m : Moment) (r : RollingCapture × Result CaptureError (Unit {0}))
    → IsReserved g r.0
    → IsReserved g (then_start m r).0
unfolding then_start
then_start-IsReserved g m (s, ok u) h = start-IsReserved g m s h
then_start-IsReserved g m (s, err e) h = h

then_prune-IsReserved :
    (g : Segment) (r : RollingCapture × Result CaptureError (Unit {0}))
    → IsReserved g r.0
    → IsReserved g (then_prune r).0
unfolding then_prune
then_prune-IsReserved g (s, ok u) h = prune-IsReserved g s h
then_prune-IsReserved g (s, err e) h = h

rotate-IsReserved :
    (g : Segment) (m : Moment) (s : RollingCapture)
    → IsReserved g s
    → IsReserved g (rotate_segment m s).0
unfolding rotate_segment
rotate-IsReserved g m s r =
    then_prune-IsReserved g _ (then_start-IsReserved g m _ (commit-IsReserved g m s r))

has-append_right : (n : ℕ) (xs ys : List ℕ) → has n ys ≡ true → has n (xs ++ ys) ≡ true
has-append_right n [] ys h = h
has-append_right n (x ∷ xs) ys h = ground (arith, has-append_right n xs ys h)

reserve_segments-IsReserved :
    (g : Segment) (requested : ℕ) (s : RollingCapture) (r : Result CaptureError (Unit {0}))
    → IsReserved g s
    → IsReserved g (reserve_segments requested (s, r)).0
unfolding reserve_segments
reserve_segments-IsReserved g requested s (err e) h = h
reserve_segments-IsReserved g requested s (ok u) h = elim (List-cases s.segments) [
  | inl none_held ↦ rw none_held (record { protected = h.protected; held = rw none_held at h.held })
  | inr (x, (xs, some_held)) ↦ rw some_held (record {
    protected = has-append_right g.path _ s.protected h.protected;
    held = rw some_held at h.held;
  })
]

-- One step of the capture.
pub data Op : Type 0 where
  frame : Moment → Op
  reserve : Moment → ℕ → Op
  close : Moment → Op
  release : List ℕ → Op

unfoldable pub step : RollingCapture → Op → RollingCapture
step s (frame m) = (on_frame_arrived m s).0
step s (reserve m requested) = (reserve_export m requested s).0
step s (close m) = (on_closed m s).0
step s (release paths) = release_export paths s

unfoldable pub run : RollingCapture → List Op → RollingCapture
run s [] = s
run s (op ∷ ops) = run (step s op) ops

-- The step does not release the segment.
abbrev pub Spares : Segment → Op → Type 0
Spares g (release paths) = has g.path paths ≡ false
Spares g _ = Unit {0}

has-retain :
    (n : ℕ) (p : ℕ → Bool) (xs : List ℕ) → p n ≡ true → has n xs ≡ true → has n (retain p xs) ≡ true
unfolding retain
has-retain n p [] k h = h
has-retain n p (x ∷ xs) k h = elim (Bool-cases (x == n)) [
  | inl same ↦ let it : x ≡ n = ground arith in rw (it, k) (ground arith)
  | inr other ↦ elim (Bool-cases (p x)) [
    | inl kept ↦ rw kept (ground (arith, has-retain n p xs k))
    | inr gone ↦ rw gone (ground (arith, has-retain n p xs k))
  ]
]

frame-IsReserved :
    (g : Segment) (m : Moment) (s : RollingCapture)
    → IsReserved g s
    → IsReserved g (on_frame_arrived m s).0
unfolding on_frame_arrived
frame-IsReserved g m s r = elim (Bool-cases (leb segment_duration m.elapsed)) [
  | inl e ↦ rw e (rotate-IsReserved g m s r)
  | inr e ↦ rw e r
]

reserve-IsReserved :
    (g : Segment) (m : Moment) (requested : ℕ) (s : RollingCapture)
    → IsReserved g s
    → IsReserved g (reserve_export m requested s).0
unfolding reserve_export
reserve-IsReserved g m requested s r =
    elim (Bool-cases (s.encoder && leb min_segment_duration m.elapsed)) [
      | inl e ↦ rw e (
          reserve_segments-IsReserved g requested (rotate_segment m s).0 (rotate_segment m s).1
            (rotate-IsReserved g m s r))
      | inr e ↦ rw e (reserve_segments-IsReserved g requested s (ok tt) r)
    ]

release-IsReserved :
    (g : Segment) (paths : List ℕ) (s : RollingCapture)
    → has g.path paths ≡ false
    → IsReserved g s
    → IsReserved g (release_export paths s)
unfolding release_export
release-IsReserved g paths s k r = prune-IsReserved g _ (record {
  protected = has-retain g.path (λ p. not (has p paths)) s.protected (rw k refl) r.protected;
  held = r.held;
})

step-IsReserved :
    (g : Segment) (s : RollingCapture) (op : Op)
    → Spares g op
    → IsReserved g s
    → IsReserved g (step s op)
unfolding step on_closed
step-IsReserved g s (frame m) k = frame-IsReserved g m s
step-IsReserved g s (reserve m requested) k = reserve-IsReserved g m requested s
step-IsReserved g s (close m) k = commit-IsReserved g m s
step-IsReserved g s (release paths) k = release-IsReserved g paths s k

-- A segment that is reserved for an export stays in the buffer, whatever frames arrive and whatever
-- else is reserved or released, however long the buffer becomes, until it is released itself.
pub run-IsReserved :
    (ops : List Op) (g : Segment) (s : RollingCapture)
    → All (Spares g) ops
    → IsReserved g s
    → IsReserved g (run s ops)
unfolding run
run-IsReserved [] g s k r = r
run-IsReserved (op ∷ ops) g s (spared, k) r =
    run-IsReserved ops g (step s op) k (step-IsReserved g s op spared r)
