-- ===== src/Recording/Rolling.antt =====
-- recording.rs, `RollingCapture`: the segments of the last 75 seconds. Durations are milliseconds. A
-- segment's path is named by its number; `removed` collects the files that were deleted, newest first.
pub mod Prune
pub mod Kept
pub mod Reserve
pub mod Fresh
mod Tests
use yummi_lcu.Common.{
  ℕ, suc, ◌+◌, ◌-◌, ◌*◌, min, Bool, true, false, not, ◌&&◌, ◌||◌, List, [], ◌∷◌, ◌++◌, map, reverse,
  Option, none, some, leb, ltb, ◌==◌, if◌then◌else◌, retain, saturating_add, u64_max, Result, ok,
  err,
}
use yummi_lcu.Common.Pigeons.{has}

abbrev pub segment_duration : ℕ
segment_duration = 10000

abbrev pub max_buffer_duration : ℕ
max_buffer_duration = 75000

abbrev pub min_segment_duration : ℕ
min_segment_duration = 300

-- `Duration::saturating_add`: the largest duration is a little under 2^64 seconds.
abbrev pub duration_max : ℕ
duration_max = u64_max * 1000 + 999

abbrev pub add_duration : ℕ → ℕ → ℕ
add_duration a b = min (a + b) duration_max

pub record Segment : Type 0 where
  pub path : ℕ
  pub duration : ℕ

pub record RollingCapture : Type 0 where
  pub encoder : Bool
  pub current_path : Option ℕ
  pub next_index : ℕ
  pub segments : List Segment
  pub protected : List ℕ
  pub removed : List ℕ

pub data CaptureError : Type 0 where
  encoder_failed finish_failed nothing_to_save : CaptureError

-- What one step finds: the time since the segment started, whether a new encoder opens, whether the old
-- one finishes, and whether its file has any bytes.
pub record Moment : Type 0 where
  pub elapsed : ℕ
  pub opens : Bool
  pub finishes : Bool
  pub written : Bool

unfoldable pub start_segment :
    Moment → RollingCapture → RollingCapture × Result CaptureError (Unit {0})
start_segment m s =
    let counted : RollingCapture = record s { next_index = saturating_add s.next_index 1 } in
    if m.opens
    then (record counted { encoder = true; current_path = some s.next_index }, ok tt)
    else (counted, err encoder_failed)

unfoldable pub commit_current_segment :
    Moment → RollingCapture → RollingCapture × Result CaptureError (Unit {0})
commit_current_segment m s =
    let closed : RollingCapture = record s { encoder = false } in
    if s.encoder && not m.finishes then (closed, err finish_failed) else elim s.current_path [
      | none ↦ (closed, ok tt)
      | some path ↦
          if leb min_segment_duration m.elapsed && m.written
          then (
            record closed {
              segments = s.segments ++ (record { path = path; duration = m.elapsed }) ∷ [];
            },
            ok tt,
          )
          else (record closed { removed = path ∷ s.removed }, ok tt)
    ]

unfoldable pub total_duration : ℕ → List Segment → ℕ
total_duration sum [] = sum
total_duration sum (s ∷ ss) = total_duration (add_duration sum s.duration) ss

-- The loop of `prune`: the segments that stay, and the files that it deletes, oldest first.
unfoldable pub prune_loop : ℕ → List ℕ → List Segment → List Segment × List ℕ
prune_loop total protected [] = ([], [])
prune_loop total protected (s ∷ ss) =
    let rest = prune_loop (total - s.duration) protected ss in
    if ltb max_buffer_duration total && not (has s.path protected)
    then (rest.0, s.path ∷ rest.1)
    else (s ∷ ss, [])

unfoldable pub prune : RollingCapture → RollingCapture
prune s =
    let kept = prune_loop (total_duration 0 s.segments) s.protected s.segments in
    record s { segments = kept.0; removed = reverse kept.1 ++ s.removed }

unfoldable pub then_prune :
    RollingCapture × Result CaptureError (Unit {0})
    → RollingCapture × Result CaptureError (Unit {0})
then_prune (s, ok _) = (prune s, ok tt)
then_prune (s, err e) = (s, err e)

unfoldable pub then_start :
    Moment
    → RollingCapture × Result CaptureError (Unit {0})
    → RollingCapture × Result CaptureError (Unit {0})
then_start m (s, ok _) = start_segment m s
then_start m (s, err e) = (s, err e)

unfoldable pub rotate_segment :
    Moment → RollingCapture → RollingCapture × Result CaptureError (Unit {0})
rotate_segment m s = then_prune (then_start m (commit_current_segment m s))

unfoldable pub buffered_duration : Moment → RollingCapture → ℕ
buffered_duration m s =
    min (add_duration (total_duration 0 s.segments) (if s.encoder then m.elapsed else 0))
      max_buffer_duration

-- The loop of `reserve_export` over the newest segments first: what it selects, in that order, and
-- their length together.
unfoldable pub select_segments : ℕ → ℕ → List Segment → List ℕ × ℕ
select_segments requested total [] = ([], total)
select_segments requested total (s ∷ ss) =
    let longer = add_duration total s.duration in
    let rest = select_segments requested longer ss in
    if leb requested longer then (s.path ∷ [], longer) else (s.path ∷ rest.0, rest.1)

pub record ExportReservation : Type 0 where
  pub paths : List ℕ
  pub requested : ℕ

unfoldable pub reserve_segments :
    ℕ
    → RollingCapture × Result CaptureError (Unit {0})
    → RollingCapture × Result CaptureError ExportReservation
reserve_segments requested (s, err e) = (s, err e)
reserve_segments requested (s, ok _) =
    let selection = select_segments requested 0 (reverse s.segments) in
    let paths = reverse selection.0 in
    elim s.segments [
      | [] ↦ (s, err nothing_to_save)
      | _ ∷ _ ↦ (
        record s { protected = paths ++ s.protected },
        ok (record { paths = paths; requested = min requested selection.1 }),
      )
    ]

unfoldable pub reserve_export :
    Moment → ℕ → RollingCapture → RollingCapture × Result CaptureError ExportReservation
reserve_export m requested s =
    if s.encoder && leb min_segment_duration m.elapsed
    then reserve_segments requested (rotate_segment m s)
    else reserve_segments requested (s, ok tt)

unfoldable pub release_export : List ℕ → RollingCapture → RollingCapture
release_export paths s =
    prune (record s { protected = retain (λ p. not (has p paths)) s.protected })

-- `new` of the capture, and its callbacks; a frame itself is not modelled.
unfoldable pub new_capture : Moment → RollingCapture × Result CaptureError (Unit {0})
new_capture m = start_segment m (record {
  encoder = false;
  current_path = none;
  next_index = 0;
  segments = [];
  protected = [];
  removed = [];
})

unfoldable pub on_frame_arrived :
    Moment → RollingCapture → RollingCapture × Result CaptureError (Unit {0})
on_frame_arrived m s = if leb segment_duration m.elapsed then rotate_segment m s else (s, ok tt)

unfoldable pub on_closed : Moment → RollingCapture → RollingCapture × Result CaptureError (Unit {0})
on_closed m s = commit_current_segment m s
