-- ===== src/Recording/Rolling/Tests.antt =====
-- Runs of the rolling buffer, and its theorems at concrete buffers.
use yummi_lcu.Common.{ℕ, ◌≤◌, ◌≡◌, refl, inl, true, false, [], ◌∷◌, some, arith, ok, map}
use yummi_lcu.Recording.Rolling.{
  Segment, RollingCapture, Moment, ExportReservation, max_buffer_duration, prune, prune_loop,
  total_duration, select_segments, on_frame_arrived, rotate_segment, then_prune, then_start,
  commit_current_segment, start_segment, reserve_segments,
}
use yummi_lcu.Recording.Rolling.Prune.{sum, recent, prune-recent, sum-prune}
use yummi_lcu.Recording.Rolling.Kept.{
  step, frame, reserve, release, run, IsReserved, run-IsReserved,
}
use yummi_lcu.Recording.Rolling.Fresh.{IsFresh, run-IsFresh}
use yummi_lcu.Recording.Rolling.Reserve.{IsExport, reserve_segments-IsExport}

abbrev segment : ℕ → ℕ → Segment
segment path duration = record { path = path; duration = duration }

abbrev held : RollingCapture
held = record {
  encoder = true;
  current_path = some 5;
  next_index = 6;
  segments = segment 1 30000 ∷ segment 2 25000 ∷ segment 3 20000 ∷ segment 4 15000 ∷ [];
  protected = [];
  removed = [];
}

-- Ninety seconds become sixty.
pruned : map (λ s. s.path) (prune held).segments ≡ 2 ∷ 3 ∷ 4 ∷ []
unfolding prune prune_loop total_duration
pruned = refl

prune-recent_example : (prune held).segments ≡ recent [] held.segments
unfolding sum
prune-recent_example = prune-recent held (omega arith)

sum-prune_example : sum (prune held).segments ≤ max_buffer_duration
unfolding sum
sum-prune_example = sum-prune held (omega arith) (refl, (refl, (refl, (refl, tt))))

abbrev later : Moment
later = record { elapsed = 10000; opens = true; finishes = true; written = true }

run-IsReserved_example : IsReserved (segment 1 30000) (
    run
      (record held { protected = 1 ∷ [] })
      (frame later ∷ reserve later 5000 ∷ release (4 ∷ []) ∷ []))
run-IsReserved_example =
    run-IsReserved (frame later ∷ reserve later 5000 ∷ release (4 ∷ []) ∷ []) (segment 1 30000)
      (record held { protected = 1 ∷ [] }) (tt, (tt, (refl, tt)))
      (record { protected = refl; held = inl refl })

-- Thirty seconds are in the last two segments.
abbrev last_two : ExportReservation
last_two = record { paths = 3 ∷ 4 ∷ []; requested = 30000 }

reserved :
    reserve_segments 30000 (held, ok tt) ≡ (record held { protected = 3 ∷ 4 ∷ [] }, ok last_two)
unfolding reserve_segments select_segments
reserved = refl

reserve_segments-IsExport_example : IsExport 30000 held.segments last_two
reserve_segments-IsExport_example =
    reserve_segments-IsExport 30000 held (record held { protected = 3 ∷ 4 ∷ [] }) last_two reserved

run-IsFresh_example : IsFresh (run held (frame later ∷ reserve later 5000 ∷ release (4 ∷ []) ∷ []))
run-IsFresh_example =
    run-IsFresh (frame later ∷ reserve later 5000 ∷ release (4 ∷ []) ∷ []) held
      ((refl, refl), ((refl, refl), (tt, tt))) (omega arith)
      (record {
        writing = refl;
        current = 5;
        named = refl;
        ahead = omega arith;
        behind = (omega arith, (omega arith, (omega arith, (omega arith, tt))));
        increasing = (
          (omega arith, (omega arith, (omega arith, tt))),
          ((omega arith, (omega arith, tt)), ((omega arith, tt), (tt, tt))),
        );
      })

-- A new encoder that does not open leaves the old file's name behind: it is listed twice after the
-- next step.
listed_twice :
    map
      (λ s. s.path)
      (run
        (record held { segments = [] })
        (frame (record later { opens = false }) ∷ frame later ∷ [])).segments
    ≡ 5 ∷ 5 ∷ []
unfolding run step on_frame_arrived rotate_segment then_prune then_start commit_current_segment
    start_segment prune prune_loop total_duration
listed_twice = refl
