-- ===== src/Recording/Rolling/Reserve.antt =====
-- recording.rs, `RollingCapture::reserve_export`: it selects the shortest run of the newest segments that
-- is as long as what was asked for.
use yummi_lcu.Common.{
  ℕ, zero, suc, ◌≤◌, ◌<◌, ◌≡◌, refl, sym, ap, subst, ◌∙◌, ◌⊎◌, inl, inr, List, [], ◌∷◌, ◌++◌, map,
  reverse, arith, take, drop, take-append-drop, leb, min, Bool-cases, List-cases, ok,
}
use mathlib.Core.List.{map-append, reverse-append, reverse-reverse}
use mathlib.Mathlib.Data.List.Basic.{map-reverse_aux}
use yummi_lcu.Recording.Rolling.{
  Segment, RollingCapture, ExportReservation, add_duration, total_duration, select_segments,
  reserve_segments,
}

-- Of the segments, the newest first: `n` are selected, together they reach what was asked for or are
-- all there are, and no fewer reach it.
pub record IsShortest (requested : ℕ) (newest : List Segment) (paths : List ℕ) (total : ℕ)
    : Type 0 where
  pub n : ℕ
  pub selected : paths ≡ map (λ s. s.path) (take n newest)
  pub measured : total ≡ total_duration 0 (take n newest)
  pub enough : (requested ≤ total) ⊎ (take n newest ≡ newest)
  pub shortest : (k : ℕ) → 1 ≤ k → k < n → total_duration 0 (take k newest) < requested

record IsShortestFrom (requested sum : ℕ) (newest : List Segment) (paths : List ℕ) (total : ℕ)
    : Type 0 where
  pub n : ℕ
  pub selected : paths ≡ map (λ s. s.path) (take n newest)
  pub measured : total ≡ total_duration sum (take n newest)
  pub enough : (requested ≤ total) ⊎ (take n newest ≡ newest)
  pub shortest : (k : ℕ) → 1 ≤ k → k < n → total_duration sum (take k newest) < requested

shorter_cons :
    (requested sum : ℕ) (s : Segment) (ss : List Segment) (n : ℕ)
    → add_duration sum s.duration < requested
    → ((k : ℕ)
        → 1 ≤ k
        → k < n
        → total_duration (add_duration sum s.duration) (take k ss) < requested)
    → (k : ℕ) → 1 ≤ k
    → k < suc n
    → total_duration sum (take k (s ∷ ss)) < requested
unfolding total_duration
shorter_cons requested sum s ss n short rest zero a b = absurd (omega arith)
shorter_cons requested sum s ss n short rest (suc zero) a b = short
shorter_cons requested sum s ss n short rest (suc (suc k)) a b =
    rest (suc k) (omega arith) (omega arith)

select-IsShortestFrom :
    (requested sum : ℕ) (ss : List Segment)
    → IsShortestFrom requested sum ss
        (select_segments requested sum ss).0
        (select_segments requested sum ss).1
unfolding select_segments total_duration
select-IsShortestFrom requested sum [] = record {
  n = 0;
  selected = refl;
  measured = refl;
  enough = inr refl;
  shortest = λ k a b. absurd (omega arith);
}
select-IsShortestFrom requested sum (s ∷ ss) =
    let longer = add_duration sum s.duration in
    elim (Bool-cases (leb requested longer)) [
      | inl reached ↦ rw reached (record {
        n = suc zero;
        selected = refl;
        measured = refl;
        enough = inl (ground arith);
        shortest = λ k a b. absurd (omega arith);
      })
      | inr short ↦
          let r = select-IsShortestFrom requested longer ss in
          rw short (record {
            n = suc r.n;
            selected = ap (λ paths. s.path ∷ paths) r.selected;
            measured = r.measured;
            enough = elim r.enough [ inl e ↦ inl e | inr e ↦ inr (ap (λ l. s ∷ l) e) ];
            shortest = shorter_cons requested sum s ss r.n (ground arith) r.shortest;
          })
    ]

select-IsShortest :
    (requested : ℕ) (newest : List Segment)
    → IsShortest requested newest
        (select_segments requested 0 newest).0
        (select_segments requested 0 newest).1
select-IsShortest requested newest =
    let r = select-IsShortestFrom requested 0 newest in
    record {
      n = r.n;
      selected = r.selected;
      measured = r.measured;
      enough = r.enough;
      shortest = r.shortest;
    }

-- The segments before a selection of the newest ones.
older_part :
    (ss : List Segment) (n : ℕ)
    → map (λ s. s.path) ss
      ≡ map (λ s. s.path) (reverse (drop n (reverse ss)))
        ++ reverse (map (λ s. s.path) (take n (reverse ss)))
older_part ss n =
    let path : Segment → ℕ = λ s. s.path in
    ap (map path) (
      sym (reverse-reverse ss)
      ∙ ap reverse (sym (take-append-drop n (reverse ss)))
      ∙ reverse-append (take n (reverse ss)) (drop n (reverse ss)))
    ∙ map-append path (reverse (drop n (reverse ss))) (reverse (take n (reverse ss)))
    ∙ ap (λ l. map path (reverse (drop n (reverse ss))) ++ l)
        (map-reverse_aux path (take n (reverse ss)) [])

-- What a reservation holds, of the segments it was made from.
pub record IsExport (requested : ℕ) (ss : List Segment) (r : ExportReservation) : Type 0 where
  pub total : ℕ
  pub shortest : IsShortest requested (reverse ss) (reverse r.paths) total
  pub cut : r.requested ≡ min requested total
  pub older : List ℕ
  pub contiguous : map (λ s. s.path) ss ≡ older ++ r.paths

-- A reservation takes the newest segments, without a gap and in order of time: as few as reach the
-- length that was asked for, or all of them; and never asks for more than they hold.
pub reserve_segments-IsExport :
    (requested : ℕ) (s s' : RollingCapture) (r : ExportReservation)
    → reserve_segments requested (s, ok tt) ≡ (s', ok r)
    → IsExport requested s.segments r
unfolding reserve_segments
reserve_segments-IsExport requested s s' r h = elim (List-cases s.segments) [
  | inl nothing ↦ absurd (ground arith)
  | inr (x, (xs, some_held)) ↦
      let chosen = select_segments requested 0 (reverse s.segments) in
      let it = select-IsShortest requested (reverse s.segments) in
      let paths : r.paths ≡ reverse chosen.0 = ground arith in
      let cut : r.requested ≡ min requested chosen.1 = ground arith in
      record {
        total = chosen.1;
        shortest =
            subst (λ p. IsShortest requested (reverse s.segments) p chosen.1)
              (sym (reverse-reverse chosen.0) ∙ ap reverse (sym paths)) it;
        cut = cut;
        older = map (λ s. s.path) (reverse (drop it.n (reverse s.segments)));
        contiguous =
            older_part s.segments it.n
            ∙ ap (λ l. map (λ s. s.path) (reverse (drop it.n (reverse s.segments))) ++ l)
                (ap reverse (sym it.selected) ∙ sym paths);
      }
]
