-- ===== src/Relay/ReplayBuffer/Range.antt =====
-- relay/supervisor.rs: what a resend of a range of a live stream sends.
use yummi_lcu.Common.{
  ℕ, suc, ◌-◌, ◌≤◌, ◌<◌, ◌≡◌, ◌≢◌, refl, sym, ◌∙◌, inl, inr, Bool, true, false, ◌&&◌, List, [], ◌∷◌,
  none, some, String, arith, length, any, ◌==◌, if◌then◌else◌, retain, All, is_str, is_some_and,
  saturating_add, u64_max, Bool-cases, ◌++◌, ap, subst, ◌⊎◌, ok, err, Option-cases,
}
use yummi_lcu.Common.Pigeons.{has, AreDistinct, AreWithin, has_of_length, length-AreWithin, misses}
use yummi_lcu.Relay.ReplayBuffer.{
  Event, Buffer, in_range, live_range, send_failed, send_each, replay_live_delta_range,
}

-- The sequence numbers of a stream, in the order of the queue.
unfoldable pub seqs : String → List Event → List ℕ
seqs stream [] = []
seqs stream (e ∷ es) = elim e.live_seq [
  | none ↦ seqs stream es
  | some n ↦ if is_str e.live_stream_id stream then n ∷ seqs stream es else seqs stream es
]

-- The event is number `n` of the stream.
abbrev pub is_number : String → ℕ → Event → Bool
is_number stream n e = is_str e.live_stream_id stream && is_some_and e.live_seq (λ m. m == n)

module _ (stream : String) (lo hi : ℕ) where
  has-seqs-retain :
      (n : ℕ) (es : List Event)
      → has n (seqs stream es) ≡ false
      → has n (seqs stream (retain (in_range stream lo hi) es)) ≡ false
  unfolding seqs retain in_range
  has-seqs-retain n [] h = refl
  has-seqs-retain n (e ∷ es) h = ground (arith, has-seqs-retain n es)

  seqs-retain-AreDistinct :
      (es : List Event)
      → AreDistinct (seqs stream es)
      → AreDistinct (seqs stream (retain (in_range stream lo hi) es))
  unfolding seqs retain in_range
  seqs-retain-AreDistinct [] d = tt
  seqs-retain-AreDistinct (e ∷ es) d = elim (Option-cases e.live_seq) [
    | inl bare ↦ ground (arith, seqs-retain-AreDistinct es)
    | inr (n, q) ↦ ground (arith, seqs-retain-AreDistinct es, has-seqs-retain n es)
  ]

  seqs-retain-AreWithin :
      (es : List Event)
      → AreWithin lo (suc hi - lo) (seqs stream (retain (in_range stream lo hi) es))
  unfolding seqs retain in_range
  seqs-retain-AreWithin [] = tt
  seqs-retain-AreWithin (e ∷ es) = ground (arith, seqs-retain-AreWithin es)

  length-seqs-retain :
      (es : List Event)
      → length (seqs stream (retain (in_range stream lo hi) es))
        ≡ length (retain (in_range stream lo hi) es)
  unfolding seqs retain in_range
  length-seqs-retain [] = refl
  length-seqs-retain (e ∷ es) = ground (arith, length-seqs-retain es)

  has-seqs : (n : ℕ) (es : List Event) → has n (seqs stream es) ≡ any (is_number stream n) es
  unfolding seqs
  has-seqs n [] = refl
  has-seqs n (e ∷ es) = ground (arith, has-seqs n es)

retain-All : (p : Event → Bool) (es : List Event) → All (λ e. p e ≡ true) (retain p es)
unfolding retain
retain-All p [] = tt
retain-All p (e ∷ es) = elim (Bool-cases (p e)) [
  | inl q ↦ rw q (q, retain-All p es)
  | inr q ↦ rw q (retain-All p es)
]

-- The loop sends everything, or, after a failure, a beginning that leaves something out.
pub send_each-cases :
    (succeeds : ℕ → Bool) (es : List Event)
    → (send_each succeeds es ≡ (es, true))
      ⊎ ((rest : List Event) × (rest ≢ [])
          × ((send_each succeeds es).0 ++ rest ≡ es)
          × ((send_each succeeds es).1 ≡ false))
unfolding send_each
send_each-cases succeeds [] = inl refl
send_each-cases succeeds (e ∷ es) = elim (Bool-cases (succeeds 0)) [
  | inr fails ↦ rw fails (inr (e ∷ es, λ h. absurd (omega (arith, ap length h)), refl, refl))
  | inl sent ↦ elim (send_each-cases (λ i. succeeds (suc i)) es) [
    | inl whole ↦ rw (sent, whole) (inl refl)
    | inr (rest, some_left, split, stopped) ↦
        rw sent (inr (rest, some_left, ap (λ xs. e ∷ xs) split, stopped))
  ]
]

-- The events are of the stream and in the range, and no number of the range is missing.
pub record IsWhole (stream : String) (lo hi : ℕ) (es : List Event) : Type 0 where
  pub inside : All (λ e. in_range stream lo hi e ≡ true) es
  pub complete : (n : ℕ) → lo ≤ n → n ≤ hi → any (is_number stream n) es ≡ true

-- Some number of the range is not pending.
pub record IsMissing (stream : String) (lo hi : ℕ) (b : Buffer) : Type 0 where
  pub number : ℕ
  pub low : lo ≤ number
  pub high : number ≤ hi
  pub missing : any (is_number stream number) b.pending ≡ false

any-retain-number :
    (stream : String) (lo hi n : ℕ) (es : List Event)
    → lo ≤ n
    → n ≤ hi
    → any (is_number stream n) (retain (in_range stream lo hi) es) ≡ false
    → any (is_number stream n) es ≡ false
unfolding retain in_range
any-retain-number stream lo hi n [] p q h = refl
any-retain-number stream lo hi n (e ∷ es) p q h =
    ground (arith, any-retain-number stream lo hi n es p q)

live_range-IsMissing :
    (stream : String) (lo hi : ℕ) (b : Buffer)
    → lo ≤ hi
    → hi < u64_max
    → AreDistinct (seqs stream b.pending)
    → (length (live_range stream lo hi b) == saturating_add (hi - lo) 1) ≡ false
    → IsMissing stream lo hi b
unfolding live_range
live_range-IsMissing stream lo hi b ordered small d partial =
    let events = retain (in_range stream lo hi) b.pending in
    let here = seqs-retain-AreDistinct stream lo hi b.pending d in
    let within = seqs-retain-AreWithin stream lo hi b.pending in
    let same : length (seqs stream events) ≡ length events =
      length-seqs-retain stream lo hi b.pending in
    let few : length (seqs stream events) ≤ suc hi - lo =
      length-AreWithin lo (suc hi - lo) (seqs stream events) here within in
    let differs : (length events == suc (hi - lo)) ≡ false = ground arith in
    let fewer : length (seqs stream events) < suc hi - lo = ground arith in
    let (n, low, high, missing) = misses lo (suc hi - lo) (seqs stream events) here within fewer in
    record {
      number = n;
      low = low;
      high = omega arith;
      missing =
          any-retain-number stream lo hi n b.pending low (omega arith)
            (sym (has-seqs stream lo hi n events) ∙ missing);
    }

live_range-IsWhole :
    (stream : String) (lo hi : ℕ) (b : Buffer)
    → lo ≤ hi
    → hi < u64_max
    → AreDistinct (seqs stream b.pending)
    → (length (live_range stream lo hi b) == saturating_add (hi - lo) 1) ≡ true
    → IsWhole stream lo hi (live_range stream lo hi b)
unfolding live_range
live_range-IsWhole stream lo hi b ordered small d full =
    let events = retain (in_range stream lo hi) b.pending in
    record {
      inside = retain-All (in_range stream lo hi) b.pending;
      complete = λ n p q.
          sym (has-seqs stream lo hi n events)
          ∙ has_of_length lo (suc hi - lo) (seqs stream events) n
              (seqs-retain-AreDistinct stream lo hi b.pending d)
              (seqs-retain-AreWithin stream lo hi b.pending)
              (ground (arith, length-seqs-retain stream lo hi b.pending)) p (omega arith);
    }

-- Where a stream's pending sequence numbers are distinct, a resend of the numbers from `lo` to `hi`,
-- with `hi` not below `lo` and below the largest `u64`, ends in one of three ways, whichever sends
-- succeed: some number of the range is not pending, nothing is sent and 0 is returned; every number of
-- the range and nothing else is sent, and their count is returned; or a send has failed, an error is
-- returned, and what was sent is a beginning, and not the whole, of events that are every number of the
-- range and nothing else.
pub replay_live_delta_range-IsWhole :
    (succeeds : ℕ → Bool) (stream : String) (lo hi : ℕ) (b : Buffer)
    → lo ≤ hi
    → hi < u64_max
    → AreDistinct (seqs stream b.pending)
    → let r = replay_live_delta_range succeeds stream lo hi b in
      (((r.0 ≡ []) × (r.1 ≡ ok 0)) × IsMissing stream lo hi b)
      ⊎ ((IsWhole stream lo hi r.0 × (r.1 ≡ ok (suc hi - lo)))
          ⊎ ((rest : List Event) × (rest ≢ [])
              × IsWhole stream lo hi (r.0 ++ rest)
              × (r.1 ≡ err send_failed)))
unfolding replay_live_delta_range
replay_live_delta_range-IsWhole succeeds stream lo hi b ordered small d =
    let events = live_range stream lo hi b in
    elim (Bool-cases (length events == saturating_add (hi - lo) 1)) [
      | inr partial ↦
          rw partial
            (inl ((refl, refl), live_range-IsMissing stream lo hi b ordered small d partial))
      | inl full ↦
          let whole = live_range-IsWhole stream lo hi b ordered small d full in
          elim (send_each-cases succeeds events) [
            | inl all_sent ↦ rw (full, all_sent) (inr (inl (whole, ground arith)))
            | inr (rest, some_left, split, stopped) ↦
                rw (full, stopped)
                  (inr
                    (inr (rest, some_left, subst (IsWhole stream lo hi) (sym split) whole, refl)))
          ]
    ]
