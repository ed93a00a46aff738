-- ===== src/Relay/Watchdog/Stale.antt =====
-- relay/supervisor.rs, `NativeWatchdogObservation`: it restarts the agent only after a run of stale looks.
use yummi_lcu.Common.{
  ℕ, zero, suc, subst, ◌+◌, ◌-◌, ◌≤◌, ◌≡◌, ◌⊎◌, inl, inr, true, false, List, [], ◌∷◌, none, some,
  arith, min, unwrap_or, Option-cases,
}
use yummi_lcu.Relay.Watchdog.{
  NativeWatchdogObservation, Sample, max_gap_ms, stale_after_ms, is_stale_sample, should_restart,
  backoff_delay, max_backoff_ms,
}

-- The observation after a run of looks, the newest first in the list.
unfoldable pub observe : List Sample → NativeWatchdogObservation
observe [] = record { last_sample_ms = none; stale_since_ms = none }
observe (x ∷ xs) = (should_restart (observe xs) x).0

-- The look is stale and follows the one before it.
abbrev pub IsStale : Sample → Sample → Type 0
IsStale x before =
    (x.armed ≡ true)
    × ((1 ≤ x.last_tick_ms)
        × ((x.last_tick_ms + stale_after_ms ≤ x.now_ms) × (x.now_ms ≤ before.now_ms + max_gap_ms)))

-- The newest looks, back to one at `since`, are all stale.
pub data IsStaleSince (since : ℕ) : List Sample → Type 0 where
  here :
      (x before : Sample) (xs : List Sample)
      → x.now_ms ≡ since
      → IsStale x before
      → IsStaleSince since (x ∷ before ∷ xs)
  more :
      (x before : Sample) (xs : List Sample)
      → IsStale x before
      → IsStaleSince since (before ∷ xs)
      → IsStaleSince since (x ∷ before ∷ xs)

last_sample : (x : Sample) (xs : List Sample) → (observe (x ∷ xs)).last_sample_ms ≡ some x.now_ms
unfolding observe should_restart
last_sample x xs = ground arith

is_stale_sample-IsStale :
    (x before : Sample) → is_stale_sample (some before.now_ms) x ≡ true → IsStale x before
unfolding is_stale_sample
is_stale_sample-IsStale x before h = ground arith

first_look : (x : Sample) → is_stale_sample none x ≡ false
unfolding is_stale_sample
first_look x = ground arith

stale_since :
    (o : NativeWatchdogObservation) (x : Sample) (since : ℕ)
    → (should_restart o x).0.stale_since_ms ≡ some since
    → (is_stale_sample o.last_sample_ms x ≡ true)
      × (((o.stale_since_ms ≡ none) × (x.now_ms ≡ since)) ⊎ (o.stale_since_ms ≡ some since))
unfolding should_restart
stale_since o x since h = elim (Option-cases o.stale_since_ms) [
  | inl e ↦ ground arith
  | inr (s, e) ↦ ground arith
]

observe-IsStaleSince :
    (xs : List Sample) (since : ℕ)
    → (observe xs).stale_since_ms ≡ some since
    → IsStaleSince since xs
unfolding observe
observe-IsStaleSince [] since h = absurd (ground arith)
observe-IsStaleSince (x ∷ []) since h =
    let looked = stale_since (observe []) x since h in
    absurd (ground (arith, first_look x, looked.0))
observe-IsStaleSince (x ∷ before ∷ xs) since h =
    let (stale, began) = stale_since (observe (before ∷ xs)) x since h in
    let is_stale : IsStale x before =
      is_stale_sample-IsStale x before
        (subst (λ last. is_stale_sample last x ≡ true) (last_sample before xs) stale) in
    elim began [
      | inl (_, now) ↦ here x before xs now is_stale
      | inr earlier ↦ more x before xs is_stale (observe-IsStaleSince (before ∷ xs) since earlier)
    ]

should_restart_since :
    (o : NativeWatchdogObservation) (x : Sample)
    → (should_restart o x).1 ≡ true
    → (since : ℕ) × (((should_restart o x).0.stale_since_ms ≡ some since)
        × (since + max_gap_ms ≤ x.now_ms))
unfolding should_restart
should_restart_since o x h = (unwrap_or o.stale_since_ms x.now_ms, ground arith)

-- The watchdog restarts the agent only after an unbroken run of looks that spans 15 seconds or more, in
-- each of which it was armed, the executor had ticked, that tick was 90 seconds old or older, and the
-- look came at most 15 seconds after the one before. So a machine that was asleep, or a watchdog that
-- was itself held up, does not make it restart.
pub should_restart-IsStaleSince :
    (x : Sample) (xs : List Sample)
    → (should_restart (observe xs) x).1 ≡ true
    → (since : ℕ) × (IsStaleSince since (x ∷ xs) × (since + max_gap_ms ≤ x.now_ms))
unfolding observe
should_restart-IsStaleSince x xs h =
    let (since, (began, long)) = should_restart_since (observe xs) x h in
    (since, (observe-IsStaleSince (x ∷ xs) since began, long))

-- The wait before a reconnect is between one and thirty seconds, and the part of it that is not drawn
-- from the clock never shrinks from one attempt to the next.
backoff_delay_bounds :
    (attempt subsec : ℕ)
    → ((1000 ≤ backoff_delay attempt subsec) × (backoff_delay attempt subsec ≤ max_backoff_ms))
      × (backoff_delay attempt 0 ≤ backoff_delay (suc attempt) 0)
unfolding backoff_delay
backoff_delay_bounds zero subsec = ((ground arith, ground arith), ground arith)
backoff_delay_bounds (suc zero) subsec = ((ground arith, ground arith), ground arith)
backoff_delay_bounds (suc (suc zero)) subsec = ((ground arith, ground arith), ground arith)
backoff_delay_bounds (suc (suc (suc zero))) subsec = ((ground arith, ground arith), ground arith)
backoff_delay_bounds (suc (suc (suc (suc zero)))) subsec =
    ((ground arith, ground arith), ground arith)
backoff_delay_bounds (suc (suc (suc (suc (suc zero))))) subsec =
    ((ground arith, ground arith), ground arith)
backoff_delay_bounds (suc (suc (suc (suc (suc (suc n)))))) subsec =
    let top : min (suc (suc (suc (suc (suc (suc n))))) - 1) 5 ≡ 5 = omega arith in
    let next : min (suc (suc (suc (suc (suc (suc (suc n)))))) - 1) 5 ≡ 5 = omega arith in
    rw (top, next) ((ground arith, ground arith), ground arith)
