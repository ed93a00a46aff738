-- ===== src/Relay/Watchdog/Tests.antt =====
-- A frozen executor, and the theorems at it.
use yummi_lcu.Common.{ℕ, ◌+◌, ◌≤◌, ◌≡◌, refl, true, false, List, [], ◌∷◌}
use yummi_lcu.Relay.Watchdog.{Sample, max_gap_ms, is_stale_sample, should_restart}
use yummi_lcu.Relay.Watchdog.Stale.{observe, IsStaleSince, should_restart-IsStaleSince}

abbrev look : ℕ → Sample
look now_ms = record { now_ms = now_ms; last_tick_ms = 1000; armed = true }

abbrev earlier : List Sample
earlier = look 105000 ∷ look 100000 ∷ look 95000 ∷ look 90000 ∷ []

restarts : (should_restart (observe earlier) (look 110000)).1 ≡ true
unfolding observe should_restart is_stale_sample
restarts = refl

-- The machine slept for a minute.
waits : (should_restart (observe earlier) (look 170000)).1 ≡ false
unfolding observe should_restart is_stale_sample
waits = refl

should_restart-IsStaleSince_example :
    (since : ℕ) × (IsStaleSince since (look 110000 ∷ earlier)
      × (since + max_gap_ms ≤ (look 110000).now_ms))
should_restart-IsStaleSince_example = should_restart-IsStaleSince (look 110000) earlier restarts
