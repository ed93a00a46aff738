-- ===== src/Updater/Delay.antt =====
-- updater.rs, `next_update_check_delay`: the delays of a run of checks.
use yummi_lcu.Common.{ℕ, zero, suc, ◌≤◌, Bool, true, false, List, [], ◌∷◌, arith, length}
use yummi_lcu.Updater.{retry_delays, recheck_interval, next_update_check_delay}

-- The count of failures after a run of checks.
unfoldable pub failures_after : ℕ → List Bool → ℕ
failures_after n [] = n
failures_after n (b ∷ bs) = failures_after (next_update_check_delay n b).0 bs

delays :
    (n : ℕ)
    → n ≤ 5
    → ((10 ≤ (next_update_check_delay n false).1) × ((next_update_check_delay n false).1 ≤ 300))
      × ((next_update_check_delay n false).1
          ≤ (next_update_check_delay (next_update_check_delay n false).0 false).1)
unfolding next_update_check_delay
delays zero h = ((omega arith, omega arith), omega arith)
delays (suc zero) h = ((omega arith, omega arith), omega arith)
delays (suc (suc zero)) h = ((omega arith, omega arith), omega arith)
delays (suc (suc (suc zero))) h = ((omega arith, omega arith), omega arith)
delays (suc (suc (suc (suc zero)))) h = ((omega arith, omega arith), omega arith)
delays (suc (suc (suc (suc (suc zero))))) h = ((omega arith, omega arith), omega arith)
delays (suc (suc (suc (suc (suc (suc n)))))) h = absurd (omega arith)

-- The count never leaves the table of delays, so a delay is always one of the table: after any run of
-- checks the next wait is between 10 seconds and 5 minutes, and a further failure never shortens it.
next_update_check_delay_bounds :
    (bs : List Bool) (n : ℕ) (b : Bool)
    → n ≤ length retry_delays
    → let now = failures_after n bs in
      let first = next_update_check_delay now b in
      (now ≤ length retry_delays)
      × (((10 ≤ first.1) × (first.1 ≤ recheck_interval))
          × ((next_update_check_delay now false).1
              ≤ (next_update_check_delay (next_update_check_delay now false).0 false).1))
unfolding failures_after next_update_check_delay
next_update_check_delay_bounds [] n true h = (h, ((omega arith, omega arith), (delays n h).1))
next_update_check_delay_bounds [] n false h = (h, delays n h)
next_update_check_delay_bounds (c ∷ bs) n b h = next_update_check_delay_bounds bs _ b (ground arith)
