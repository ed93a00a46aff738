-- ===== src/Relay/Watchdog.antt =====
-- relay/supervisor.rs: the watchdog that restarts a frozen agent, and the small decisions about
-- reconnecting. Times are milliseconds.
pub mod Stale
mod Tests
use yummi_lcu.Common.{
  ℕ, ◌+◌, ◌-◌, ◌*◌, ◌^◌, ◌%◌, min, Bool, true, false, not, ◌&&◌, ◌||◌, List, [], ◌∷◌, Option, none,
  some, leb, ltb, ◌==◌, if◌then◌else◌, is_some_and, is_none_or, unwrap_or,
}

-- Three sample intervals of five seconds.
abbrev pub max_gap_ms : ℕ
max_gap_ms = 15000

abbrev pub stale_after_ms : ℕ
stale_after_ms = 90000

pub record NativeWatchdogObservation : Type 0 where
  pub last_sample_ms : Option ℕ
  pub stale_since_ms : Option ℕ

-- One look at the executor's last tick.
pub record Sample : Type 0 where
  pub now_ms : ℕ
  pub last_tick_ms : ℕ
  pub armed : Bool

abbrev pub gap : Option ℕ → ℕ → Option ℕ
gap none now = none
gap (some last) now = some (now - last)

-- The look counts: armed, a tick that is old, and a look not long before.
unfoldable pub is_stale_sample : Option ℕ → Sample → Bool
is_stale_sample last x = not (
    not x.armed
    || (x.last_tick_ms == 0
        || (ltb (x.now_ms - x.last_tick_ms) stale_after_ms
            || is_none_or (gap last x.now_ms) (λ g. ltb max_gap_ms g))))

unfoldable pub should_restart :
    NativeWatchdogObservation → Sample → NativeWatchdogObservation × Bool
should_restart o x =
    let since = unwrap_or o.stale_since_ms x.now_ms in
    if is_stale_sample o.last_sample_ms x
    then (
      record { last_sample_ms = some x.now_ms; stale_since_ms = some since },
      leb max_gap_ms (x.now_ms - since),
    )
    else (record { last_sample_ms = some x.now_ms; stale_since_ms = none }, false)

unfoldable pub watchdog_restart_allowed : Bool → Bool → Bool
watchdog_restart_allowed desired_running task_running = desired_running && not task_running

unfoldable pub should_reconnect : Bool → Bool
should_reconnect manual_stop = not manual_stop

unfoldable pub heartbeat_timed_out : Option ℕ → ℕ → Bool
heartbeat_timed_out awaiting_since now =
    is_some_and awaiting_since (λ started. leb 10000 (now - started))

unfoldable pub should_start_login : Bool → Bool → ℕ → Bool
should_start_login session_bound login_opened elapsed =
    not session_bound && (not login_opened && leb 5000 elapsed)

unfoldable pub oauth_browser_should_open : Bool → Bool → Bool
oauth_browser_should_open user_initiated_login login_required =
    user_initiated_login && login_required

abbrev pub max_backoff_ms : ℕ
max_backoff_ms = 30000

-- `subsec` is the millisecond part of the clock.
unfoldable pub backoff_delay : (attempt subsec : ℕ) → ℕ
backoff_delay attempt subsec =
    let exponent = min (attempt - 1) 5 in
    min (min (2 ^ exponent) 30 * 1000 + subsec % 500) max_backoff_ms
