-- ===== src/Updater/Apply.antt =====
-- updater.rs, `should_apply_target`: what a release that is installed keeps to.
use yummi_lcu.Common.{ℕ, ◌≤◌, ◌≡◌, true, some, arith}
use yummi_lcu.Updater.{
  UpdateTarget, Installed, Libraries, update_channel_matches, is_newer_target, blocks_current,
  should_apply_target, newer_of, newer_prerelease,
}

module _ (lib : Libraries) where
  -- A wider rollout reaches every machine that a narrower one reached.
  pub should_apply_target_monotone :
      (target : UpdateTarget) (here : Installed) (p q : ℕ)
      → p ≤ q
      → should_apply_target lib (record target { rollout_percent = some p }) here ≡ true
      → should_apply_target lib (record target { rollout_percent = some q }) here ≡ true
  unfolding should_apply_target update_channel_matches is_newer_target newer_of newer_prerelease
      blocks_current
  should_apply_target_monotone target here p q wider h = ground arith
