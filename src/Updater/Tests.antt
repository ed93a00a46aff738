-- ===== src/Updater/Tests.antt =====
-- Releases on two channels, and the theorems at them.
use yummi_lcu.Common.{
  ℕ, ◌≡◌, ◌⊎◌, refl, true, false, none, some, arith, codes, text_eq, is_ascii_digit,
}
use yummi_lcu.Updater.{
  UpdateTarget, Installed, Libraries, Version, version_tuple, version_lt, version_eq, numbers_lt,
  split_dots, parse_digits, digits_value, parse_u64, parse_all, version_parts, part_or_zero,
  strip_prefix, numeric_identifier, release_sequence, both_newer, newer_prerelease, newer_of,
  is_newer_target, is_older, rollout_bucket, blocks_current, should_apply_target,
  update_channel_matches,
}
use yummi_lcu.Updater.Order.{is_newer_target_installed, is_newer_target_up}
use yummi_lcu.Updater.Apply.{should_apply_target_monotone}

abbrev toy : Libraries
toy = record { trim = λ s. s; sha256_first = λ s. 37; rollout_seed = codes "yummi-lcu-tauri" }

abbrev beta : ℕ → UpdateTarget
beta percent = record {
  version = codes "1.4.0";
  release_label = some (codes "1.4.0-beta.48");
  build_id = some (codes "901");
  channel = some (codes "beta");
  min_version = some (codes "1.2");
  blocked_versions = none;
  rollout_percent = some percent;
}

abbrev here : Installed
here = record {
  version = codes "1.4.0";
  release_label = codes "1.4.0-beta.47";
  build_id = codes "950";
  channel = codes "beta";
}

all_parts : Unit {0}
unfolding version_tuple version_lt version_eq numbers_lt split_dots parse_digits digits_value
    parse_u64 parse_all version_parts part_or_zero strip_prefix numeric_identifier release_sequence
    both_newer newer_prerelease newer_of is_newer_target is_older rollout_bucket blocks_current
    should_apply_target update_channel_matches text_eq is_ascii_digit
all_parts = tt

-- The sequence of the label decides, not the build.
newer : is_newer_target toy (beta 50) here ≡ true
unfolding all_parts
newer = refl

narrow_applies : should_apply_target toy (record (beta 0) { rollout_percent = some 38 }) here ≡ true
unfolding all_parts
narrow_applies = refl

narrower_does_not : should_apply_target toy (beta 37) here ≡ false
unfolding all_parts
narrower_does_not = refl

should_apply_target_monotone_example :
    should_apply_target toy (record (beta 0) { rollout_percent = some 60 }) here ≡ true
should_apply_target_monotone_example =
    should_apply_target_monotone toy (beta 0) here 38 60 (omega arith) narrow_applies

abbrev updated : Installed
updated = record here { release_label = codes "1.4.0-beta.48"; build_id = codes "901" }

is_newer_target_installed_example : is_newer_target toy (beta 50) updated ≡ false
is_newer_target_installed_example = is_newer_target_installed toy (beta 50) updated refl refl refl

is_newer_target_up_example :
    (remote : Version) × ((local : Version) × ((version_tuple toy (codes "1.4.0") ≡ some remote)
        × ((version_tuple toy (codes "1.4.0") ≡ some local)
            × ((version_lt remote local ≡ false)
                × ((version_lt local remote ≡ true)
                    ⊎ ((remote ≡ local) × (text_eq (codes "beta") (codes "stable") ≡ false)))))))
is_newer_target_up_example = is_newer_target_up toy (beta 50) here newer
