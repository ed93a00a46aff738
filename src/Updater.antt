-- ===== src/Updater.antt =====
-- updater.rs: which release is installed, and when the next check is made. Texts are bytes. `str::trim`,
-- SHA-256 and the seed of this machine are parameters.
pub mod Order
pub mod Apply
pub mod Delay
mod Tests
use yummi_lcu.Common.{
  ℕ, zero, suc, ◌+◌, ◌*◌, ◌-◌, ◌%◌, min, Bool, true, false, not, ◌&&◌, ◌||◌, List, [], ◌∷◌, ◌++◌,
  Option, none, some, length, any, all, leb, ltb, ◌==◌, if◌then◌else◌, get_elem?, Bytes, codes,
  text_eq, is_ascii_digit, unwrap_or, is_some_and, and_then, u64_max,
}
use yummi_lcu.Relay.Protocol.{is_empty}

-- `Vec<u64>` from `collect` on options.
abbrev pub cons_option : Option ℕ → Option (List ℕ) → Option (List ℕ)
cons_option (some n) (some ns) = some (n ∷ ns)
cons_option _ _ = none

abbrev pub parts_cons : ℕ → List Bytes → List Bytes
parts_cons c [] = (c ∷ []) ∷ []
parts_cons c (p ∷ ps) = (c ∷ p) ∷ ps

-- `value.split('.')`
unfoldable pub split_dots : Bytes → List Bytes
split_dots [] = [] ∷ []
split_dots (c ∷ s) = if c == b'.' then [] ∷ split_dots s else parts_cons c (split_dots s)

unfoldable pub digits_value : ℕ → Bytes → ℕ
digits_value n [] = n
digits_value n (c ∷ s) = digits_value (n * 10 + (c - b'0')) s

unfoldable pub parse_digits : Bytes → Option ℕ
parse_digits s =
    if not (is_empty s) && (all is_ascii_digit s && leb (digits_value 0 s) u64_max)
    then some (digits_value 0 s)
    else none

-- `str::parse::<u64>`, which takes one leading `+`.
unfoldable pub parse_u64 : Bytes → Option ℕ
parse_u64 [] = none
parse_u64 (c ∷ s) = if c == b'+' then parse_digits s else parse_digits (c ∷ s)

unfoldable pub parse_all : List Bytes → Option (List ℕ)
parse_all [] = some []
parse_all (p ∷ ps) = cons_option (parse_u64 p) (parse_all ps)

abbrev pub Version : Type 0
Version = ℕ × (ℕ × ℕ)

unfoldable pub version_parts : Option ℕ → Option ℕ → Option ℕ → Option Version
version_parts (some a) (some b) (some c) = some (a, (b, c))
version_parts _ _ _ = none

unfoldable pub part_or_zero : Option Bytes → Option ℕ
part_or_zero none = some 0
part_or_zero (some p) = parse_u64 p

-- `<` on the tuples and on the vectors of the source.
unfoldable pub version_lt : Version → Version → Bool
version_lt (a, (b, c)) (x, (y, z)) = ltb a x || (a == x && (ltb b y || (b == y && ltb c z)))

unfoldable pub version_eq : Version → Version → Bool
version_eq (a, (b, c)) (x, (y, z)) = a == x && (b == y && c == z)

unfoldable pub numbers_lt : List ℕ → List ℕ → Bool
numbers_lt [] [] = false
numbers_lt [] (y ∷ ys) = true
numbers_lt (x ∷ xs) [] = false
numbers_lt (x ∷ xs) (y ∷ ys) = ltb x y || (x == y && numbers_lt xs ys)

unfoldable pub strip_prefix : Bytes → Bytes → Option Bytes
strip_prefix [] s = some s
strip_prefix (p ∷ ps) [] = none
strip_prefix (p ∷ ps) (c ∷ s) = if p == c then strip_prefix ps s else none

-- The fields that decide whether a release is installed.
pub record UpdateTarget : Type 0 where
  pub version : Bytes
  pub release_label : Option Bytes
  pub build_id : Option Bytes
  pub channel : Option Bytes
  pub min_version : Option Bytes
  pub blocked_versions : Option (List Bytes)
  pub rollout_percent : Option ℕ

-- What is installed here, and the channel that is configured.
pub record Installed : Type 0 where
  pub version : Bytes
  pub release_label : Bytes
  pub build_id : Bytes
  pub channel : Bytes

pub record Libraries : Type 0 where
  pub trim : Bytes → Bytes
  pub sha256_first : Bytes → ℕ
  pub rollout_seed : Bytes

module _ (lib : Libraries) where
  unfoldable pub version_tuple : Bytes → Option Version
  version_tuple value =
      let v = lib.trim value in
      let parts = split_dots v in
      if is_empty v || (ltb 32 (length v) || (ltb 3 (length parts) || any is_empty parts))
      then none
      else version_parts (and_then (get_elem? parts 0) parse_u64) (part_or_zero (get_elem? parts 1))
          (part_or_zero (get_elem? parts 2))

  unfoldable pub is_older : Bytes → Bytes → Bool
  is_older left right =
      is_some_and (version_tuple left)
        (λ l. is_some_and (version_tuple right) (λ r. version_lt l r))

  unfoldable pub update_channel_matches : UpdateTarget → Bytes → Bool
  update_channel_matches target configured_channel =
      text_eq (unwrap_or target.channel (codes "stable")) (lib.trim configured_channel)

  unfoldable pub numeric_identifier : Bytes → Option (List ℕ)
  numeric_identifier value =
      let v = lib.trim value in
      let parts = split_dots v in
      if is_empty v || (ltb 64 (length v) || (ltb 4 (length parts) || any is_empty parts))
      then none
      else parse_all parts

  unfoldable pub release_sequence : Bytes → Bytes → Bytes → Option (List ℕ)
  release_sequence label version channel =
      and_then (strip_prefix (version ++ (b'-' ∷ (channel ++ (b'.' ∷ [])))) (lib.trim label))
        numeric_identifier

  -- The comparison of two identifiers, where both are there.
  unfoldable pub both_newer : Option (List ℕ) → Option (List ℕ) → Option Bool
  both_newer (some remote) (some local) = some (numbers_lt local remote)
  both_newer _ _ = none

  -- The part of `is_newer_target` for equal versions on a prerelease channel.
  unfoldable pub newer_prerelease : UpdateTarget → Installed → Bytes → Bool
  newer_prerelease target here channel =
      let by_label =
        both_newer
          (and_then target.release_label (λ label. release_sequence label target.version channel))
          (release_sequence here.release_label here.version channel) in
      let by_build =
        both_newer (and_then target.build_id numeric_identifier)
          (numeric_identifier here.build_id) in
      unwrap_or by_label (unwrap_or by_build false)

  unfoldable pub newer_of : UpdateTarget → Installed → Version → Version → Bool
  newer_of target here remote local =
      let channel = lib.trim here.channel in
      if not (version_eq remote local)
      then version_lt local remote
      else if text_eq channel (codes "stable")
      then false
      else newer_prerelease target here channel

  unfoldable pub is_newer_target : UpdateTarget → Installed → Bool
  is_newer_target target here = is_some_and (version_tuple target.version) (λ remote.
      is_some_and (version_tuple here.version) (λ local. newer_of target here remote local))

  unfoldable pub rollout_bucket : Bytes → Bytes → ℕ
  rollout_bucket seed version = lib.sha256_first (seed ++ (b':' ∷ version)) % 100

  unfoldable pub blocks_current : UpdateTarget → Installed → Bool
  blocks_current target here =
      is_some_and target.blocked_versions (any (λ v. text_eq v here.version))

  unfoldable pub should_apply_target : UpdateTarget → Installed → Bool
  should_apply_target target here =
      let percent = min (unwrap_or target.rollout_percent 100) 100 in
      if not (update_channel_matches target here.channel)
      then false
      else if not (is_newer_target target here)
      then false
      else if is_some_and target.min_version (λ least. is_older here.version least)
      then false
      else if blocks_current target here
      then true
      else ltb 0 percent && ltb (rollout_bucket lib.rollout_seed target.version) percent

-- `AUTO_UPDATE_RETRY_DELAYS`, in seconds.
abbrev pub retry_delays : List ℕ
retry_delays = 10 ∷ 30 ∷ 60 ∷ 120 ∷ 300 ∷ []

abbrev pub recheck_interval : ℕ
recheck_interval = 300

-- The count of failures afterwards, and the delay.
unfoldable pub next_update_check_delay : ℕ → Bool → ℕ × ℕ
next_update_check_delay failures check_succeeded =
    if check_succeeded then (0, recheck_interval) else (
      min (failures + 1) (length retry_delays),
      unwrap_or (get_elem? retry_delays (min failures (length retry_delays - 1))) 0,
    )

unfoldable pub blocks_update_for_gameflow_phase : Bytes → Bool
blocks_update_for_gameflow_phase phase = any (text_eq phase) (
    codes "Matchmaking"
    ∷ codes "ReadyCheck"
    ∷ codes "ChampSelect"
    ∷ codes "InProgress"
    ∷ codes "Reconnect"
    ∷ codes "PreEndOfGame"
    ∷ codes "EndOfGame"
    ∷ codes "WaitingForStats"
    ∷ [])
