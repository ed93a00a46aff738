-- ===== src/CommandAuth/Nonces.antt =====
-- relay/command_auth.rs: the replay cache and `claim_nonce`.
-- The `HashMap` from nonces to expiry times is a list of pairs in the order in which it iterates.
pub mod Cache
pub mod Claim
pub mod Distinct
use yummi_lcu.Common.{
  ℕ, Bool, false, ◌||◌, List, [], ◌∷◌, Option, none, some, Bytes, text_eq, length, leb, ltb,
  if◌then◌else◌, saturating_add, Result, ok, err,
}
use yummi_lcu.CommandAuth.Canonical.{AuthError, cache_poisoned, replayed}
use yummi_lcu.CommandAuth.Envelope.{max_clock_skew_ms}

abbrev pub max_nonces : ℕ
max_nonces = 4096

abbrev pub Nonces : Type 0
Nonces = List (Bytes × ℕ)

unfoldable pub contains_key : Bytes → Nonces → Bool
contains_key n [] = false
contains_key n ((k, e) ∷ cache) = text_eq k n || contains_key n cache

unfoldable pub remove_key : Bytes → Nonces → Nonces
remove_key n [] = []
remove_key n ((k, e) ∷ cache) =
    if text_eq k n then remove_key n cache else (k, e) ∷ remove_key n cache

-- `min_by_key`: the first entry with the least expiry time.
unfoldable pub oldest : Nonces → Option (Bytes × ℕ)
oldest [] = none
oldest ((k, e) ∷ cache) = elim (oldest cache) [
  | none ↦ some (k, e)
  | some (j, f) ↦ if leb e f then some (k, e) else some (j, f)
]

-- The entries that may still be replayed at `now`.
unfoldable pub unexpired : ℕ → Nonces → Nonces
unexpired now [] = []
unexpired now ((k, e) ∷ cache) =
    if leb now (saturating_add e max_clock_skew_ms)
    then (k, e) ∷ unexpired now cache
    else unexpired now cache

-- A full cache gives up its oldest entry.
unfoldable pub make_room : Nonces → Nonces
make_room cache =
    if leb max_nonces (length cache)
    then elim (oldest cache) [ none ↦ cache | some (k, e) ↦ remove_key k cache ]
    else cache

-- The cache afterwards, and whether the nonce was new. `poisoned` is what locking the mutex reports.
unfoldable pub claim_nonce : Bool → Bytes → ℕ → ℕ → Nonces → Nonces × Result AuthError (Unit {0})
claim_nonce poisoned nonce expires_at_ms now cache =
    let kept = unexpired now cache in
    if poisoned
    then (cache, err cache_poisoned)
    else if contains_key nonce kept
    then (kept, err replayed)
    else ((nonce, expires_at_ms) ∷ make_room kept, ok tt)
