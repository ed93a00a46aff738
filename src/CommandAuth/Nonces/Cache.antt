-- ===== src/CommandAuth/Nonces/Cache.antt =====
-- The replay cache as a map: what each step of `claim_nonce` does to the entries.
use yummi_lcu.Common.{
  ℕ, ◌≤◌, ◌<◌, ◌≡◌, refl, inl, inr, true, [], ◌∷◌, Option, none, some, arith, Bytes, text_eq,
  text_eq_iff, text_eq_refl, length, All, if◌then◌else◌, is_some, saturating_add, Option-cases,
}
use yummi_lcu.CommandAuth.Envelope.{max_clock_skew_ms}
use yummi_lcu.CommandAuth.Nonces.{
  Nonces, max_nonces, contains_key, remove_key, oldest, unexpired, make_room,
}

-- The expiry time that the cache holds for a nonce.
unfoldable pub expiry_of : Bytes → Nonces → Option ℕ
expiry_of n [] = none
expiry_of n ((k, e) ∷ cache) = if text_eq k n then some e else expiry_of n cache

pub contains_key-expiry_of :
    (n : Bytes) (cache : Nonces) → contains_key n cache ≡ is_some (expiry_of n cache)
unfolding contains_key expiry_of
contains_key-expiry_of n [] = refl
contains_key-expiry_of n ((k, e) ∷ cache) = ground (arith, contains_key-expiry_of n cache)

pub expiry_of-unexpired :
    (n : Bytes) (e now : ℕ) (cache : Nonces)
    → now ≤ saturating_add e max_clock_skew_ms
    → expiry_of n cache ≡ some e
    → expiry_of n (unexpired now cache) ≡ some e
unfolding expiry_of unexpired
expiry_of-unexpired n e now [] h q = q
expiry_of-unexpired n e now ((k, f) ∷ cache) h q =
    ground (arith, expiry_of-unexpired n e now cache h)

pub length-unexpired-le : (now : ℕ) (cache : Nonces) → length (unexpired now cache) ≤ length cache
unfolding unexpired
length-unexpired-le now [] = omega arith
length-unexpired-le now ((k, e) ∷ cache) = ground (arith, length-unexpired-le now cache)

pub length-remove_key-le : (n : Bytes) (cache : Nonces) → length (remove_key n cache) ≤ length cache
unfolding remove_key
length-remove_key-le n [] = omega arith
length-remove_key-le n ((k, e) ∷ cache) = ground (arith, length-remove_key-le n cache)

pub length-remove_key-lt :
    (n : Bytes) (cache : Nonces)
    → contains_key n cache ≡ true
    → length (remove_key n cache) < length cache
unfolding remove_key contains_key
length-remove_key-lt n [] h = cc
length-remove_key-lt n ((k, e) ∷ cache) h =
    ground (arith, length-remove_key-lt n cache, length-remove_key-le n cache)

pub contains_key-oldest :
    (cache : Nonces) (k : Bytes) (e : ℕ) → oldest cache ≡ some (k, e) → contains_key k cache ≡ true
unfolding contains_key oldest
contains_key-oldest [] k e h = cc
contains_key-oldest ((j, f) ∷ cache) k e h = elim (Option-cases (oldest cache)) [
  | inl empty ↦ ground (arith, text_eq_refl k)
  | inr ((i, g), found) ↦ ground (arith, text_eq_refl k, contains_key-oldest cache i g found)
]

-- Every entry expires at `e` or later.
abbrev pub NoneBefore : ℕ → Nonces → Type 0
NoneBefore e cache = All (λ p. e ≤ p.1) cache

NoneBefore-mono : (d e : ℕ) (cache : Nonces) → d ≤ e → NoneBefore e cache → NoneBefore d cache
NoneBefore-mono d e [] h a = tt
NoneBefore-mono d e ((k, f) ∷ cache) h (p, a) = (omega arith, NoneBefore-mono d e cache h a)

NoneBefore-none : (e : ℕ) (cache : Nonces) → oldest cache ≡ none → NoneBefore e cache
unfolding oldest
NoneBefore-none e [] h = tt
NoneBefore-none e ((j, f) ∷ cache) h = elim (Option-cases (oldest cache)) [
  | inl empty ↦ ground arith
  | inr ((i, g), found) ↦ ground arith
]

pub NoneBefore-oldest :
    (cache : Nonces) (k : Bytes) (e : ℕ) → oldest cache ≡ some (k, e) → NoneBefore e cache
unfolding oldest
NoneBefore-oldest [] k e h = tt
NoneBefore-oldest ((j, f) ∷ cache) k e h = elim (Option-cases (oldest cache)) [
  | inl empty ↦ (ground arith, NoneBefore-none e cache empty)
  | inr ((i, g), found) ↦
      (ground arith, NoneBefore-mono e g cache (ground arith) (NoneBefore-oldest cache i g found))
]

pub expiry_of-remove_key :
    (n k : Bytes) (cache : Nonces)
    → expiry_of n (remove_key k cache) ≡ (if text_eq k n then none else expiry_of n cache)
unfolding expiry_of remove_key
expiry_of-remove_key n k [] = ground arith
expiry_of-remove_key n k ((j, f) ∷ cache) =
    ground
      (arith, expiry_of-remove_key n k cache, text_eq_iff j k, text_eq_iff j n, text_eq_iff k n)

-- The first entry under a key is one of the entries.
pub NoneBefore-expiry_of :
    (n : Bytes) (d e : ℕ) (cache : Nonces) → NoneBefore d cache → expiry_of n cache ≡ some e → d ≤ e
unfolding expiry_of
NoneBefore-expiry_of n d e [] a q = absurd (ground arith)
NoneBefore-expiry_of n d e ((k, f) ∷ cache) (p, a) q =
    ground (arith, NoneBefore-expiry_of n d e cache a)

length-oldest-none : (cache : Nonces) → oldest cache ≡ none → length cache ≡ 0
unfolding oldest
length-oldest-none [] h = refl
length-oldest-none ((k, e) ∷ cache) h = elim (Option-cases (oldest cache)) [
  | inl empty ↦ absurd (ground arith)
  | inr ((j, f), found) ↦ absurd (ground arith)
]

pub length-make_room :
    (cache : Nonces) → length cache ≤ max_nonces → length (make_room cache) < max_nonces
unfolding make_room
length-make_room cache h = elim (Option-cases (oldest cache)) [
  | inl empty ↦ ground (arith, length-oldest-none cache empty)
  | inr ((k, e), found) ↦
      ground (arith, length-remove_key-lt k cache (contains_key-oldest cache k e found))
]

pub make_room_of_lt : (cache : Nonces) → length cache < max_nonces → make_room cache ≡ cache
unfolding make_room
make_room_of_lt cache h = ground arith

pub length-make_room_le : (cache : Nonces) → length (make_room cache) ≤ length cache
unfolding make_room
length-make_room_le cache = elim (Option-cases (oldest cache)) [
  | inl empty ↦ ground arith
  | inr ((k, e), found) ↦ ground (arith, length-remove_key-le k cache)
]
