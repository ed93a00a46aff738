-- ===== src/CommandAuth/Nonces/Claim.antt =====
-- relay/command_auth.rs, `claim_nonce`: the cache is bounded, a nonce that is remembered is refused,
-- and a claim forgets only what has expired or, in a full cache, what expires first.
use yummi_lcu.Common.{
  ℕ, suc, ◌≤◌, ◌<◌, ◌≡◌, Bool, true, false, some, arith, Bytes, text_eq_iff, text_eq_refl, length,
  saturating_add, is_ok,
}
use yummi_lcu.CommandAuth.Envelope.{max_clock_skew_ms}
use yummi_lcu.CommandAuth.Nonces.{Nonces, max_nonces, contains_key, unexpired, claim_nonce}
use yummi_lcu.CommandAuth.Nonces.Cache.{
  expiry_of, contains_key-expiry_of, expiry_of-unexpired, length-unexpired-le, length-make_room,
  make_room_of_lt, length-make_room_le,
}

module _ (poisoned : Bool) (nonce : Bytes) (expires now : ℕ) (cache : Nonces) where
  pub length-claim_nonce :
      length cache ≤ max_nonces
      → length (claim_nonce poisoned nonce expires now cache).0 ≤ max_nonces
  unfolding claim_nonce
  length-claim_nonce h =
      ground (arith, length-unexpired-le now cache, length-make_room (unexpired now cache))

  pub length-claim_nonce-suc :
      length (claim_nonce poisoned nonce expires now cache).0 ≤ suc (length cache)
  unfolding claim_nonce
  length-claim_nonce-suc =
      ground (arith, length-unexpired-le now cache, length-make_room_le (unexpired now cache))

  pub contains_key-unexpired :
      (e : ℕ)
      → now ≤ saturating_add e max_clock_skew_ms
      → expiry_of nonce cache ≡ some e
      → contains_key nonce (unexpired now cache) ≡ true
  contains_key-unexpired e h q = rw (
    contains_key-expiry_of nonce (unexpired now cache),
    expiry_of-unexpired nonce e now cache h q,
  )

  -- A nonce that the cache holds is refused for as long as its command could pass the time check.
  pub claim_nonce_refuses :
      (e : ℕ)
      → now ≤ saturating_add e max_clock_skew_ms
      → expiry_of nonce cache ≡ some e
      → is_ok (claim_nonce poisoned nonce expires now cache).1 ≡ false
  unfolding claim_nonce
  claim_nonce_refuses e h q = ground (arith, contains_key-unexpired e h q)

  -- A claim that succeeds is remembered with its expiry time.
  pub claim_nonce_remembers :
      is_ok (claim_nonce poisoned nonce expires now cache).1 ≡ true
      → expiry_of nonce (claim_nonce poisoned nonce expires now cache).0 ≡ some expires
  unfolding claim_nonce expiry_of
  claim_nonce_remembers h = ground (arith, text_eq_refl nonce)

  -- With room in the cache, a claim forgets nothing that is still valid.
  pub claim_nonce_keeps :
      (n : Bytes) (e : ℕ)
      → length cache < max_nonces
      → now ≤ saturating_add e max_clock_skew_ms
      → expiry_of n cache ≡ some e
      → expiry_of n (claim_nonce poisoned nonce expires now cache).0 ≡ some e
  unfolding claim_nonce expiry_of
  claim_nonce_keeps n e room h q = ground (
    arith,
    expiry_of-unexpired n e now cache h q,
    length-unexpired-le now cache,
    make_room_of_lt (unexpired now cache),
    text_eq_iff nonce n,
    contains_key-expiry_of nonce (unexpired now cache),
  )
