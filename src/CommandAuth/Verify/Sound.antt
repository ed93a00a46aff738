-- ===== src/CommandAuth/Verify/Sound.antt =====
-- relay/command_auth.rs, `verify_command`: what an accepted command has passed, and that no call
-- disturbs the replay cache but by one claim.
use yummi_lcu.Common.{
  ℕ, ◌≡◌, inl, inr, Bool, true, false, Option, arith, Bytes, Result, ok, err, is_ok, Result-cases,
}
use yummi_lcu.Json.{Value}
use yummi_lcu.CommandAuth.Canonical.{AuthError}
use yummi_lcu.CommandAuth.Envelope.{Envelope}
use yummi_lcu.CommandAuth.Nonces.{Nonces, contains_key, unexpired, claim_nonce}
use yummi_lcu.CommandAuth.Nonces.Claim.{claim_nonce_remembers}
use yummi_lcu.CommandAuth.Verify.{
  Libraries, Moment, CachedKey, AuthState, command_key, precheck, check_signature, finish, with_key,
  verify_parsed, verify_command,
}
use yummi_lcu.CommandAuth.Verify.Outcome.{
  precheck_sound, check_signature_sound, nonces-command_key, IsAuthentic,
}

claim_nonce_ok_fresh :
    (poisoned : Bool) (nonce : Bytes) (expires now : ℕ) (cache : Nonces)
    → is_ok (claim_nonce poisoned nonce expires now cache).1 ≡ true
    → contains_key nonce (unexpired now cache) ≡ false
unfolding claim_nonce
claim_nonce_ok_fresh poisoned nonce expires now cache h = ground arith

module _ (lib : Libraries) where
  -- A command's fate after its precheck: refused with the cache as it was, or put to the cache.
  pub data Outcome (m : Moment) (action : Bytes) (e : Envelope) (clean : Value) (s : AuthState lib)
      (r : AuthState lib × Result AuthError Value) : Type 0 where
    refused : r.0.nonces ≡ s.nonces → is_ok r.1 ≡ false → Outcome m action e clean s r
    claimed :
        (c : CachedKey lib)
        → (command_key lib m s).1 ≡ ok c
        → check_signature lib c action e clean ≡ ok tt
        → r.0.nonces ≡ (claim_nonce m.poisoned e.nonce e.expires_at_ms m.now s.nonces).0
        → r.1
          ≡ (elim (claim_nonce m.poisoned e.nonce e.expires_at_ms m.now s.nonces).1
              as (λ _. Result AuthError Value) [ ok _ ↦ ok clean | err x ↦ err x ])
        → Outcome m action e clean s r

  pub verify_parsed-Outcome :
      (m : Moment) (action : Bytes) (e : Envelope) (clean : Value) (s : AuthState lib)
      → Outcome m action e clean s (verify_parsed lib m action s (ok (e, clean)))
  unfolding verify_parsed with_key finish
  verify_parsed-Outcome m action e clean s = elim (Result-cases (command_key lib m s).1) [
    | inl (x, e₁) ↦ refused (ground (arith, nonces-command_key lib m s)) (ground arith)
    | inr (c, e₁) ↦ elim (Result-cases (check_signature lib c action e clean)) [
      | inl (x, e₂) ↦ refused (ground (arith, nonces-command_key lib m s)) (ground arith)
      | inr (_, e₂) ↦
          claimed c e₁ (ground arith) (ground (arith, nonces-command_key lib m s))
            (ground (arith, nonces-command_key lib m s))
    ]
  ]

  Outcome-IsAuthentic :
      (m : Moment) (action : Bytes) (payload : Value) (bound_id : Option ℕ) (s s' : AuthState lib)
      (e : Envelope) (v clean : Value) (r : AuthState lib × Result AuthError Value)
      → precheck lib payload bound_id m.now ≡ ok (e, v)
      → r ≡ (s', ok clean)
      → Outcome m action e v s r
      → IsAuthentic lib m action payload bound_id s s' clean
  Outcome-IsAuthentic m action payload bound_id s s' e v clean r passed h (refused same bad) =
      absurd (ground arith)
  Outcome-IsAuthentic m action payload bound_id s s' e v clean r passed h
        (claimed c current signed nonces result) =
      let claim = claim_nonce m.poisoned e.nonce e.expires_at_ms m.now s.nonces in
      let fine : is_ok claim.1 ≡ true = ground arith in
      let same : v ≡ clean = ground arith in
      record {
        envelope = e;
        key = c;
        prechecked = precheck_sound lib payload bound_id m.now e clean (rw (← same) passed);
        current = current;
        signed = check_signature_sound lib c action e clean (rw (← same) signed);
        fresh = claim_nonce_ok_fresh m.poisoned e.nonce e.expires_at_ms m.now s.nonces fine;
        remembered =
            ground
              (arith, claim_nonce_remembers m.poisoned e.nonce e.expires_at_ms m.now s.nonces fine);
      }

  -- A command that is accepted carries an envelope for this session's Discord account, inside its
  -- time window, with a signature by the current key over the canonical text of the whole command;
  -- its nonce was not among those still valid, and is remembered afterwards.
  pub verify_command-IsAuthentic :
      (m : Moment) (action : Bytes) (payload : Value) (bound_id : Option ℕ) (s s' : AuthState lib)
      (clean : Value)
      → verify_command lib m action payload bound_id s ≡ (s', ok clean)
      → IsAuthentic lib m action payload bound_id s s' clean
  unfolding verify_command verify_parsed
  verify_command-IsAuthentic m action payload bound_id s s' clean h =
      elim (Result-cases (precheck lib payload bound_id m.now)) [
        | inl (x, failed) ↦ absurd (ground arith)
        | inr ((e, v), passed) ↦
            Outcome-IsAuthentic m action payload bound_id s s' e v clean _ passed
              (rw (passed, verify_command) at h) (verify_parsed-Outcome m action e v s)
      ]
