-- ===== src/CommandAuth/Verify/Replay.antt =====
-- relay/command_auth.rs: no command is accepted twice, whatever is verified in between.
-- Calls run one after the other. The wall clock may jump, but not past the moment of the replay.
use yummi_lcu.Common.{
  ℕ, ◌≤◌, ◌≡◌, refl, ◌⊎◌, inl, inr, List, [], ◌∷◌, Option, Bytes, length, Result, Result-cases,
}
use yummi_lcu.Json.{Value}
use yummi_lcu.CommandAuth.Canonical.{AuthError}
use yummi_lcu.CommandAuth.Envelope.{Envelope}
use yummi_lcu.CommandAuth.Nonces.{Nonces, max_nonces, claim_nonce}
use yummi_lcu.CommandAuth.Nonces.Claim.{length-claim_nonce}
use yummi_lcu.CommandAuth.Nonces.Distinct.{IsDistinct, claim_nonce-IsDistinct}
use yummi_lcu.CommandAuth.Verify.{
  Libraries, Moment, AuthState, precheck, verify_parsed, verify_command,
}
use yummi_lcu.CommandAuth.Verify.Sound.{Outcome, refused, claimed, verify_parsed-Outcome}

-- One call of `verify_command`.
pub record Call : Type 0 where
  pub moment : Moment
  pub action : Bytes
  pub payload : Value
  pub bound_id : Option ℕ

module _ (lib : Libraries) where
  unfoldable pub verify : Call → AuthState lib → AuthState lib × Result AuthError Value
  verify c s = verify_command lib c.moment c.action c.payload c.bound_id s

  unfoldable pub run : AuthState lib → List Call → AuthState lib
  run s [] = s
  run s (c ∷ cs) = run (verify c s).0 cs

  -- A call leaves the cache as it was, or makes one claim at its own time.
  Outcome-nonces :
      (m : Moment) (action : Bytes) (e : Envelope) (v : Value) (s : AuthState lib)
      (r : AuthState lib × Result AuthError Value)
      → Outcome lib m action e v s r
      → (r.0.nonces ≡ s.nonces)
        ⊎ ((nonce : Bytes) × (expires : ℕ) × (r.0.nonces
              ≡ (claim_nonce m.poisoned nonce expires m.now s.nonces).0))
  Outcome-nonces m action e v s r (refused same bad) = inl same
  Outcome-nonces m action e v s r (claimed c current signed nonces result) =
      inr (e.nonce, e.expires_at_ms, nonces)

  verify-nonces :
      (c : Call) (s : AuthState lib)
      → ((verify c s).0.nonces ≡ s.nonces)
        ⊎ ((nonce : Bytes) × (expires : ℕ) × ((verify c s).0.nonces
              ≡ (claim_nonce c.moment.poisoned nonce expires c.moment.now s.nonces).0))
  unfolding verify verify_command verify_parsed
  verify-nonces c s = elim (Result-cases (precheck lib c.payload c.bound_id c.moment.now)) [
    | inl (x, failed) ↦ inl (rw failed refl)
    | inr ((e, v), passed) ↦ rw passed (
        Outcome-nonces c.moment c.action e v s _
          (verify_parsed-Outcome lib c.moment c.action e v s))
  ]

  -- What the cache keeps to, whatever is sent.
  pub record IsSound (cache : Nonces) : Type 0 where
    pub bounded : length cache ≤ max_nonces
    pub distinct : IsDistinct cache

  verify-IsSound : (c : Call) (s : AuthState lib) → IsSound s.nonces → IsSound (verify c s).0.nonces
  verify-IsSound c s v = elim (verify-nonces c s) [
    | inl same ↦ rw same v
    | inr (nonce, expires, moved) ↦ rw moved (record {
      bounded = length-claim_nonce c.moment.poisoned nonce expires c.moment.now s.nonces v.bounded;
      distinct =
          claim_nonce-IsDistinct c.moment.poisoned nonce expires c.moment.now s.nonces v.distinct;
    })
  ]

  -- Whatever commands arrive, the replay cache never holds more than its limit of nonces, nor one
  -- nonce twice.
  pub run-IsSound :
      (cs : List Call) (s : AuthState lib) → IsSound s.nonces → IsSound (run s cs).nonces
  unfolding run
  run-IsSound [] s v = v
  run-IsSound (c ∷ cs) s v = run-IsSound cs (verify c s).0 (verify-IsSound c s v)
