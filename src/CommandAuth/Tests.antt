-- ===== src/CommandAuth/Tests.antt =====
-- Runs of relay/command_auth.rs, and the theorems at concrete commands.
use yummi_lcu.Common.{
  ◌≤◌, ◌≡◌, refl, ◌⊎◌, true, false, [], ◌∷◌, some, arith, codes, length, ok, is_ok,
}
use yummi_lcu.Json.{null, pos_int, object, field, end, array, cons, nil, bool}
use yummi_lcu.CommandAuth.Canonical.{canonical_json}
use yummi_lcu.CommandAuth.Envelope.{validate_time, Envelope}
use yummi_lcu.CommandAuth.Nonces.{max_nonces, contains_key, claim_nonce, unexpired}
use yummi_lcu.CommandAuth.Nonces.Cache.{expiry_of, NoneBefore}
use yummi_lcu.CommandAuth.Nonces.Distinct.{IsDistinct, claim_nonce_forgets}
use yummi_lcu.CommandAuth.Verify.Outcome.{IsAuthentic, IsTimely, validate_time_iff}
use yummi_lcu.CommandAuth.Verify.Sound.{verify_command-IsAuthentic}
use yummi_lcu.CommandAuth.Verify.Replay.{verify, run, IsSound, run-IsSound}
use yummi_lcu.CommandAuth.Samples.{
  toy, auth_text, payload, clean, at, start, first, again, after, all_parts,
}

accepted : verify toy first start ≡ (after, ok clean)
unfolding all_parts
accepted = refl

-- The same command, ten seconds later, with one call of another action in between.
refused_again : is_ok (verify toy again after).1 ≡ false
unfolding all_parts
refused_again = refl

-- A signature's object must come with the command.
unsigned_is_refused : is_ok (verify toy (record first { payload = clean }) start).1 ≡ false
unfolding all_parts
unsigned_is_refused = refl

sorted_keys :
    canonical_json
      (λ s. s)
      (object (
        field
          (codes "b")
          (array (cons (bool true) (cons (pos_int 120) nil)))
          (field (codes "a") null end)))
    ≡ ok (codes "{a:null,b:[true,120]}")
unfolding all_parts
sorted_keys = refl

verify_command-IsAuthentic_example :
    IsAuthentic toy (at 110000) (codes "dodge") payload (some 42) start after clean
unfolding verify
verify_command-IsAuthentic_example =
    verify_command-IsAuthentic toy (at 110000) (codes "dodge") payload (some 42) start after clean
      accepted

run-IsSound_example : IsSound toy (run toy start (first ∷ again ∷ [])).nonces
run-IsSound_example =
    run-IsSound toy (first ∷ again ∷ []) start (record { bounded = omega arith; distinct = tt })

held : expiry_of (codes "a") ((codes "a", 5) ∷ []) ≡ some 5
unfolding expiry_of all_parts
held = refl

distinct : IsDistinct ((codes "a", 5) ∷ [])
unfolding contains_key
distinct = (refl, tt)

claim_nonce_forgets_example :
    (expiry_of (codes "a") (claim_nonce false (codes "b") 9 7 ((codes "a", 5) ∷ [])).0 ≡ some 5)
    ⊎ (max_nonces ≤ length (unexpired 7 ((codes "a", 5) ∷ [])))
      × NoneBefore 5 (unexpired 7 ((codes "a", 5) ∷ []))
claim_nonce_forgets_example =
    claim_nonce_forgets false (codes "b") (codes "a") 9 5 7 ((codes "a", 5) ∷ []) distinct
      (omega arith) held

abbrev envelope : Envelope
envelope = record {
  target_discord_id = codes "42";
  issued_at_ms = 100000;
  expires_at_ms = 130000;
  nonce = codes "0123456789abcdef0123456789abcdef";
  signature = auth_text;
  key_id = codes "0011223344556677";
}

validate_time_iff_example :
    (validate_time envelope 110000 ≡ ok tt → IsTimely envelope 110000)
    × (IsTimely envelope 110000 → validate_time envelope 110000 ≡ ok tt)
validate_time_iff_example = validate_time_iff envelope 110000
