-- ===== src/CommandAuth/Samples.antt =====
-- relay/command_auth.rs: a signed command and a session that takes it, for the tests.
use yummi_lcu.Common.{
  ℕ, true, false, [], ◌∷◌, ◌++◌, none, some, Bytes, codes, take, text_eq, is_ascii_digit,
  is_ascii_hexdigit, is_ascii, to_ascii_lowercase,
}
use yummi_lcu.Json.{Value, pos_int, text, object, field, end, get, remove}
use yummi_lcu.CommandAuth.Canonical.{
  canonical_json, show_u64, insert_entry, join_commas, join_entries, sort_entries, text_ltb,
}
use yummi_lcu.CommandAuth.Envelope.{parse_auth, parse_envelope, validate_time, auth_field}
use yummi_lcu.CommandAuth.Nonces.{
  contains_key, claim_nonce, unexpired, oldest, make_room, remove_key,
}
use yummi_lcu.CommandAuth.Verify.{
  Libraries, Moment, AuthState, verify_command, signed_value, command_key, precheck,
  check_signature, fresh_key, verify_parsed, with_key, finish,
}
use yummi_lcu.CommandAuth.Verify.Replay.{Call, verify}

-- Libraries that accept every signature.
abbrev pub toy : Libraries
toy = record {
  Key = Unit {0};
  quote = λ s. b'"' ∷ (s ++ b'"' ∷ []);
  decode_base64 = λ s. some (take 64 s);
  sha256_hex = λ s. codes "00112233445566778899";
  decode_key = λ s. some tt;
  verify = λ k m s. true;
  decode_response = λ s. none;
  trim = λ s. s;
}

abbrev pub ten : Bytes
ten = codes "AAAAAAAAAA"

abbrev pub auth_text : Bytes
auth_text = ten ++ (ten ++ (ten ++ (ten ++ (ten ++ (ten ++ (ten ++ ten))))))

abbrev pub payload : Value
payload = object (
    field (codes "slot") (pos_int 3) (
      field auth_field
        (object (
          field (codes "v") (pos_int 1) (
            field (codes "target_discord_id") (text (codes "42")) (
              field (codes "issued_at_ms") (pos_int 100000) (
                field (codes "expires_at_ms") (pos_int 130000) (
                  field (codes "nonce") (text (codes "0123456789abcdef0123456789ABCDEF")) (
                    field (codes "signature") (text auth_text)
                      (field (codes "key_id") (text (codes "0011223344556677")) end))))))))
        end))

abbrev pub clean : Value
clean = object (field (codes "slot") (pos_int 3) end)

abbrev pub at : ℕ → Moment
at now = record { now = now; instant = now; reply = none; poisoned = false }

abbrev pub start : AuthState toy
start = record {
  cached_key = some (record { key = tt; key_id = codes "0011223344556677"; fetched_at = 90000 });
  nonces = [];
}

abbrev pub first : Call
first = record { moment = at 110000; action = codes "dodge"; payload = payload; bound_id = some 42 }

abbrev pub again : Call
again = record { moment = at 120000; action = codes "dodge"; payload = payload; bound_id = some 42 }

abbrev pub after : AuthState toy
after = record start { nonces = (codes "0123456789abcdef0123456789abcdef", 130000) ∷ [] }

-- An anchor for `unfolding`: everything that a run of a command computes with.
unfoldable pub all_parts : Unit {0}
unfolding verify verify_command precheck parse_envelope parse_auth get remove verify_parsed with_key
    finish check_signature show_u64 validate_time command_key fresh_key canonical_json signed_value
    claim_nonce contains_key unexpired oldest make_room remove_key insert_entry join_commas
    join_entries sort_entries text_ltb text_eq is_ascii_digit is_ascii_hexdigit is_ascii
    to_ascii_lowercase
all_parts = tt
