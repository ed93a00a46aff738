-- ===== src/CommandAuth/Envelope.antt =====
-- relay/command_auth.rs: `parse_envelope` and `validate_time`.
use yummi_lcu.Common.{
  ℕ, ◌-◌, Bool, not, ◌&&◌, ◌||◌, map, Option, Bytes, codes, length, all, ltb, leb, ◌==◌,
  if◌then◌else◌, filter, and_then, unwrap_or, saturating_add, is_ascii_digit, is_ascii_hexdigit,
  is_ascii, to_ascii_lowercase, Result, ok, err, ◌>>=◌, ◌>>◌, guard, ok_or,
}
use yummi_lcu.Json.{Value, Fields, object, as_object, as_u64, as_str, get, remove}
use yummi_lcu.CommandAuth.Canonical.{
  AuthError, not_an_object, unsigned, bad_version, bad_target, no_issued, no_expires, bad_nonce,
  bad_signature_text, bad_key_id, bad_time,
}

abbrev pub auth_field : Bytes
auth_field = codes "__yummi_auth"

abbrev pub max_clock_skew_ms : ℕ
max_clock_skew_ms = 60000

abbrev pub max_command_window_ms : ℕ
max_command_window_ms = 60000

pub record Envelope : Type 0 where
  pub target_discord_id : Bytes
  pub issued_at_ms : ℕ
  pub expires_at_ms : ℕ
  pub nonce : Bytes
  pub signature : Bytes
  pub key_id : Bytes

-- `auth.get(key).and_then(Value::as_str).filter(test)`
abbrev pub str_field : Bytes → (Bytes → Bool) → Fields → Option Bytes
str_field key test auth = filter (and_then (get key auth) as_str) test

abbrev pub u64_field : Bytes → Fields → Option ℕ
u64_field key auth = and_then (get key auth) as_u64

abbrev pub is_discord_id : Bytes → Bool
is_discord_id value = not (length value == 0) && (leb (length value) 20 && all is_ascii_digit value)

abbrev pub is_hex_of : ℕ → Bytes → Bool
is_hex_of n value = length value == n && all is_ascii_hexdigit value

abbrev pub is_signature_text : Bytes → Bool
is_signature_text value = (leb 80 (length value) && leb (length value) 100) && all is_ascii value

-- The fields of the signature's object, in the order in which they are read.
unfoldable pub parse_auth : Fields → Result AuthError Envelope
parse_auth auth = do
  guard (unwrap_or (u64_field (codes "v") auth) 0 == 1) bad_version
  target ← ok_or (str_field (codes "target_discord_id") is_discord_id auth) bad_target
  issued ← ok_or (u64_field (codes "issued_at_ms") auth) no_issued
  expires ← ok_or (u64_field (codes "expires_at_ms") auth) no_expires
  nonce ← ok_or (str_field (codes "nonce") (is_hex_of 32) auth) bad_nonce
  signature ← ok_or (str_field (codes "signature") is_signature_text auth) bad_signature_text
  key ← ok_or (str_field (codes "key_id") (is_hex_of 16) auth) bad_key_id
  ok (record {
    target_discord_id = target;
    issued_at_ms = issued;
    expires_at_ms = expires;
    nonce = map to_ascii_lowercase nonce;
    signature = signature;
    key_id = map to_ascii_lowercase key;
  })

-- The signature's object, and the command without it.
unfoldable pub parse_envelope : Value → Result AuthError (Envelope × Value)
parse_envelope payload = do
  fields ← ok_or (as_object payload) not_an_object
  auth ← ok_or (and_then (get auth_field fields) as_object) unsigned
  envelope ← parse_auth auth
  ok (envelope, object (remove auth_field fields))

unfoldable pub time_is_bad : Envelope → ℕ → Bool
time_is_bad e now =
    ltb e.expires_at_ms e.issued_at_ms
    || (ltb max_command_window_ms (e.expires_at_ms - e.issued_at_ms)
        || (ltb (saturating_add now max_clock_skew_ms) e.issued_at_ms
            || ltb (saturating_add e.expires_at_ms max_clock_skew_ms) now))

unfoldable pub validate_time : Envelope → ℕ → Result AuthError (Unit {0})
unfolding time_is_bad
validate_time e now = if time_is_bad e now then err bad_time else ok tt
