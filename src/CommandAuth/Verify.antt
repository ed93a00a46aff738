-- ===== src/CommandAuth/Verify.antt =====
-- relay/command_auth.rs: `fetch_key`, `command_key` and `verify_command`.
-- The libraries that the agent calls (base64, SHA-256, Ed25519, serde_json) are a parameter, and so
-- is what the network and the clocks answer during one call.
pub mod Outcome
pub mod Sound
pub mod Replay
use yummi_lcu.Common.{
  ℕ, ◌+◌, ◌-◌, ◌≡◌, Bool, true, false, not, ◌&&◌, ◌||◌, List, [], ◌∷◌, ◌++◌, map, Option, none,
  some, Bytes, codes, text_eq, length, ltb, leb, ◌==◌, if◌then◌else◌, is_some_and, unwrap_or,
  filter, take, to_ascii_lowercase, Result, ok, err, ◌>>=◌, ◌>>◌, guard, ok_or,
}
use yummi_lcu.Json.{Value, text, pos_int, object, Fields, field, end}
use yummi_lcu.CommandAuth.Canonical.{
  AuthError, fetch_failed, bad_status, too_large, bad_body, bad_algorithm, bad_public_key,
  key_id_mismatch, unbound, target_mismatch, wrong_key_id, bad_signature_bytes, signature_rejected,
  show_u64, canonical_json,
}
use yummi_lcu.CommandAuth.Envelope.{Envelope, parse_envelope, validate_time}
use yummi_lcu.CommandAuth.Nonces.{Nonces, claim_nonce}

pub record KeyResponse : Type 0 where
  pub algorithm : Bytes
  pub version : ℕ
  pub key_id : Bytes
  pub public_key : Bytes

-- The calls of other libraries. `trim` is `str::trim`.
pub record Libraries : Type 1 where
  pub Key : Type 0
  pub quote : Bytes → Bytes
  pub decode_base64 : Bytes → Option Bytes
  pub sha256_hex : Bytes → Bytes
  pub decode_key : Bytes → Option Key
  pub verify : Key → Bytes → Bytes → Bool
  pub decode_response : Bytes → Option KeyResponse
  pub trim : Bytes → Bytes

-- What the key server sends: `none` among the chunks is a broken transfer.
pub record KeyReply : Type 0 where
  pub success : Bool
  pub content_length : Option ℕ
  pub chunks : List (Option Bytes)

-- The world during one call. `instant` is the monotonic clock in milliseconds, `now` the wall clock.
pub record Moment : Type 0 where
  pub now : ℕ
  pub instant : ℕ
  pub reply : Option KeyReply
  pub poisoned : Bool

abbrev pub max_key_response_bytes : ℕ
max_key_response_bytes = 8192

abbrev pub key_cache_ttl_ms : ℕ
key_cache_ttl_ms = 600000

abbrev pub signature_context : Bytes
signature_context = codes "YUMMI-LCU-COMMAND-V1" ++ (10 ∷ [])

-- The loop over `bytes_stream`.
unfoldable pub read_chunks : Bytes → List (Option Bytes) → Result AuthError Bytes
read_chunks bytes [] = ok bytes
read_chunks bytes (none ∷ chunks) = err fetch_failed
read_chunks bytes ((some chunk) ∷ chunks) =
    let rest = read_chunks (bytes ++ chunk) chunks in
    if ltb max_key_response_bytes (length bytes + length chunk) then err too_large else rest

module _ (lib : Libraries) where
  open lib use {Key, quote, decode_base64, sha256_hex, decode_key, verify, decode_response, trim}

  pub record CachedKey : Type 0 where
    pub key : Key
    pub key_id : Bytes
    pub fetched_at : ℕ

  pub record AuthState : Type 0 where
    pub cached_key : Option CachedKey
    pub nonces : Nonces

  unfoldable pub key_id_of : Bytes → Bytes
  key_id_of raw = take 16 (sha256_hex raw)

  unfoldable pub fetch_key : Moment → Result AuthError CachedKey
  fetch_key m = do
    reply ← ok_or m.reply fetch_failed
    guard reply.success bad_status
    guard (not (is_some_and reply.content_length (ltb max_key_response_bytes))) too_large
    bytes ← read_chunks [] reply.chunks
    body ← ok_or (decode_response bytes) bad_body
    guard (text_eq body.algorithm (codes "Ed25519") && body.version == 1) bad_algorithm
    raw ← ok_or (filter (decode_base64 (trim body.public_key)) (λ r. length r == 32)) bad_public_key
    guard (text_eq (key_id_of raw) (map to_ascii_lowercase body.key_id)) key_id_mismatch
    key ← ok_or (decode_key raw) bad_public_key
    ok (record { key = key; key_id = key_id_of raw; fetched_at = m.instant })

  -- A cached key that is still fresh.
  unfoldable pub fresh_key : ℕ → Option CachedKey → Option CachedKey
  fresh_key instant none = none
  fresh_key instant (some c) =
      if ltb (instant - c.fetched_at) key_cache_ttl_ms then some c else none

  store_fetched : AuthState → Result AuthError CachedKey → AuthState × Result AuthError CachedKey
  store_fetched s (ok c) = (record s { cached_key = some c }, ok c)
  store_fetched s (err e) = (s, err e)

  unfoldable pub command_key : Moment → AuthState → AuthState × Result AuthError CachedKey
  unfolding store_fetched
  command_key m s = elim (fresh_key m.instant s.cached_key) [
    | none ↦ store_fetched s (fetch_key m)
    | some c ↦ (s, ok c)
  ]

  -- The object that the relay signed. `json!` gives its keys in this order.
  unfoldable pub signed_value : Bytes → Envelope → Value → Value
  signed_value action e clean = object (
      field (codes "action") (text action) (
        field (codes "expires_at_ms") (pos_int e.expires_at_ms) (
          field (codes "issued_at_ms") (pos_int e.issued_at_ms) (
            field (codes "nonce") (text e.nonce) (
              field (codes "payload") clean
                (field (codes "target_discord_id") (text e.target_discord_id) end))))))

  -- Everything before the key is looked up: the envelope, its target and its time.
  unfoldable pub precheck : Value → Option ℕ → ℕ → Result AuthError (Envelope × Value)
  precheck payload bound_id now = do
    parsed ← parse_envelope payload
    bound ← ok_or (filter bound_id (ltb 0)) unbound
    guard (text_eq parsed.0.target_discord_id (show_u64 bound)) target_mismatch
    validate_time parsed.0 now
    ok parsed

  -- Everything between the key and the nonce.
  unfoldable pub check_signature :
      CachedKey → Bytes → Envelope → Value → Result AuthError (Unit {0})
  check_signature c action e clean = do
    guard (text_eq c.key_id e.key_id) wrong_key_id
    sig ← ok_or (filter (decode_base64 e.signature) (λ b. length b == 64)) bad_signature_bytes
    body ← canonical_json quote (signed_value action e clean)
    guard (verify c.key (signature_context ++ body) sig) signature_rejected

  -- The nonce is claimed last, so a command that fails any check leaves the cache alone.
  unfoldable pub finish :
      Moment
      → Envelope
      → Value
      → AuthState
      → Result AuthError (Unit {0})
      → AuthState × Result AuthError Value
  finish m e clean s (err x) = (s, err x)
  finish m e clean s (ok _) =
      let (nonces, claimed) = claim_nonce m.poisoned e.nonce e.expires_at_ms m.now s.nonces in
      (record s { nonces = nonces }, claimed >>= λ _. ok clean)

  unfoldable pub with_key :
      Moment
      → Bytes
      → Envelope
      → Value
      → AuthState × Result AuthError CachedKey
      → AuthState × Result AuthError Value
  with_key m action e clean (s, err x) = (s, err x)
  with_key m action e clean (s, ok c) = finish m e clean s (check_signature c action e clean)

  unfoldable pub verify_parsed :
      Moment
      → Bytes
      → AuthState
      → Result AuthError (Envelope × Value)
      → AuthState × Result AuthError Value
  verify_parsed m action s (err x) = (s, err x)
  verify_parsed m action s (ok (e, clean)) = with_key m action e clean (command_key m s)

  unfoldable pub verify_command :
      Moment → Bytes → Value → Option ℕ → AuthState → AuthState × Result AuthError Value
  verify_command m action payload bound_id s =
      verify_parsed m action s (precheck payload bound_id m.now)
