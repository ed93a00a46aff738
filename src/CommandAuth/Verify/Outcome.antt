-- ===== src/CommandAuth/Verify/Outcome.antt =====
-- relay/command_auth.rs, `verify_command`: what a call does to the replay cache, and what a command
-- that it accepts has passed.
use yummi_lcu.Common.{
  ℕ, ◌-◌, ◌≤◌, ◌<◌, ◌≡◌, refl, inl, inr, Bool, true, false, ◌++◌, Option, none, some, arith, Bytes,
  text_eq_iff, length, filter, saturating_add, Bool-cases, Option-cases, ok, guard, ok_or,
  Result-cases,
}
use yummi_lcu.Json.{Value}
use yummi_lcu.CommandAuth.Canonical.{show_u64, canonical_json}
use yummi_lcu.CommandAuth.Envelope.{
  Envelope, parse_envelope, validate_time, max_clock_skew_ms, max_command_window_ms,
}
use yummi_lcu.CommandAuth.Nonces.{contains_key, unexpired}
use yummi_lcu.CommandAuth.Nonces.Cache.{expiry_of}
use yummi_lcu.CommandAuth.Verify.{
  Libraries, Moment, CachedKey, AuthState, signature_context, command_key, signed_value, precheck,
  check_signature,
}

guard-eq-ok : {E : Type 0} (b : Bool) (e : E) {u : Unit {0}} → guard b e ≡ ok u → b ≡ true
guard-eq-ok true e h = refl
guard-eq-ok false e h = cc

ok_or-eq-ok : {E A : Type 0} (o : Option A) (e : E) {a : A} → ok_or o e ≡ ok a → o ≡ some a
ok_or-eq-ok none e h = cc
ok_or-eq-ok (some b) e h = cc

pub filter-eq-some :
    {A : Type 0} (o : Option A) (p : A → Bool) {a : A}
    → filter o p ≡ some a
    → (o ≡ some a) × (p a ≡ true)
filter-eq-some none p h = absurd (cc)
filter-eq-some (some b) p {a} h = elim (Bool-cases (p b)) [
  | inl e ↦ let same : b ≡ a = ground arith in (cc, rw (← same) e)
  | inr e ↦ absurd (ground arith)
]

-- The window that a command's times must leave open at `now`.
pub record IsTimely (e : Envelope) (now : ℕ) : Type 0 where
  pub ordered : e.issued_at_ms ≤ e.expires_at_ms
  pub short : e.expires_at_ms - e.issued_at_ms ≤ max_command_window_ms
  pub issued : e.issued_at_ms ≤ saturating_add now max_clock_skew_ms
  pub open_until : now ≤ saturating_add e.expires_at_ms max_clock_skew_ms

-- The time check passes exactly in that window.
pub validate_time_iff :
    (e : Envelope) (now : ℕ)
    → (validate_time e now ≡ ok tt → IsTimely e now)
      × (IsTimely e now → validate_time e now ≡ ok tt)
unfolding validate_time
validate_time_iff e now = (λ h. ground arith, λ t. ground arith)

pub record PassesPrecheck (payload : Value) (bound_id : Option ℕ) (now : ℕ) (e : Envelope)
    (clean : Value) : Type 0 where
  pub parsed : parse_envelope payload ≡ ok (e, clean)
  pub id : ℕ
  pub bound : bound_id ≡ some id
  pub positive : 0 < id
  pub target : e.target_discord_id ≡ show_u64 id
  pub timely : IsTimely e now

module _ (lib : Libraries) where
  pub precheck_sound :
      (payload : Value) (bound_id : Option ℕ) (now : ℕ) (e : Envelope) (clean : Value)
      → precheck lib payload bound_id now ≡ ok (e, clean)
      → PassesPrecheck payload bound_id now e clean
  unfolding precheck
  precheck_sound payload none now e clean h = absurd (ground arith)
  precheck_sound payload (some id) now e clean h = record {
    parsed = ground arith;
    id = id;
    bound = refl;
    positive = ground arith;
    target = ground (arith, text_eq_iff e.target_discord_id (show_u64 id));
    timely = (validate_time_iff e now).0 (ground arith);
  }

  -- The key, the signature and the text that it covers.
  pub record IsSigned (c : CachedKey lib) (action : Bytes) (e : Envelope) (clean : Value)
      : Type 0 where
    pub key_id : c.key_id ≡ e.key_id
    pub signature : Bytes
    pub decoded : lib.decode_base64 e.signature ≡ some signature
    pub full_length : length signature ≡ 64
    pub body : Bytes
    pub canonical : canonical_json lib.quote (signed_value lib action e clean) ≡ ok body
    pub verified : lib.verify c.key (signature_context ++ body) signature ≡ true

  pub check_signature_sound :
      (c : CachedKey lib) (action : Bytes) (e : Envelope) (clean : Value)
      → check_signature lib c action e clean ≡ ok tt
      → IsSigned c action e clean
  unfolding check_signature
  check_signature_sound c action e clean h = elim (Option-cases (lib.decode_base64 e.signature)) [
    | inl missing ↦ absurd (ground arith)
    | inr (sig, decoded) ↦
        elim (Result-cases (canonical_json lib.quote (signed_value lib action e clean))) [
          | inl (x, failed) ↦ absurd (ground arith)
          | inr (body, canonical) ↦ record {
            key_id = ground (arith, text_eq_iff c.key_id e.key_id);
            signature = sig;
            decoded = decoded;
            full_length = ground arith;
            body = body;
            canonical = canonical;
            verified = ground arith;
          }
        ]
  ]

  pub nonces-command_key :
      (m : Moment) (s : AuthState lib) → (command_key lib m s).0.nonces ≡ s.nonces
  unfolding command_key
  nonces-command_key m s = ground arith

  -- What an accepted command has passed, and what the call leaves behind.
  pub record IsAuthentic (m : Moment) (action : Bytes) (payload : Value) (bound_id : Option ℕ)
      (s s' : AuthState lib) (clean : Value) : Type 0 where
    pub envelope : Envelope
    pub key : CachedKey lib
    pub prechecked : PassesPrecheck payload bound_id m.now envelope clean
    pub current : (command_key lib m s).1 ≡ ok key
    pub signed : IsSigned key action envelope clean
    pub fresh : contains_key envelope.nonce (unexpired m.now s.nonces) ≡ false
    pub remembered : expiry_of envelope.nonce s'.nonces ≡ some envelope.expires_at_ms
