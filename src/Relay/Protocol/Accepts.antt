-- ===== src/Relay/Protocol/Accepts.antt =====
-- relay/protocol.rs, `parse`: it accepts exactly the messages that the program can
-- rely on.
use yummi_lcu.Common.{
  ℕ, ◌+◌, ◌-◌, ◌%◌, ◌≤◌, ◌≡◌, ◌≢◌, ap, subst, ◌⊎◌, ◌↔◌, inl, inr, refl, Bool, true, false, not,
  ◌&&◌, ◌||◌, List, [], ◌∷◌, Option, none, some, arith, length, any, all, ltb, ◌==◌, if◌then◌else◌,
  Bytes, codes, text_eq, text_eq_iff, is_ascii, is_ascii_digit, is_some_and, is_none_or, is_none,
  Result, ok, map, Option-cases, Bool-cases, All,
}
use yummi_lcu.Json.{is_object}
use yummi_lcu.Relay.Protocol.{
  IncomingMessage, command, session_bound, pong, force_reconnect, live_game_polling,
  live_preview_control, live_sfu_control, server_hello, device_challenge, event_ack,
  live_delta_resend, live_delta_resync, discord_join_request_resolved, discord_presence_context,
  discord_voice_chat_message, discord_voice_chat_clear, unknown, ParseError,
  max_relay_message_bytes, is_empty, is_outside, is_odd, chars_count, is_ascii_graphic, is_bad_text,
  refusal, parse,
}
use yummi_lcu.Relay.Protocol.Safe.{IfGiven, IsGiven, IsShort, IsIn, IsSafe}

-- How the parts of a test decide the parts of a condition.
none_iff :
    {P : Type 0} (c : Bool) (e : ParseError)
    → ((c ≡ false) ↔ P)
    → ((if c then some e else none) ≡ none) ↔ P
none_iff true e h = (λ q. cc, λ p. let q = h.1 p in cc)
none_iff false e h = (λ q. h.0 refl, λ p. refl)

or_iff :
    {P Q : Type 0} (x y : Bool)
    → ((x ≡ false) ↔ P)
    → ((y ≡ false) ↔ Q)
    → ((x || y) ≡ false) ↔ (P × Q)
or_iff true y h k = (λ q. cc, λ (p, _). let q = h.1 p in cc)
or_iff false y h k = (λ q. (h.0 refl, k.0 q), λ (_, q). k.1 q)

given_iff :
    {A : Type 0} (P : A → Type 0) (p : A → Bool) (o : Option A)
    → ((a : A) → (p a ≡ false) ↔ P a)
    → (is_some_and o p ≡ false) ↔ IfGiven P o
given_iff P p none h = (λ _. tt, λ _. refl)
given_iff P p (some a) h = h a

required_iff :
    {A : Type 0} (P : A → Type 0) (p : A → Bool) (o : Option A)
    → ((a : A) → (p a ≡ false) ↔ P a)
    → (is_none_or o p ≡ false) ↔ IsGiven P o
required_iff P p none h = (λ q. cc, λ q. absurd q)
required_iff P p (some a) h = h a

if_iff : {P : Type 0} (b x : Bool) → ((x ≡ false) ↔ P) → ((b && x) ≡ false) ↔ (b ≡ true → P)
if_iff true x h = (λ q _. h.0 q, λ f. h.1 (f refl))
if_iff false x h = (λ q r. cc, λ f. refl)

not_iff : (b : Bool) → (not b ≡ false) ↔ (b ≡ true)
not_iff true = ground arith
not_iff false = ground arith

text_iff : (limit : ℕ) (s : Bytes) → (is_bad_text limit s ≡ false) ↔ IsShort limit s
text_iff limit [] = ground arith
text_iff limit (c ∷ s) = ground arith

empty_iff : (s : Bytes) → (is_empty s ≡ false) ↔ (s ≢ [])
empty_iff [] = (λ h. cc, λ h. absurd (h refl))
empty_iff (c ∷ s) = (λ h e. cc, λ h. refl)

outside_iff : (lo hi v : ℕ) → (is_outside lo hi v ≡ false) ↔ IsIn lo hi v
outside_iff lo hi v = ground arith

token_iff :
    (v : Bytes)
    → ((ltb (length v) 32 || (ltb 8192 (length v) || not (all is_ascii v))) ≡ false)
      ↔ (IsIn 32 8192 (length v) × (all is_ascii v ≡ true))
token_iff v = ground arith

nonce_iff :
    (v : Bytes)
    → ((ltb (length v) 32 || (ltb 256 (length v) || not (all is_ascii v))) ≡ false)
      ↔ (IsIn 32 256 (length v) × (all is_ascii v ≡ true))
nonce_iff v = ground arith

odd_iff : (v : ℕ) → (is_odd v ≡ false) ↔ (v % 2 ≡ 0)
odd_iff v = ground arith

zero_iff : (v : ℕ) → ((v == 0) ≡ false) ↔ (1 ≤ v)
zero_iff v = ground arith

le_iff : (limit v : ℕ) → (ltb limit v ≡ false) ↔ (v ≤ limit)
le_iff limit v = ground arith

one_of_iff : (v a b : Bytes) → (not (text_eq v a || text_eq v b) ≡ false) ↔ ((v ≡ a) ⊎ (v ≡ b))
one_of_iff v a b = ground (arith, text_eq_iff v a, text_eq_iff v b)

names_iff :
    (cs : List (Bytes × Bool))
    → (any (is_bad_text 64) (map (λ p. p.0) cs) ≡ false) ↔ All (λ p. IsShort 64 p.0) cs
names_iff [] = (λ _. tt, λ _. refl)
names_iff ((s, b) ∷ cs) = or_iff _ _ (text_iff 64 s) (names_iff cs)

resend_iff :
    (lo hi : ℕ)
    → ((lo == 0 || (ltb hi lo || ltb 1024 (hi - lo))) ≡ false)
      ↔ ((1 ≤ lo) × ((lo ≤ hi) × (hi ≤ lo + 1024)))
resend_iff lo hi = ground arith

uuid_iff : (b : Bool) (e : ParseError) → ((if b then none else some e) ≡ none) ↔ (b ≡ true)
uuid_iff true e = (λ _. refl, λ _. refl)
uuid_iff false e = (λ h. cc, λ h. cc)

ids_iff :
    (g c m a t : ℕ) {P : Type 0} (rest : Bool)
    → ((rest ≡ false) ↔ P)
    → ((g == 0 || (c == 0 || (m == 0 || (a == 0 || (t == 0 || rest))))) ≡ false)
      ↔ (((1 ≤ g) × ((1 ≤ c) × ((1 ≤ m) × ((1 ≤ a) × (1 ≤ t))))) × P)
ids_iff g c m a t rest h =
    let go = or_iff (g == 0) _ (zero_iff g) (
      or_iff (c == 0) _ (zero_iff c) (
        or_iff (m == 0) _ (zero_iff m)
          (or_iff (a == 0) _ (zero_iff a) (or_iff (t == 0) rest (zero_iff t) h)))) in
    (
      λ q. let (p1, (p2, (p3, (p4, (p5, p6))))) = go.0 q in ((p1, (p2, (p3, (p4, p5)))), p6),
      λ ((p1, (p2, (p3, (p4, p5)))), p6). go.1 (p1, (p2, (p3, (p4, (p5, p6))))),
    )

ok_injective :
    (n m : IncomingMessage) → Path (Result ParseError IncomingMessage) (ok n) (ok m) → n ≡ m
ok_injective n m h = cc

module _ (is_uuid : Bytes → Bool) where
  -- The arm of a message lets it through exactly if it is safe.
  refusal_iff : (m : IncomingMessage) → (refusal is_uuid m ≡ none) ↔ IsSafe is_uuid m
  unfolding refusal IsSafe
  refusal_iff (command action request_id payload) = none_iff _ _ (
      or_iff _ _ (text_iff 64 action)
        (or_iff _ _ (text_iff 128 request_id) (not_iff (is_object payload))))
  refusal_iff (event_ack event_id) = uuid_iff (is_uuid event_id) _
  refusal_iff (live_delta_resend stream_id from_seq to_seq) =
      none_iff _ _ (or_iff _ _ (not_iff (is_uuid stream_id)) (resend_iff from_seq to_seq))
  refusal_iff (live_delta_resync stream_id) = uuid_iff (is_uuid stream_id) _
  refusal_iff (discord_join_request_resolved requester riot_id status) = none_iff _ _ (
      or_iff _ _ (zero_iff requester)
        (or_iff _ _ (text_iff 64 status) (given_iff _ _ riot_id (text_iff 128))))
  refusal_iff (discord_presence_context active status invite_code guild_id) = none_iff _ _ (
      or_iff _ _ (text_iff 64 status) (
        or_iff _ _ (given_iff _ _ invite_code (text_iff 64)) (
          or_iff _ _
            (given_iff _ _ guild_id
              (λ id. or_iff _ _ (text_iff 32 id) (not_iff (all is_ascii_digit id))))
            (if_iff active _ (
              or_iff (is_none invite_code) (is_none guild_id) (λ h. h, λ h. h) (λ h. h, λ h. h))))))
  refusal_iff (discord_voice_chat_message g c m a name avatar content time) = none_iff _ _ (
      ids_iff g c m a time _ (
        or_iff _ _ (empty_iff name) (
          or_iff _ _ (le_iff 128 (chars_count name)) (
            or_iff _ _ (empty_iff content) (
              or_iff _ _ (le_iff 800 (chars_count content))
                (given_iff _ _ avatar (text_iff 2048)))))))
  refusal_iff (live_preview_control enabled ttl_ms) =
      none_iff _ _ (given_iff _ _ ttl_ms (outside_iff 500 10000))
  refusal_iff (live_sfu_control enabled ttl_ms url room token codec width height fps bitrate) =
      none_iff _ _ (
        or_iff _ _ (given_iff _ _ ttl_ms (outside_iff 1000 30000)) (
          or_iff _ _ (given_iff _ _ width (λ v. or_iff _ _ (outside_iff 640 2560 v) (odd_iff v))) (
            or_iff _ _ (given_iff _ _ height (λ v. or_iff _ _ (outside_iff 360 1440 v) (odd_iff v)))
              (or_iff _ _ (given_iff _ _ fps (outside_iff 10 60)) (
                or_iff _ _ (given_iff _ _ bitrate (outside_iff 500000 20000000)) (
                  if_iff enabled _ (
                    or_iff _ _ (required_iff _ _ url (text_iff 2048)) (
                      or_iff _ _ (required_iff _ _ room (text_iff 128)) (
                        or_iff _ _ (required_iff _ _ token token_iff) (
                          given_iff _ _ codec
                            (λ v. one_of_iff v (codes "h264") (codes "av1"))))))))))))
  refusal_iff (server_hello protocol_version capabilities) =
      none_iff _ _ (or_iff _ _ (le_iff 64 (length capabilities)) (names_iff capabilities))
  refusal_iff (device_challenge challenge_id nonce) =
      none_iff _ _ (or_iff _ _ (not_iff (is_uuid challenge_id)) (nonce_iff nonce))
  refusal_iff
        (session_bound discord_id discord_name username discord_avatar avatar_url trust token) =
      none_iff _ _ (
        or_iff _ _ (given_iff _ _ discord_id zero_iff) (
          or_iff _ _
            (or_iff _ _ (given_iff _ _ discord_name (λ s. le_iff 128 (length s)))
              (given_iff _ _ username (λ s. le_iff 128 (length s))))
            (or_iff _ _
              (or_iff _ _ (given_iff _ _ discord_avatar (λ s. le_iff 2048 (length s)))
                (given_iff _ _ avatar_url (λ s. le_iff 2048 (length s))))
              (or_iff _ _
                (given_iff _ _ trust (λ v. one_of_iff v (codes "trusted") (codes "new_device")))
                (given_iff _ _ token (λ v.
                  or_iff _ _ (outside_iff 32 256 (length v))
                    (not_iff (all is_ascii_graphic v))))))))
  refusal_iff pong = (λ _. tt, λ _. refl)
  refusal_iff (force_reconnect reason) = (λ _. tt, λ _. refl)
  refusal_iff (live_game_polling enabled) = (λ _. tt, λ _. refl)
  refusal_iff discord_voice_chat_clear = (λ _. tt, λ _. refl)
  refusal_iff unknown = (λ _. tt, λ _. refl)

  -- `parse` accepts a text, as a message, exactly if it has at most 256 KiB, it decodes to that
  -- message, and the message is safe.
  pub parse-IsSafe :
      (decode : Bytes → Option IncomingMessage) (s : Bytes) (m : IncomingMessage)
      → (parse is_uuid decode s ≡ ok m)
        ↔ ((length s ≤ max_relay_message_bytes) × ((decode s ≡ some m) × IsSafe is_uuid m))
  unfolding parse
  parse-IsSafe decode s m = elim (Bool-cases (ltb max_relay_message_bytes (length s))) [
    | inl big ↦ rw big (λ h. cc, λ (p, _). absurd (ground arith))
    | inr fits ↦ elim (Option-cases (decode s)) [
      | inl bad ↦ rw (fits, bad) (λ h. cc, λ (_, (h, _)). cc)
      | inr (n, decoded) ↦ elim (Option-cases (refusal is_uuid n)) [
        | inl passed ↦
            let same : (Path (Result ParseError IncomingMessage) (ok n) (ok m)) → n ≡ m =
              ok_injective n m in
            rw (fits, decoded, passed)
              (
                λ h. (
                  ground arith,
                  (ap some (same h), subst (IsSafe is_uuid) (same h) ((refusal_iff n).0 passed)),
                ),
                λ (_, (h, safe)). cc,
              )
        | inr (e, refused) ↦
            rw (fits, decoded, refused)
              (
                λ h. cc,
                λ (_, (h, safe)).
                    let same : n ≡ m = cc in let passed = (refusal_iff m).1 safe in cc,
              )
      ]
    ]
  ]
