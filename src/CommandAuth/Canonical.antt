-- ===== src/CommandAuth/Canonical.antt =====
-- relay/command_auth.rs, `canonical_json`: the text that a command's signature covers.
-- `quote` stands for `serde_json::to_string` on a string, which is not the agent's code.
use yummi_lcu.Common.{
  ℕ, zero, suc, ◌+◌, ◌/◌, ◌%◌, Bool, true, false, List, [], ◌∷◌, ◌++◌, Bytes, codes, ltb, ◌==◌,
  if◌then◌else◌, Result, ok, err, ◌>>=◌,
}
use yummi_lcu.Json.{
  Value, null, bool, pos_int, neg_int, float, text, array, object, Items, nil, cons, Fields, end,
  field,
}

-- What `AgentError::Relay` reports, one constructor for each message.
pub data AuthError : Type 0 where
  float_number : AuthError
  not_an_object unsigned bad_version bad_target no_issued no_expires : AuthError
  bad_nonce bad_signature_text bad_key_id : AuthError
  bad_time : AuthError
  fetch_failed bad_status too_large bad_body bad_algorithm bad_public_key key_id_mismatch :
      AuthError
  cache_poisoned replayed : AuthError
  unbound target_mismatch wrong_key_id bad_signature_bytes signature_rejected : AuthError

-- `u64::to_string`: twenty rounds are enough for every value below 10 ^ 20.
digits : ℕ → ℕ → Bytes → Bytes
digits zero n out = out
digits (suc fuel) n out =
    let longer = (b'0' + n % 10) ∷ out in
    let rest = digits fuel (n / 10) longer in if n / 10 == 0 then longer else rest

unfoldable pub show_u64 : ℕ → Bytes
unfolding digits
show_u64 n = digits 20 n []

-- `Ord` on `String`: bytes, lexicographically.
unfoldable pub text_ltb : Bytes → Bytes → Bool
text_ltb [] [] = false
text_ltb [] (y ∷ ys) = true
text_ltb (x ∷ xs) [] = false
text_ltb (x ∷ xs) (y ∷ ys) = if x == y then text_ltb xs ys else ltb x y

-- `keys.sort()`, with the rendered value beside each key.
unfoldable pub insert_entry : Bytes → Bytes → List (Bytes × Bytes) → List (Bytes × Bytes)
insert_entry k v [] = (k, v) ∷ []
insert_entry k v ((j, w) ∷ es) =
    if text_ltb k j then (k, v) ∷ (j, w) ∷ es else (j, w) ∷ insert_entry k v es

unfoldable pub sort_entries : List (Bytes × Bytes) → List (Bytes × Bytes)
sort_entries [] = []
sort_entries ((k, v) ∷ es) = insert_entry k v (sort_entries es)

-- The parts with a comma before each but the first.
unfoldable pub join_commas : List Bytes → Bytes
join_commas [] = []
join_commas (p ∷ []) = p
join_commas (p ∷ (q ∷ ps)) = p ++ (b',' ∷ join_commas (q ∷ ps))

module _ (quote : Bytes → Bytes) where
  unfoldable pub join_entries : List (Bytes × Bytes) → List Bytes
  join_entries [] = []
  join_entries ((k, v) ∷ es) = (quote k ++ (b':' ∷ v)) ∷ join_entries es

  unfoldable mutual
    pub canonical_json : Value → Result AuthError Bytes
    canonical_json null = ok (codes "null")
    canonical_json (bool true) = ok (codes "true")
    canonical_json (bool false) = ok (codes "false")
    canonical_json (pos_int n) = ok (show_u64 n)
    canonical_json (neg_int n) = ok (b'-' ∷ show_u64 (suc n))
    canonical_json (float x) = err float_number
    canonical_json (text s) = ok (quote s)
    canonical_json (array xs) =
        canonical_items xs >>= λ parts. ok (b'[' ∷ (join_commas parts ++ b']' ∷ []))
    canonical_json (object fs) = canonical_fields fs >>= λ es.
        ok (b'{' ∷ (join_commas (join_entries (sort_entries es)) ++ b'}' ∷ []))

    pub canonical_items : Items → Result AuthError (List Bytes)
    canonical_items nil = ok []
    canonical_items (cons v vs) = canonical_json v >>= λ p. canonical_items vs >>= λ ps. ok (p ∷ ps)

    -- Each key with its value's text. Which entry is rendered first makes no difference: the only
    -- error is `float_number`.
    pub canonical_fields : Fields → Result AuthError (List (Bytes × Bytes))
    canonical_fields end = ok []
    canonical_fields (field k v fs) =
        canonical_json v >>= λ p. canonical_fields fs >>= λ es. ok ((k, p) ∷ es)
