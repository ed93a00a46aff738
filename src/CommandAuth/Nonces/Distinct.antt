-- ===== src/CommandAuth/Nonces/Distinct.antt =====
-- The keys of the replay cache stay distinct, so an entry that a full cache gives up is one that
-- expires first.
use yummi_lcu.Common.{
  ℕ, ◌≤◌, ◌≡◌, ◌⊎◌, inl, inr, Bool, false, [], ◌∷◌, some, arith, Bytes, text_eq, text_eq_iff,
  text_eq_refl, length, leb, saturating_add, Bool-cases, Option-cases,
}
use yummi_lcu.CommandAuth.Envelope.{max_clock_skew_ms}
use yummi_lcu.CommandAuth.Nonces.{
  Nonces, max_nonces, contains_key, oldest, unexpired, make_room, remove_key, claim_nonce,
}
use yummi_lcu.CommandAuth.Nonces.Cache.{
  expiry_of, contains_key-expiry_of, expiry_of-unexpired, NoneBefore, NoneBefore-oldest,
  expiry_of-remove_key, contains_key-oldest,
}

abbrev pub IsDistinct : Nonces → Type 0
IsDistinct [] = Unit
IsDistinct ((k, e) ∷ cache) = (contains_key k cache ≡ false) × IsDistinct cache

not_contains_key-unexpired :
    (n : Bytes) (now : ℕ) (cache : Nonces)
    → contains_key n cache ≡ false
    → contains_key n (unexpired now cache) ≡ false
unfolding contains_key unexpired
not_contains_key-unexpired n now [] h = h
not_contains_key-unexpired n now ((k, e) ∷ cache) h =
    ground (arith, not_contains_key-unexpired n now cache)

pub unexpired-IsDistinct :
    (now : ℕ) (cache : Nonces) → IsDistinct cache → IsDistinct (unexpired now cache)
unfolding unexpired
unexpired-IsDistinct now [] d = tt
unexpired-IsDistinct now ((k, e) ∷ cache) (h, d) =
    elim (Bool-cases (leb now (saturating_add e max_clock_skew_ms))) [
      | inl live ↦
          rw live (not_contains_key-unexpired k now cache h, unexpired-IsDistinct now cache d)
      | inr dead ↦ rw dead (unexpired-IsDistinct now cache d)
    ]

not_contains_key-remove_key :
    (n k : Bytes) (cache : Nonces)
    → contains_key n cache ≡ false
    → contains_key n (remove_key k cache) ≡ false
unfolding contains_key remove_key
not_contains_key-remove_key n k [] h = h
not_contains_key-remove_key n k ((j, e) ∷ cache) h =
    ground (arith, not_contains_key-remove_key n k cache)

remove_key-IsDistinct :
    (k : Bytes) (cache : Nonces) → IsDistinct cache → IsDistinct (remove_key k cache)
unfolding remove_key
remove_key-IsDistinct k [] d = tt
remove_key-IsDistinct k ((j, e) ∷ cache) (h, d) = elim (Bool-cases (text_eq j k)) [
  | inl same ↦ rw same (remove_key-IsDistinct k cache d)
  | inr other ↦ rw other (not_contains_key-remove_key j k cache h, remove_key-IsDistinct k cache d)
]

make_room-IsDistinct : (cache : Nonces) → IsDistinct cache → IsDistinct (make_room cache)
unfolding make_room
make_room-IsDistinct cache d = elim (Option-cases (oldest cache)) [
  | inl empty ↦ ground arith
  | inr ((k, e), found) ↦ ground (arith, remove_key-IsDistinct k cache d)
]

not_contains_key-make_room :
    (n : Bytes) (cache : Nonces)
    → contains_key n cache ≡ false
    → contains_key n (make_room cache) ≡ false
unfolding make_room
not_contains_key-make_room n cache h = elim (Option-cases (oldest cache)) [
  | inl empty ↦ ground arith
  | inr ((k, e), found) ↦ ground (arith, not_contains_key-remove_key n k cache h)
]

-- Every claim keeps the nonces distinct.
pub claim_nonce-IsDistinct :
    (poisoned : Bool) (nonce : Bytes) (expires now : ℕ) (cache : Nonces)
    → IsDistinct cache
    → IsDistinct (claim_nonce poisoned nonce expires now cache).0
unfolding claim_nonce
claim_nonce-IsDistinct poisoned nonce expires now cache d =
    let kept = unexpired-IsDistinct now cache d in
    ground (
      arith,
      kept,
      make_room-IsDistinct (unexpired now cache) kept,
      not_contains_key-make_room nonce (unexpired now cache),
    )

expiry_of-oldest :
    (cache : Nonces) (k : Bytes) (e : ℕ)
    → IsDistinct cache
    → oldest cache ≡ some (k, e)
    → expiry_of k cache ≡ some e
unfolding expiry_of oldest
expiry_of-oldest [] k e d h = cc
expiry_of-oldest ((j, f) ∷ cache) k e (fresh, d) h = elim (Option-cases (oldest cache)) [
  | inl empty ↦ ground (arith, text_eq_refl k)
  | inr ((i, g), found) ↦ ground (
    arith,
    text_eq_refl k,
    expiry_of-oldest cache i g d found,
    contains_key-oldest cache i g found,
    text_eq_iff j i,
  )
]

-- Making room drops an entry only if none expires before it.
pub make_room_forgets :
    (n : Bytes) (e : ℕ) (cache : Nonces)
    → IsDistinct cache
    → expiry_of n cache ≡ some e
    → (expiry_of n (make_room cache) ≡ some e) ⊎ (max_nonces ≤ length cache) × NoneBefore e cache
unfolding make_room
make_room_forgets n e cache d q = elim (Option-cases (oldest cache)) [
  | inl empty ↦ inl (ground arith)
  | inr ((k, f), found) ↦ elim (Bool-cases (text_eq k n)) [
    | inl same ↦
        let e' : e ≡ f = ground (arith, text_eq_iff k n, expiry_of-oldest cache k f d found) in
        ground (arith, NoneBefore-oldest cache k e (rw e' found))
    | inr other ↦ inl (ground (arith, expiry_of-remove_key n k cache))
  ]
]

-- A claim loses a nonce that is still valid only when the cache is full of valid nonces, and then one
-- that none of them expires before.
pub claim_nonce_forgets :
    (poisoned : Bool) (nonce n : Bytes) (expires e now : ℕ) (cache : Nonces)
    → IsDistinct cache
    → now ≤ saturating_add e max_clock_skew_ms
    → expiry_of n cache ≡ some e
    → let kept = unexpired now cache in
      (expiry_of n (claim_nonce poisoned nonce expires now cache).0 ≡ some e)
      ⊎ (max_nonces ≤ length kept) × NoneBefore e kept
unfolding claim_nonce expiry_of
claim_nonce_forgets poisoned nonce n expires e now cache d h q =
    let live = expiry_of-unexpired n e now cache h q in
    let kept =
      make_room_forgets n e (unexpired now cache) (unexpired-IsDistinct now cache d) live in
    ground
      (arith, live, kept, text_eq_iff nonce n, contains_key-expiry_of nonce (unexpired now cache))
