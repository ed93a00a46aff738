-- ===== src/Gamebar/Distinct.antt =====
-- state.rs, the Game Bar snapshot: lists without repeated identifiers, under the steps that
-- its operations take.
use yummi_lcu.Common.{
  ℕ, zero, suc, ◌-◌, ◌≤◌, ◌≡◌, refl, sym, ◌∙◌, inl, inr, Bool, false, ◌||◌, List, [], ◌∷◌, ◌++◌,
  String, arith, length, drop, any, ◌==◌, retain, length-drop, str_eq, str_eq_iff, Bool-cases, All,
}
use yummi_lcu.Gamebar.{
  GameBarToast, VoiceChatOverlayMessage, restamp, replace_toast, keep_last, has_toast, has_message,
}

module _ {ℓ} {A : Type ℓ} where
  pub length-keep_last : (limit : ℕ) (xs : List A) → length (keep_last limit xs) ≤ limit
  unfolding keep_last
  length-keep_last limit xs = omega (arith, length-drop (length xs - limit) xs)

  pub any-append : (p : A → Bool) (xs ys : List A) → any p (xs ++ ys) ≡ (any p xs || any p ys)
  any-append p [] ys = refl
  any-append p (x ∷ xs) ys = ground (arith, any-append p xs ys)

  pub any-retain : (p q : A → Bool) (xs : List A) → any p xs ≡ false → any p (retain q xs) ≡ false
  unfolding retain
  any-retain p q [] h = refl
  any-retain p q (x ∷ xs) h = ground (arith, any-retain p q xs)

-- No identifier occurs twice.
unfoldable pub IsToasts : List GameBarToast → Type 0
IsToasts [] = Unit {0}
IsToasts (t ∷ ts) = (has_toast t.id ts ≡ false) × IsToasts ts

unfoldable pub IsMessages : List VoiceChatOverlayMessage → Type 0
IsMessages [] = Unit {0}
IsMessages (m ∷ ms) = (has_message m.message_id ms ≡ false) × IsMessages ms

pub retain-IsToasts :
    (p : GameBarToast → Bool) (ts : List GameBarToast) → IsToasts ts → IsToasts (retain p ts)
unfolding retain IsToasts
retain-IsToasts p [] d = tt
retain-IsToasts p (t ∷ ts) (n, d) = elim (Bool-cases (p t)) [
  | inl kept ↦ rw kept (any-retain (λ u. str_eq u.id t.id) p ts n, retain-IsToasts p ts d)
  | inr gone ↦ rw gone (retain-IsToasts p ts d)
]

pub retain-IsMessages :
    (p : VoiceChatOverlayMessage → Bool) (ms : List VoiceChatOverlayMessage)
    → IsMessages ms
    → IsMessages (retain p ms)
unfolding retain IsMessages
retain-IsMessages p [] d = tt
retain-IsMessages p (m ∷ ms) (n, d) = elim (Bool-cases (p m)) [
  | inl kept ↦
      rw kept (any-retain (λ u. u.message_id == m.message_id) p ms n, retain-IsMessages p ms d)
  | inr gone ↦ rw gone (retain-IsMessages p ms d)
]

pub drop-IsToasts : (n : ℕ) (ts : List GameBarToast) → IsToasts ts → IsToasts (drop n ts)
unfolding IsToasts
drop-IsToasts zero ts d = d
drop-IsToasts (suc n) [] d = tt
drop-IsToasts (suc n) (t ∷ ts) (_, d) = drop-IsToasts n ts d

pub drop-IsMessages :
    (n : ℕ) (ms : List VoiceChatOverlayMessage) → IsMessages ms → IsMessages (drop n ms)
unfolding IsMessages
drop-IsMessages zero ms d = d
drop-IsMessages (suc n) [] d = tt
drop-IsMessages (suc n) (m ∷ ms) (_, d) = drop-IsMessages n ms d

pub drop-All : {A : Type 0} (P : A → Type 0) (n : ℕ) (xs : List A) → All P xs → All P (drop n xs)
drop-All P zero xs h = h
drop-All P (suc n) [] h = tt
drop-All P (suc n) (x ∷ xs) (_, h) = drop-All P n xs h

pub append-IsToasts :
    (ts : List GameBarToast) (t : GameBarToast)
    → has_toast t.id ts ≡ false
    → IsToasts ts
    → IsToasts (ts ++ t ∷ [])
unfolding IsToasts
append-IsToasts [] t n d = (refl, tt)
append-IsToasts (u ∷ ts) t n (k, d) = (
  ground (
    arith,
    any-append (λ x. str_eq x.id u.id) ts (t ∷ []),
    str_eq_iff t.id u.id,
    str_eq_iff u.id t.id,
  ),
  append-IsToasts ts t (ground arith) d,
)

pub append-IsMessages :
    (ms : List VoiceChatOverlayMessage) (m : VoiceChatOverlayMessage)
    → has_message m.message_id ms ≡ false
    → IsMessages ms
    → IsMessages (ms ++ m ∷ [])
unfolding IsMessages
append-IsMessages [] m n d = (refl, tt)
append-IsMessages (u ∷ ms) m n (k, d) = (
  ground (arith, any-append (λ x. x.message_id == u.message_id) ms (m ∷ [])),
  append-IsMessages ms m (ground arith) d,
)

-- Replacing a toast leaves the identifiers as they are.
pub restamp-id : (old t : GameBarToast) → (restamp old t).id ≡ t.id
unfolding restamp
restamp-id old t = ground arith

pub has_toast-replace_toast :
    (id : String) (t : GameBarToast) (ts : List GameBarToast)
    → has_toast id (replace_toast t ts).0 ≡ has_toast id ts
unfolding replace_toast
has_toast-replace_toast id t [] = refl
has_toast-replace_toast id t (old ∷ ts) = elim (Bool-cases (str_eq old.id t.id)) [
  | inl same ↦ rw (same, restamp-id old t, (str_eq_iff old.id t.id).0 same) refl
  | inr other ↦ rw (other, has_toast-replace_toast id t ts) refl
]

pub replace_toast-IsToasts :
    (t : GameBarToast) (ts : List GameBarToast) → IsToasts ts → IsToasts (replace_toast t ts).0
unfolding replace_toast IsToasts
replace_toast-IsToasts t [] d = tt
replace_toast-IsToasts t (old ∷ ts) (n, d) = elim (Bool-cases (str_eq old.id t.id)) [
  | inl same ↦ rw (same, restamp-id old t, sym ((str_eq_iff old.id t.id).0 same)) (n, d)
  | inr other ↦ rw other (has_toast-replace_toast old.id t ts ∙ n, replace_toast-IsToasts t ts d)
]

pub length-replace_toast :
    (t : GameBarToast) (ts : List GameBarToast) → length (replace_toast t ts).0 ≡ length ts
unfolding replace_toast
length-replace_toast t [] = refl
length-replace_toast t (old ∷ ts) = ground (arith, length-replace_toast t ts)
