-- ===== src/Gamebar/Notify.antt =====
-- state.rs, the Game Bar snapshot: a change is announced, and a pushed toast is listed as it was
-- pushed.
use yummi_lcu.Common.{
  ℕ, zero, suc, ◌-◌, length-append, drop, ◌≤◌, ◌≡◌, refl, inl, inr, Bool, true, false, List, [],
  ◌∷◌, ◌++◌, arith, length, retain, length-retain-le, str_eq, str_eq_iff, str_eq_refl, Bool-cases,
  Option, String, none, some, if◌then◌else◌, ◌==◌, saturating_add,
}
use yummi_lcu.Gamebar.{
  GameBarSnapshot, GameBarToast, prune_toasts, push_gamebar_toast, toast_is_shown, stamp, restamp,
  replace_toast, same_toast, has_toast, keep_last, toast_max_items, toast_sticky_expires_at_ms,
}
use yummi_lcu.Gamebar.Distinct.{restamp-id}

same_toast_eq : (a b : GameBarToast) → same_toast a b ≡ true → a ≡ b
unfolding same_toast
same_toast_eq a b h = ground (
  arith,
  str_eq_iff a.id b.id,
  str_eq_iff a.source b.source,
  str_eq_iff a.title b.title,
  str_eq_iff a.body b.body,
  str_eq_iff a.tone b.tone,
)

-- If nothing is removed, nothing changes.
retain_all :
    {A : Type 0} (p : A → Bool) (xs : List A) → length (retain p xs) ≡ length xs → retain p xs ≡ xs
unfolding retain
retain_all p [] h = refl
retain_all p (x ∷ xs) h = ground (arith, retain_all p xs, length-retain-le p xs)

replace_toast_same :
    (t : GameBarToast) (ts : List GameBarToast)
    → (replace_toast t ts).1 ≡ false
    → (replace_toast t ts).0 ≡ ts
unfolding replace_toast
replace_toast_same t [] h = refl
replace_toast_same t (old ∷ ts) h = elim (Bool-cases (str_eq old.id t.id)) [
  | inl same ↦ ground (arith, same_toast_eq old (restamp old t))
  | inr other ↦ ground (arith, replace_toast_same t ts)
]

-- A push that does not notify the overlay has left every toast as it was.
pub push_gamebar_toast_quiet :
    (now : ℕ) (toast : GameBarToast) (s : GameBarSnapshot)
    → (push_gamebar_toast now toast s).1 ≡ false
    → (push_gamebar_toast now toast s).0.overlay_toasts ≡ s.overlay_toasts
unfolding push_gamebar_toast prune_toasts
push_gamebar_toast_quiet now toast s h =
    let kept = retain (toast_is_shown now) s.overlay_toasts in
    let t = stamp now toast in
    ground (arith, retain_all (toast_is_shown now) s.overlay_toasts, replace_toast_same t kept)

-- The first toast of an identifier.
unfoldable pub toast_of : String → List GameBarToast → Option GameBarToast
toast_of id [] = none
toast_of id (t ∷ ts) = if str_eq t.id id then some t else toast_of id ts

-- `u` is `toast` as it was pushed at `now`: all its texts, and the time of its end, which is 6 seconds
-- after its own time, or after `now` if it has none, unless it names one.
pub record IsPushed (now : ℕ) (toast u : GameBarToast) : Type 0 where
  pub same_id : u.id ≡ toast.id
  pub same_source : u.source ≡ toast.source
  pub same_title : u.title ≡ toast.title
  pub same_body : u.body ≡ toast.body
  pub same_tone : u.tone ≡ toast.tone
  pub ends : u.expires_at_ms ≡ (
      if toast.expires_at_ms == 0
      then saturating_add (if toast.timestamp_ms == 0 then now else toast.timestamp_ms) 6000
      else toast.expires_at_ms)

stamp-IsPushed : (now : ℕ) (toast : GameBarToast) → IsPushed now toast (stamp now toast)
unfolding stamp
stamp-IsPushed now toast = record {
  same_id = refl;
  same_source = refl;
  same_title = refl;
  same_body = refl;
  same_tone = refl;
  ends = refl;
}

restamp-IsPushed :
    (now : ℕ) (toast old t : GameBarToast)
    → IsPushed now toast t
    → IsPushed now toast (restamp old t)
unfolding restamp
restamp-IsPushed now toast old t h =
    elim (Bool-cases (t.expires_at_ms == toast_sticky_expires_at_ms)) [
      | inl sticky ↦ rw sticky (record {
        same_id = h.same_id;
        same_source = h.same_source;
        same_title = h.same_title;
        same_body = h.same_body;
        same_tone = h.same_tone;
        ends = h.ends;
      })
      | inr other ↦ rw other h
    ]

toast_of-replace_toast :
    (t : GameBarToast) (ts : List GameBarToast)
    → has_toast t.id ts ≡ true
    → (old : GameBarToast) × (toast_of t.id (replace_toast t ts).0 ≡ some (restamp old t))
unfolding replace_toast toast_of restamp
toast_of-replace_toast t [] h = absurd (cc)
toast_of-replace_toast t (old ∷ ts) h = elim (Bool-cases (str_eq old.id t.id)) [
  | inl same ↦ rw (same, restamp-id old t, str_eq_refl t.id) (old, refl)
  | inr other ↦ rw (other, other) (toast_of-replace_toast t ts (rw other at h))
]

toast_of-drop :
    (n : ℕ) (ts : List GameBarToast) (t : GameBarToast)
    → n ≤ length ts
    → has_toast t.id ts ≡ false
    → toast_of t.id (drop n (ts ++ t ∷ [])) ≡ some t
unfolding toast_of
toast_of-drop zero [] t h k = rw (str_eq_refl t.id) refl
toast_of-drop zero (u ∷ ts) t h k = ground (arith, toast_of-drop zero ts t (omega arith))
toast_of-drop (suc n) [] t h k = absurd (omega arith)
toast_of-drop (suc n) (u ∷ ts) t h k = ground (arith, toast_of-drop n ts t (omega arith))

-- After a push, however full the overlay was, the toast that is listed under the pushed identifier has
-- the texts that were pushed, and the end that was pushed or else one 6 seconds after the toast's time;
-- also where a toast of the same identifier was listed before.
pub push_gamebar_toast-IsPushed :
    (now : ℕ) (toast : GameBarToast) (s : GameBarSnapshot)
    → (u : GameBarToast) × (toast_of toast.id (push_gamebar_toast now toast s).0.overlay_toasts
        ≡ some u)
      × IsPushed now toast u
unfolding push_gamebar_toast keep_last stamp
push_gamebar_toast-IsPushed now toast s =
    let ts = (prune_toasts now s).0.overlay_toasts in
    let t = stamp now toast in
    elim (Bool-cases (has_toast toast.id ts)) [
      | inl listed ↦
          let (old, found) = toast_of-replace_toast t ts listed in
          rw listed
            (restamp old t, found, restamp-IsPushed now toast old t (stamp-IsPushed now toast))
      | inr new ↦ rw new (
        t,
        toast_of-drop (length (ts ++ t ∷ []) - toast_max_items) ts t
            (omega (arith, length-append ts (t ∷ []))) new,
        stamp-IsPushed now toast,
      )
    ]
