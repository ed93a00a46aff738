-- ===== src/LiveGame/Dict.antt =====
-- A JSON object as a map: its entries in the order of their keys. This is serde_json's `Map`, a
-- `BTreeMap`; a Python dict is held in the same order, since no part of the stream depends on the
-- order in which Python keeps the keys.
use yummi_lcu.Common.{
  Bool, true, false, ◌&&◌, if◌then◌else◌, Bytes, text_eq, text_eq_iff, text_eq_refl, none, some, [],
  ◌∷◌, ◌≡◌, refl, inl, inr, Option-cases, is_some, ◌∙◌, arith,
}
use yummi_lcu.Json.{Value, Fields, end, field, get}
use yummi_lcu.CommandAuth.Canonical.{text_ltb}

-- The order of the keys.
pub text_ltb_irrefl : (s : Bytes) → text_ltb s s ≡ false
unfolding text_ltb
text_ltb_irrefl [] = refl
text_ltb_irrefl (x ∷ s) = ground (arith, text_ltb_irrefl s)

pub text_ltb_trans :
    (s t u : Bytes) → text_ltb s t ≡ true → text_ltb t u ≡ true → text_ltb s u ≡ true
unfolding text_ltb
text_ltb_trans [] [] u h k = k
text_ltb_trans [] (y ∷ t) [] h k = k
text_ltb_trans [] (y ∷ t) (z ∷ u) h k = refl
text_ltb_trans (x ∷ s) [] u h k = cc
text_ltb_trans (x ∷ s) (y ∷ t) [] h k = cc
text_ltb_trans (x ∷ s) (y ∷ t) (z ∷ u) h k = ground (arith, text_ltb_trans s t u)

pub text_ltb_total : (s t : Bytes) → text_ltb s t ≡ false → text_ltb t s ≡ false → s ≡ t
unfolding text_ltb
text_ltb_total [] [] h k = refl
text_ltb_total [] (y ∷ t) h k = cc
text_ltb_total (x ∷ s) [] h k = cc
text_ltb_total (x ∷ s) (y ∷ t) h k = ground (arith, text_ltb_total s t)

-- Every key is above `k`.
unfoldable pub is_above : Bytes → Fields → Bool
is_above k end = true
is_above k (field j v fs) = text_ltb k j && is_above k fs

unfoldable pub is_sorted : Fields → Bool
unfolding is_above
is_sorted end = true
is_sorted (field j v fs) = is_above j fs && is_sorted fs

-- The write of an entry that is there, in its place.
unfoldable pub replace : Bytes → Value → Fields → Fields
replace k w end = end
replace k w (field j v fs) = if text_eq j k then field j w fs else field j v (replace k w fs)

-- A new entry takes its place in the order.
unfoldable pub insert_new : Bytes → Value → Fields → Fields
insert_new k w end = field k w end
insert_new k w (field j v fs) =
    if text_ltb k j then field k w (field j v fs) else field j v (insert_new k w fs)

-- `parent[key] = value`: an entry that is there is overwritten.
unfoldable pub insert : Bytes → Value → Fields → Fields
unfolding replace insert_new
insert k w fs = if is_some (get k fs) then replace k w fs else insert_new k w fs

-- `del parent[key]`
unfoldable pub delete : Bytes → Fields → Fields
delete k end = end
delete k (field j v fs) = if text_eq j k then fs else field j v (delete k fs)

pub get-replace :
    (k j : Bytes) (w v : Value) (fs : Fields)
    → get k fs ≡ some v
    → get j (replace k w fs) ≡ (if text_eq k j then some w else get j fs)
unfolding get replace
get-replace k j w v end h = cc
get-replace k j w v (field i u fs) h =
    ground (arith, text_eq_iff i k, text_eq_iff k j, text_eq_iff i j, get-replace k j w v fs)

pub replace-replace :
    (k : Bytes) (w u : Value) (fs : Fields) → replace k w (replace k u fs) ≡ replace k w fs
unfolding replace
replace-replace k w u end = refl
replace-replace k w u (field j v fs) = ground (arith, replace-replace k w u fs)

pub replace-get : (k : Bytes) (v : Value) (fs : Fields) → get k fs ≡ some v → replace k v fs ≡ fs
unfolding get replace
replace-get k v end h = refl
replace-get k v (field j u fs) h = ground (arith, replace-get k v fs)

is_above_trans :
    (j k : Bytes) (fs : Fields) → text_ltb j k ≡ true → is_above k fs ≡ true → is_above j fs ≡ true
unfolding is_above
is_above_trans j k end h a = refl
is_above_trans j k (field i v fs) h a =
    ground (arith, is_above_trans j k fs h, text_ltb_trans j k i)

-- A key below all others is missing.
get-is_above : (k : Bytes) (fs : Fields) → is_above k fs ≡ true → get k fs ≡ none
unfolding is_above get
get-is_above k end h = refl
get-is_above k (field j v fs) h =
    ground (arith, text_eq_iff j k, text_ltb_irrefl k, text_ltb_irrefl j, get-is_above k fs)

get-insert_new :
    (k j : Bytes) (w : Value) (fs : Fields)
    → get k fs ≡ none
    → get j (insert_new k w fs) ≡ (if text_eq k j then some w else get j fs)
unfolding get insert_new
get-insert_new k j w end h = refl
get-insert_new k j w (field i v fs) h =
    ground (arith, text_eq_iff i k, text_eq_iff k j, text_eq_iff i j, get-insert_new k j w fs)

pub get-insert :
    (k j : Bytes) (w : Value) (fs : Fields)
    → get j (insert k w fs) ≡ (if text_eq k j then some w else get j fs)
unfolding insert
get-insert k j w fs = elim (Option-cases (get k fs)) [
  | inl e ↦ rw e (get-insert_new k j w fs e)
  | inr (v, e) ↦ rw e (get-replace k j w v fs e)
]

pub get-delete :
    (k j : Bytes) (fs : Fields)
    → is_sorted fs ≡ true
    → get j (delete k fs) ≡ (if text_eq k j then none else get j fs)
unfolding get delete is_sorted
get-delete k j end h = ground arith
get-delete k j (field i v fs) h =
    ground (
      arith,
      text_eq_iff i k,
      text_eq_iff k j,
      text_eq_iff i j,
      get-delete k j fs,
      get-is_above i fs,
    )

is_above-insert_new :
    (i k : Bytes) (w : Value) (fs : Fields)
    → text_ltb i k ≡ true
    → is_above i fs ≡ true
    → is_above i (insert_new k w fs) ≡ true
unfolding is_above insert_new
is_above-insert_new i k w end h a = ground arith
is_above-insert_new i k w (field j v fs) h a = ground (arith, is_above-insert_new i k w fs h)

is_above-replace :
    (i k : Bytes) (w : Value) (fs : Fields) → is_above i (replace k w fs) ≡ is_above i fs
unfolding is_above replace
is_above-replace i k w end = refl
is_above-replace i k w (field j v fs) = ground (arith, is_above-replace i k w fs)

is_sorted-replace :
    (k : Bytes) (w : Value) (fs : Fields) → is_sorted (replace k w fs) ≡ is_sorted fs
unfolding is_sorted replace
is_sorted-replace k w end = refl
is_sorted-replace k w (field j v fs) =
    ground (arith, is_above-replace j k w fs, is_sorted-replace k w fs)

is_above-delete :
    (i k : Bytes) (fs : Fields) → is_above i fs ≡ true → is_above i (delete k fs) ≡ true
unfolding is_above delete
is_above-delete i k end a = refl
is_above-delete i k (field j v fs) a = ground (arith, is_above-delete i k fs)

is_sorted-insert_new :
    (k : Bytes) (w : Value) (fs : Fields)
    → get k fs ≡ none
    → is_sorted fs ≡ true
    → is_sorted (insert_new k w fs) ≡ true
unfolding is_sorted insert_new is_above get
is_sorted-insert_new k w end g h = refl
is_sorted-insert_new k w (field j v fs) g h = ground (
  arith,
  text_eq_iff j k,
  text_ltb_total k j,
  is_above-insert_new j k w fs,
  is_above_trans k j fs,
  is_sorted-insert_new k w fs,
)

pub is_sorted-insert :
    (k : Bytes) (w : Value) (fs : Fields) → is_sorted fs ≡ true → is_sorted (insert k w fs) ≡ true
unfolding insert
is_sorted-insert k w fs h = elim (Option-cases (get k fs)) [
  | inl e ↦ rw e (is_sorted-insert_new k w fs e h)
  | inr (v, e) ↦ rw e (is_sorted-replace k w fs ∙ h)
]

pub is_sorted-delete :
    (k : Bytes) (fs : Fields) → is_sorted fs ≡ true → is_sorted (delete k fs) ≡ true
unfolding is_sorted delete
is_sorted-delete k end h = refl
is_sorted-delete k (field j v fs) h = ground (arith, is_above-delete j k fs, is_sorted-delete k fs)

-- A write of a key that is there is a replacement.
pub insert-get :
    (k : Bytes) (w v : Value) (fs : Fields) → get k fs ≡ some v → insert k w fs ≡ replace k w fs
unfolding insert
insert-get k w v fs h = rw h

-- A map is what it answers: sorted entries with the same answers are the same.
pub fields_ext :
    (fs gs : Fields)
    → is_sorted fs ≡ true
    → is_sorted gs ≡ true
    → ((k : Bytes) → get k fs ≡ get k gs)
    → fs ≡ gs
unfolding is_sorted get
fields_ext end end s t h = refl
fields_ext end (field k w gs) s t h = ground (arith, h k, text_eq_refl k)
fields_ext (field j v fs) end s t h = ground (arith, h j, text_eq_refl j)
fields_ext (field j v fs) (field k w gs) s t h =
    let first : j ≡ k = ground (
      arith,
      h j,
      h k,
      text_eq_refl j,
      text_eq_refl k,
      text_eq_iff j k,
      text_eq_iff k j,
      text_ltb_total j k,
      get-is_above j gs,
      get-is_above k fs,
      is_above_trans j k gs,
      is_above_trans k j fs,
    ) in
    let value : v ≡ w = ground (arith, h j, text_eq_refl j, text_eq_iff k j) in
    let same : (i : Bytes) → get i fs ≡ get i gs = λ i.
      ground (arith, h i, text_eq_iff j i, text_eq_iff k i, get-is_above i fs, get-is_above i gs) in
    let others = fields_ext fs gs (ground arith) (ground arith) same in cc
