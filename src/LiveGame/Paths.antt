-- ===== src/LiveGame/Paths.antt =====
-- Places inside a JSON value: a path of keys and indices, the value at its end, and the change of the
-- value there. relay/app.py walks a path and changes the object that it finds; here the walk rebuilds
-- the values on the way.
use yummi_lcu.Common.{
  ℕ, ◌==◌, Bool, true, if◌then◌else◌, Bytes, text_eq_refl, Option, none, some, and_then, List, [],
  ◌∷◌, ◌++◌, ◌≡◌, refl, ap, ◌∙◌, arith, Option-cases, inl, inr,
}
use yummi_lcu.Json.{Value, array, object, get}
use yummi_lcu.LiveGame.Arrays.{
  items_get, items_set, items_get-items_set, items_set-items_set, items_set-items_get,
}
use yummi_lcu.LiveGame.Dict.{replace, get-replace, replace-replace, replace-get}

-- A segment of a path: `Value::String` or a `Value::Number` that is an index.
pub data Seg : Type 0 where
  key : Bytes → Seg
  index : ℕ → Seg

abbrev pub child : Seg → Value → Option Value
child (key k) (object fs) = get k fs
child (index i) (array xs) = items_get i xs
child _ _ = none

-- The same value with another child in the place of the one that is there.
abbrev pub put_child : Seg → Value → Value → Value
put_child (key k) w (object fs) = object (replace k w fs)
put_child (index i) w (array xs) = array (items_set i w xs)
put_child _ w v = v

unfoldable pub lookup : List Seg → Value → Option Value
lookup [] v = some v
lookup (s ∷ p) v = and_then (child s v) (λ c. lookup p c)

unfoldable pub put : List Seg → Value → Value → Value
put [] w v = w
put (s ∷ p) w v = elim (child s v) [ none ↦ v | some c ↦ put_child s (put p w c) v ]

-- `_live_delta_target`, then a change of what it finds.
unfoldable pub at_target : (Value → Option Value) → List Seg → Value → Option Value
at_target f [] v = f v
at_target f (s ∷ p) v =
    and_then (child s v) λ c. and_then (at_target f p c) λ c'. some (put_child s c' v)

-- `_live_delta_parent`, then a change of the parent at the last segment.
unfoldable pub at_parent : (Seg → Value → Option Value) → List Seg → Value → Option Value
at_parent f [] v = none
at_parent f (s ∷ []) v = f s v
at_parent f (s ∷ (t ∷ p)) v =
    and_then (child s v) λ c. and_then (at_parent f (t ∷ p) c) λ c'. some (put_child s c' v)

pub child-put_child :
    (s : Seg) (w c v : Value) → child s v ≡ some c → child s (put_child s w v) ≡ some w
child-put_child (key k) w c (object fs) h =
    get-replace k k w c fs h ∙ ap (λ (b : Bool). if b then some w else get k fs) (text_eq_refl k)
child-put_child (index i) w c (array xs) h =
    let e : (i == i) ≡ true = ground arith in
    items_get-items_set i i w c xs h ∙ ap (λ (b : Bool). if b then some w else items_get i xs) e
child-put_child _ w c _ h = cc

put_child-put_child : (s : Seg) (w u v : Value) → put_child s w (put_child s u v) ≡ put_child s w v
put_child-put_child (key k) w u (object fs) = ap object (replace-replace k w u fs)
put_child-put_child (index i) w u (array xs) = ap array (items_set-items_set i w u xs)
put_child-put_child (key k) w u _ = refl
put_child-put_child (index i) w u _ = refl

put_child-child : (s : Seg) (c v : Value) → child s v ≡ some c → put_child s c v ≡ v
put_child-child (key k) c (object fs) h = ap object (replace-get k c fs h)
put_child-child (index i) c (array xs) h = ap array (items_set-items_get i c xs h)
put_child-child _ c _ h = cc

-- One step of a write.
pub put_cons :
    (s : Seg) (p : List Seg) (w d v : Value)
    → child s v ≡ some d
    → put (s ∷ p) w v ≡ put_child s (put p w d) v
unfolding put
put_cons s p w d v e = rw (e, put)

-- What a path leads to after a write there, two writes, and a write of what is there.
pub lookup-put :
    (p : List Seg) (w c v : Value) → lookup p v ≡ some c → lookup p (put p w v) ≡ some w
unfolding lookup put
lookup-put [] w c v h = refl
lookup-put (s ∷ p) w c v h = elim (Option-cases (child s v)) [
  | inl e ↦ ground arith
  | inr (d, e) ↦
      let reached = rw e at h in
      (rw (e, put) (rw (child-put_child s (put p w d) d v e) (lookup-put p w c d reached)))
]

pub put-put :
    (p : List Seg) (w u c v : Value) → lookup p v ≡ some c → put p w (put p u v) ≡ put p w v
unfolding lookup
put-put [] w u c v h = unfold put in refl
put-put (s ∷ p) w u c v h = elim (Option-cases (child s v)) [
  | inl e ↦ ground arith
  | inr (d, e) ↦
      let reached = rw e at h in
      rw (put_cons s p u d v e) (
        rw (put_cons s p w (put p u d) _ (child-put_child s (put p u d) d v e)) (
          rw (put-put p w u c d reached, put_cons s p w d v e)
            (put_child-put_child s (put p w d) (put p u d) v)))
]

pub put-lookup : (p : List Seg) (c v : Value) → lookup p v ≡ some c → put p c v ≡ v
unfolding lookup put
put-lookup [] c v h = ground arith
put-lookup (s ∷ p) c v h = elim (Option-cases (child s v)) [
  | inl e ↦ ground arith
  | inr (d, e) ↦
      let reached = rw e at h in
      (rw (e, put) (rw (put-lookup p c d reached) (put_child-child s d v e)))
]

-- A path that is one segment longer.
pub lookup_snoc :
    (p : List Seg) (s : Seg) (v : Value) → lookup (p ++ s ∷ []) v ≡ and_then (lookup p v) (child s)
unfolding lookup
lookup_snoc [] s v = ground arith
lookup_snoc (t ∷ p) s v = elim (Option-cases (child t v)) [
  | inl e ↦ rw e
  | inr (d, e) ↦ rw e (lookup_snoc p s d)
]

pub put_snoc :
    (p : List Seg) (s : Seg) (w c d v : Value)
    → lookup p v ≡ some c
    → child s c ≡ some d
    → put (p ++ s ∷ []) w v ≡ put p (put_child s w c) v
unfolding lookup
put_snoc [] s w c d v h k = unfold put in ground arith
put_snoc (t ∷ p) s w c d v h k = elim (Option-cases (child t v)) [
  | inl e ↦ ground arith
  | inr (x, e) ↦
      let reached = rw e at h in
      rw (put_cons t (p ++ s ∷ []) w x v e, put_cons t p (put_child s w c) x v e)
        (ap (λ (c' : Value). put_child t c' v) (put_snoc p s w c d x reached k))
]

-- The changes at a place, as writes.
pub at_target_lem :
    (f : Value → Option Value) (p : List Seg) (c c' v : Value)
    → lookup p v ≡ some c
    → f c ≡ some c'
    → at_target f p v ≡ some (put p c' v)
unfolding lookup at_target
at_target_lem f [] c c' v h k = unfold put in ground arith
at_target_lem f (s ∷ p) c c' v h k = elim (Option-cases (child s v)) [
  | inl e ↦ ground arith
  | inr (d, e) ↦
      let reached = rw e at h in
      rw (e, put_cons s p c' d v e) (rw (at_target_lem f p c c' d reached k))
]

pub at_parent_lem :
    (f : Seg → Value → Option Value) (p : List Seg) (s : Seg) (c c' v : Value)
    → lookup p v ≡ some c
    → f s c ≡ some c'
    → at_parent f (p ++ s ∷ []) v ≡ some (put p c' v)
unfolding lookup at_parent
at_parent_lem f [] s c c' v h k = unfold put in ground arith
at_parent_lem f (t ∷ []) s c c' v h k = unfold put in ground arith
at_parent_lem f (t ∷ (u ∷ p)) s c c' v h k = elim (Option-cases (child t v)) [
  | inl e ↦ ground arith
  | inr (d, e) ↦
      let reached = rw e at h in
      rw (e, put_cons t (u ∷ p) c' d v e) (rw (at_parent_lem f (u ∷ p) s c c' d reached k))
]
