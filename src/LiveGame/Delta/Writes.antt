-- ===== src/LiveGame/Delta/Writes.antt =====
-- The operations of `json_delta_ops` on plain values, as writes at their path in the relay's state.
use yummi_lcu.Common.{
  ℕ, zero, suc, ◌<◌, ◌≤◌, Bool, true, false, not, ◌&&◌, ltb, if◌then◌else◌, some, List, [], ◌∷◌,
  ◌≡◌, refl, sym, ap, ◌∙◌, arith, Bool-cases, Option-cases, inl, inr, lt→ltb,
}
use yummi_lcu.Json.{Value, array, object, Items, nil, cons, Fields, is_object}
use yummi_lcu.LiveGame.Values.{value_eq, value_eq_iff}
use yummi_lcu.LiveGame.Arrays.{items_length, items_get, items_append, items_take, items_drop}
use yummi_lcu.LiveGame.Dict.{insert-get}
use yummi_lcu.LiveGame.Paths.{
  Seg, key, index, child, put_child, lookup, put, put_cons, put-lookup, at_parent, at_target_lem,
}
use yummi_lcu.LiveGame.Delta.{set_json, length_ops}
use yummi_lcu.LiveGame.Receiver.{
  set_op, append_op, truncate_op, set_child, append_to, truncate_to, apply_op, apply_each,
}
use yummi_lcu.LiveGame.Receiver.Accepts.{
  IsPlace, parse_op-set_json, parse_op-append_json, parse_op-truncate_json, apply_each_one,
}

abbrev pub is_root : List Seg → Bool
is_root [] = true
is_root (s ∷ p) = false

items_get-lt : (i : ℕ) (v : Value) (xs : Items) → items_get i xs ≡ some v → i < items_length xs
items_get-lt i v nil h = absurd (cc)
items_get-lt zero v (cons x xs) h = omega arith
items_get-lt (suc i) v (cons x xs) h = omega (arith, items_get-lt i v xs h)

-- A child that is there is overwritten in its place.
set_child-put_child :
    (w c v : Value) (s : Seg) → child s v ≡ some c → set_child w s v ≡ some (put_child s w v)
unfolding set_child
set_child-put_child w c (object fs) (key k) h =
    ap (λ (gs : Fields). some (object gs)) (insert-get k w c fs h)
set_child-put_child w c (array xs) (index i) h =
    rw (lt→ltb i (items_length xs) (items_get-lt i c xs h))
set_child-put_child w c _ (key k) h = absurd (cc)
set_child-put_child w c _ (index i) h = absurd (cc)

at_parent-put :
    (w c v : Value) (s : Seg) (p : List Seg)
    → lookup (s ∷ p) v ≡ some c
    → at_parent (set_child w) (s ∷ p) v ≡ some (put (s ∷ p) w v)
unfolding at_parent lookup
at_parent-put w c v s [] h = elim (Option-cases (child s v)) [
  | inl e ↦ ground arith
  | inr (d, e) ↦
      rw (set_child-put_child w d v s e) (rw (put_cons s [] w d v e) (unfold put in refl))
]
at_parent-put w c v s (t ∷ p) h = elim (Option-cases (child s v)) [
  | inl e ↦ ground arith
  | inr (d, e) ↦
      let reached = rw e at h in
      rw (e, put_cons s (t ∷ p) w d v e) (rw (at_parent-put w c d t p reached))
]

apply_op_set :
    (p : List Seg) (w c root : Value)
    → lookup p root ≡ some c
    → (is_root p && not (is_object w)) ≡ false
    → apply_op (set_op p w) root ≡ some (put p w root)
unfolding apply_op
apply_op_set [] w c root h k = unfold put in ground arith
apply_op_set (s ∷ p) w c root h k = at_parent-put w c root s p h

module _ (p : List Seg) (depth : ℕ) (place : IsPlace p depth) (root : Value) where
  pub apply_set :
      (w c : Value)
      → lookup p root ≡ some c
      → (is_root p && not (is_object w)) ≡ false
      → apply_each (set_json p w ∷ []) root ≡ some (put p w root)
  apply_set w c h k =
      apply_each_one _ (set_op p w) root _ (parse_op-set_json p depth place w)
        (apply_op_set p w c root h k)

  -- The delta of two values that are not both objects or both arrays.
  pub apply_replace :
      (before after : Value)
      → lookup p root ≡ some before
      → (is_root p && not (is_object after)) ≡ false
      → apply_each (if value_eq before after then [] else set_json p after ∷ []) root
        ≡ some (put p after root)
  apply_replace before after h k = elim (Bool-cases (value_eq before after)) [
    | inl e ↦
        let same : before ≡ after = (value_eq_iff before after).0 e in
        rw e (unfold apply_each in ap some (sym (put-lookup p after root (h ∙ ap some same))))
    | inr e ↦ rw e (apply_set after before h k)
  ]

  apply_op_append :
      (xs ys : Items)
      → lookup p root ≡ some (array xs)
      → apply_op (append_op p ys) root ≡ some (put p (array (items_append xs ys)) root)
  unfolding apply_op append_to
  apply_op_append xs ys h =
      at_target_lem (append_to ys) p (array xs) (array (items_append xs ys)) root h refl

  apply_op_truncate :
      (xs : Items) (n : ℕ)
      → lookup p root ≡ some (array xs)
      → n ≤ items_length xs
      → apply_op (truncate_op p n) root ≡ some (put p (array (items_take n xs)) root)
  unfolding apply_op truncate_to
  apply_op_truncate xs n h k =
      at_target_lem (truncate_to n) p (array xs) (array (items_take n xs)) root h (ground arith)

-- What the loop over the common part leaves: the next values, then the rest of the previous ones.
abbrev pub overlay : Items → Items → Items
overlay nil ns = nil
overlay (cons p ps) nil = cons p ps
overlay (cons p ps) (cons n ns) = cons n (overlay ps ns)

overlay_longer :
    (ps ns : Items)
    → items_length ps ≤ items_length ns
    → items_append (overlay ps ns) (items_drop (items_length ps) ns) ≡ ns
overlay_longer nil ns h = refl
overlay_longer (cons p ps) nil h = absurd (omega arith)
overlay_longer (cons p ps) (cons n ns) h = ap (cons n) (overlay_longer ps ns (omega arith))

overlay_shorter :
    (ps ns : Items)
    → items_length ns ≤ items_length ps
    → items_take (items_length ns) (overlay ps ns) ≡ ns
overlay_shorter nil nil h = refl
overlay_shorter nil (cons n ns) h = absurd (omega arith)
overlay_shorter (cons p ps) nil h = refl
overlay_shorter (cons p ps) (cons n ns) h = ap (cons n) (overlay_shorter ps ns (omega arith))

overlay_equal : (ps ns : Items) → items_length ns ≡ items_length ps → overlay ps ns ≡ ns
overlay_equal nil nil h = refl
overlay_equal nil (cons n ns) h = absurd (omega arith)
overlay_equal (cons p ps) nil h = absurd (omega arith)
overlay_equal (cons p ps) (cons n ns) h = ap (cons n) (overlay_equal ps ns (omega arith))

items_length-overlay : (ps ns : Items) → items_length (overlay ps ns) ≡ items_length ps
items_length-overlay nil ns = refl
items_length-overlay (cons p ps) nil = refl
items_length-overlay (cons p ps) (cons n ns) = ap suc (items_length-overlay ps ns)

-- The append or the truncation that follows the common part.
pub apply_length :
    (p : List Seg) (depth : ℕ) (ps ns : Items) (root : Value)
    → IsPlace p depth
    → lookup p root ≡ some (array (overlay ps ns))
    → apply_each (length_ops ps ns p) root ≡ some (put p (array ns) root)
unfolding length_ops
apply_length p depth ps ns root place h =
    elim (Bool-cases (ltb (items_length ps) (items_length ns))) [
      | inl longer ↦
          let full = overlay_longer ps ns (ground arith) in
          rw longer (
            apply_each_one _ (append_op p (items_drop (items_length ps) ns)) root _
              (parse_op-append_json p depth place (items_drop (items_length ps) ns))
              (apply_op_append p depth place root (overlay ps ns) (items_drop (items_length ps) ns)
                  h
                ∙ ap (λ (xs : Items). some (put p (array xs) root)) full))
      | inr e ↦ elim (Bool-cases (ltb (items_length ns) (items_length ps))) [
        | inl shorter ↦
            let cut = overlay_shorter ps ns (ground arith) in
            rw (e, shorter)
              (apply_each_one _ (truncate_op p (items_length ns)) root _
                (parse_op-truncate_json p depth place (items_length ns))
                (apply_op_truncate p depth place root (overlay ps ns) (items_length ns) h
                    (ground (arith, items_length-overlay ps ns))
                  ∙ ap (λ (xs : Items). some (put p (array xs) root)) cut))
        | inr f ↦
            let same = overlay_equal ps ns (ground arith) in
            let there : lookup p root ≡ some (array ns) =
              h ∙ ap (λ (xs : Items). some (array xs)) same in
            rw (e, f) (unfold apply_each in ap some (sym (put-lookup p (array ns) root there)))
      ]
    ]
