-- ===== src/LiveGame/Delta/Objects.antt =====
-- The walk of `json_delta_ops` over the keys of two objects, applied by the relay.
use yummi_lcu.Common.{
  ℕ, ◌-◌, true, false, not, ◌&&◌, Bytes, text_eq, text_eq_iff, text_eq_refl, none, some, List, [],
  ◌∷◌, ◌++◌, ◌≡◌, refl, sym, ap, ◌∙◌, arith, Bool-cases, Option-cases, inl, inr, and-eq_true,
}
use yummi_lcu.Json.{Value, object, Fields, end, field, get, is_object}
use yummi_lcu.LiveGame.Dict.{is_sorted, insert, delete, insert-get}
use yummi_lcu.LiveGame.Delta.Merge.{
  contains, is_distinct, sync_key, sync_keys, get-sync_key, is_sorted-sync_key,
}
use yummi_lcu.LiveGame.Paths.{
  Seg, key, lookup, put, lookup-put, put-put, put-lookup, lookup_snoc, put_snoc, at_parent_lem,
}
use yummi_lcu.LiveGame.Delta.{
  set_json, delete_json, key_ops, keys_ops, json_delta_ops, field_deltas,
}
use yummi_lcu.LiveGame.Receiver.{set_op, delete_op, set_child, delete_child, apply_op, apply_each}
use yummi_lcu.LiveGame.Receiver.Accepts.{
  is_sendable, fields_sendable, fields_sendable-get, IsPlace, IsPlace-snoc, parse_op-set_json,
  parse_op-delete_json, apply_each_one, apply_each_then,
}
use yummi_lcu.LiveGame.Delta.Writes.{is_root}

-- A set below an object, whose key may be new, and a deletion.
apply_op_snoc :
    (p : List Seg) (s : Seg) (w c c' root : Value)
    → lookup p root ≡ some c
    → set_child w s c ≡ some c'
    → apply_op (set_op (p ++ (s ∷ [])) w) root ≡ some (put p c' root)
unfolding apply_op
apply_op_snoc [] s w c c' root h e = at_parent_lem (set_child w) [] s c c' root h e
apply_op_snoc (t ∷ p) s w c c' root h e = at_parent_lem (set_child w) (t ∷ p) s c c' root h e

apply_op-delete :
    (p : List Seg) (k : Bytes) (v : Value) (fs : Fields) (root : Value)
    → lookup p root ≡ some (object fs)
    → get k fs ≡ some v
    → apply_op (delete_op (p ++ (key k ∷ []))) root ≡ some (put p (object (delete k fs)) root)
unfolding apply_op delete_child
apply_op-delete p k v fs root h e =
    at_parent_lem delete_child p (key k) (object fs) (object (delete k fs)) root h (rw e)

delete_missing : (k : Bytes) (fs : Fields) → get k fs ≡ none → delete k fs ≡ fs
unfolding delete get
delete_missing k end h = refl
delete_missing k (field j v fs) h = ground (arith, delete_missing k fs)

-- The delta that the walk finds under a key.
field_deltas-get :
    (k : Bytes) (v : Value) (fs : Fields)
    → get k fs ≡ some v
    → field_deltas fs k ≡ some (λ next path. json_delta_ops v next path)
unfolding field_deltas get
field_deltas-get k v end h = absurd (cc)
field_deltas-get k v (field j w fs) h = elim (Bool-cases (text_eq j k)) [
  | inl e ↦ let same : w ≡ v = ground arith in rw (e, same)
  | inr e ↦ rw e (field_deltas-get k v fs (rw e at h))
]

field_deltas_missing : (k : Bytes) (fs : Fields) → get k fs ≡ none → field_deltas fs k ≡ none
unfolding field_deltas get
field_deltas_missing k end h = refl
field_deltas_missing k (field j w fs) h = elim (Bool-cases (text_eq j k)) [
  | inl e ↦ absurd (ground arith)
  | inr e ↦ rw e (field_deltas_missing k fs (rw e at h))
]

pub not_root :
    (path : List Seg) (s : Seg) (w : Value)
    → (is_root (path ++ (s ∷ [])) && not (is_object w)) ≡ false
not_root [] s w = refl
not_root (t ∷ path) s w = refl

-- What is proved of a value of the previous state: the delta from it is right wherever the relay
-- holds it. `old` and `new` are the roots of the two states.
abbrev pub Follows : Value → Value → Value → Type 0
Follows old new before =
    (after : Value) (path : List Seg) (depth : ℕ) (root : Value)
    → IsPlace path depth
    → is_sendable depth before ≡ true
    → is_sendable depth after ≡ true
    → lookup path old ≡ some before
    → lookup path new ≡ some after
    → lookup path root ≡ some before
    → (is_root path && not (is_object after)) ≡ false
    → apply_each (json_delta_ops before after path) root ≡ some (put path after root)

module _ (old new : Value) (path : List Seg) (depth : ℕ) (place : IsPlace path depth)
    (ps ns : Fields) (was : lookup path old ≡ some (object ps))
    (is_now : lookup path new ≡ some (object ns)) (ps_fit : fields_sendable depth ps ≡ true)
    (ns_fit : fields_sendable depth ns ≡ true)
    (below : (k : Bytes) (v : Value) → get k ps ≡ some v → Follows old new v) where
  -- One key of an object.
  key_ops_follows :
      (k : Bytes) (cur : Fields) (root : Value)
      → lookup path root ≡ some (object cur)
      → get k cur ≡ get k ps
      → apply_each (key_ops (field_deltas ps k) (get k ns) (path ++ (key k ∷ []))) root
        ≡ some (put path (object (sync_key k ns cur)) root)
  unfolding key_ops sync_key apply_each
  key_ops_follows k cur root here same = elim (Option-cases (get k ps)) [
    | inl e ↦ elim (Option-cases (get k ns)) [
      | inl f ↦
          let kept : delete k cur ≡ cur = delete_missing k cur (same ∙ e) in
          rw (field_deltas_missing k ps e, f, sync_key, kept)
            (ap some (sym (put-lookup path (object cur) root here)))
      | inr (w, f) ↦
          let kid = fields_sendable-get depth k w ns ns_fit f in
          let there = IsPlace-snoc path depth (key k) place kid.segment kid.deeper in
          rw (field_deltas_missing k ps e, f, sync_key)
            (apply_each_one (set_json (path ++ (key k ∷ [])) w) (set_op (path ++ (key k ∷ [])) w)
              root _ (parse_op-set_json (path ++ (key k ∷ [])) (depth - 1) there w)
              (apply_op_snoc path (key k) w (object cur) (object (insert k w cur)) root here
                (unfold set_child in refl)))
    ]
    | inr (v, e) ↦
        let kid = fields_sendable-get depth k v ps ps_fit e in
        let there = IsPlace-snoc path depth (key k) place kid.segment kid.deeper in
        elim (Option-cases (get k ns)) [
          | inl f ↦
              rw (field_deltas-get k v ps e, f, sync_key)
                (apply_each_one (delete_json (path ++ (key k ∷ [])))
                  (delete_op (path ++ (key k ∷ []))) root _
                  (parse_op-delete_json (path ++ (key k ∷ [])) (depth - 1) there)
                  (apply_op-delete path k v cur root here (same ∙ e)))
          | inr (w, f) ↦
              let kid' = fields_sendable-get depth k w ns ns_fit f in
              rw (field_deltas-get k v ps e, f, sync_key)
                (below k v e w (path ++ (key k ∷ [])) (depth - 1) root there kid.sendable
                    kid'.sendable (lookup_snoc path (key k) old ∙ (rw was e))
                    (lookup_snoc path (key k) new ∙ (rw is_now f))
                    (lookup_snoc path (key k) root ∙ (rw here (same ∙ e))) (not_root path (key k) w)
                  ∙ ap some (
                      put_snoc path (key k) w (object cur) v root here (same ∙ e)
                      ∙ ap (λ (gs : Fields). put path (object gs) root)
                          (sym (insert-get k w v cur (same ∙ e)))))
        ]
  ]

  -- The keys that are left, each once. Those to come are still as the previous object has them.
  pub keys_ops_follows :
      (ks : List Bytes) (cur : Fields) (root : Value)
      → is_distinct ks ≡ true
      → is_sorted cur ≡ true
      → ((k : Bytes) → contains k ks ≡ true → get k cur ≡ get k ps)
      → lookup path root ≡ some (object cur)
      → apply_each (keys_ops ks (field_deltas ps) ns path) root
        ≡ some (put path (object (sync_keys ks ns cur)) root)
  unfolding keys_ops sync_keys is_distinct contains
  keys_ops_follows [] cur root once sorted same here =
      unfold apply_each in ap some (sym (put-lookup path (object cur) root here))
  keys_ops_follows (k ∷ ks) cur root once sorted same here =
      let cur' = sync_key k ns cur in
      let root' = put path (object cur') root in
      let first = key_ops_follows k cur root here (same k (ground (arith, text_eq_refl k))) in
      let (new_key, others) = and-eq_true (not (contains k ks)) _ once in
      let same' : (j : Bytes) → contains j ks ≡ true → get j cur' ≡ get j ps =
        λ j h. ground (arith, get-sync_key j k ns cur sorted, same j, text_eq_iff k j) in
      let rest =
        keys_ops_follows ks cur' root' others (is_sorted-sync_key k ns cur sorted) same'
          (lookup-put path (object cur') (object cur) root here) in
      apply_each_then (key_ops (field_deltas ps k) (get k ns) (path ++ (key k ∷ [])))
        (keys_ops ks (field_deltas ps) ns path) root root' first
      ∙ (rest
          ∙ ap some
              (put-put path (object (sync_keys ks ns cur')) (object cur') (object cur) root here))
