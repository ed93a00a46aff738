-- ===== src/LiveGame/Delta/Sound.antt =====
-- The relay, applying what `json_delta_ops` pushes to the state that it keeps, arrives at the next
-- state.
use yummi_lcu.Common.{
  ℕ, suc, ◌-◌, ◌<◌, true, false, ◌&&◌, ltb, leb, ◌==◌, codes, text_eq_iff, some, List, [], ◌∷◌,
  ◌++◌, ◌≡◌, ◌⊎◌, refl, sym, ap, ◌∙◌, subst, arith, Bool-cases, Option-cases, inl, inr, and-eq_true,
  ltb→lt,
}
use yummi_lcu.Json.{Value, array, object, Items, nil, cons, Fields}
use yummi_lcu.LiveGame.Values.{value_eq}
use yummi_lcu.LiveGame.Arrays.{
  items_length, items_get, items_set, items_append, items_get_middle, items_set_middle,
  items_append_assoc, items_length-items_append,
}
use yummi_lcu.LiveGame.Paths.{
  Seg, key, index, lookup, put, lookup-put, put-put, put-lookup, lookup_snoc, put_snoc,
}
use yummi_lcu.LiveGame.Items.{live_items_participant_index, push_live_item_delta_ops}
use yummi_lcu.LiveGame.Delta.{
  keys_ops, length_ops, inventory_ops, array_ops, merged_keys, json_delta_ops, field_deltas,
  item_deltas,
}
use yummi_lcu.LiveGame.Receiver.{items_path, apply_each}
use yummi_lcu.LiveGame.Receiver.Accepts.{
  is_seg, is_sendable, items_sendable, IsPlace, IsPlace-snoc, apply_each_then,
}
use yummi_lcu.LiveGame.Items.Rows.{IsInventory}
use yummi_lcu.LiveGame.Items.Rounds.{push_live_item_delta_ops_follows}
use yummi_lcu.LiveGame.Delta.Writes.{overlay, apply_length}
use yummi_lcu.LiveGame.Delta.Objects.{Follows, not_root}

-- Wherever one of the first ten participants has an inventory of seven slots, its rows are ones that
-- the relay accepts. It does not say that there is such an inventory.
pub record HasAcceptedRows (root : Value) : Type 0 where
  pub rows :
      (p : ℕ) (xs : Items)
      → p < 10
      → lookup (items_path p) root ≡ some (array xs)
      → items_length xs ≡ 7
      → IsInventory xs

-- The loop over the common part. `done` and `written` are what was passed of the previous and of the
-- next array.
module _ (old new : Value) (path : List Seg) (depth : ℕ) (place : IsPlace path depth) where
  item_deltas-Follows :
      (ps ns done written : Items) (i : ℕ) (root : Value)
      → ((j : ℕ) (v : Value) → items_get j ps ≡ some v → Follows old new v)
      → items_length done ≡ i
      → items_length written ≡ i
      → items_sendable depth i ps ≡ true
      → items_sendable depth i ns ≡ true
      → lookup path old ≡ some (array (items_append done ps))
      → lookup path new ≡ some (array (items_append written ns))
      → lookup path root ≡ some (array (items_append written ps))
      → apply_each (item_deltas ps ns i path) root
        ≡ some (put path (array (items_append written (overlay ps ns))) root)
  unfolding item_deltas items_sendable is_seg
  item_deltas-Follows nil ns done written i root below d w pf nf was is_now here =
      unfold apply_each in
      ap some (sym (put-lookup path (array (items_append written nil)) root here))
  item_deltas-Follows (cons p ps) nil done written i root below d w pf nf was is_now here =
      unfold apply_each in
      ap some (sym (put-lookup path (array (items_append written (cons p ps))) root here))
  item_deltas-Follows (cons p ps) (cons n ns) done written i root below d w pf nf was is_now here =
      let (low, rest) = and-eq_true (leb i 4096) _ pf in
      let (deep, both) = and-eq_true (ltb 0 depth) _ rest in
      let (p_fit, ps_fit) = and-eq_true (is_sendable (depth - 1) p) _ both in
      let (low', rest') = and-eq_true (leb i 4096) _ nf in
      let (deep', both') = and-eq_true (ltb 0 depth) _ rest' in
      let (n_fit, ns_fit) = and-eq_true (is_sendable (depth - 1) n) _ both' in
      let there = IsPlace-snoc path depth (index i) place low (ltb→lt 0 depth deep) in
      let get_old : items_get i (items_append done (cons p ps)) ≡ some p =
        subst (λ (k : ℕ). items_get k (items_append done (cons p ps)) ≡ some p) d
          (items_get_middle done ps p) in
      let get_new : items_get i (items_append written (cons n ns)) ≡ some n =
        subst (λ (k : ℕ). items_get k (items_append written (cons n ns)) ≡ some n) w
          (items_get_middle written ns n) in
      let get_root : items_get i (items_append written (cons p ps)) ≡ some p =
        subst (λ (k : ℕ). items_get k (items_append written (cons p ps)) ≡ some p) w
          (items_get_middle written ps p) in
      let set_root : items_set i n (items_append written (cons p ps))
          ≡ items_append written (cons n ps) =
        subst
          (λ (k : ℕ).
            items_set k n (items_append written (cons p ps)) ≡ items_append written (cons n ps))
          w (items_set_middle written ps p n) in
      let state = array (items_append written (cons p ps)) in
      let state' = array (items_append written (cons n ps)) in
      let root' = put path state' root in
      let first : apply_each (json_delta_ops p n (path ++ (index i ∷ []))) root ≡ some root' =
        below 0 p refl n (path ++ (index i ∷ [])) (depth - 1) root there p_fit n_fit
          (lookup_snoc path (index i) old ∙ (rw was get_old))
          (lookup_snoc path (index i) new ∙ (rw is_now get_new))
          (lookup_snoc path (index i) root ∙ (rw here get_root)) (not_root path (index i) n)
        ∙ ap some (
            put_snoc path (index i) n state p root here get_root
            ∙ ap (λ (xs : Items). put path (array xs) root) set_root) in
      let others =
        item_deltas-Follows ps ns (items_append done (cons p nil))
          (items_append written (cons n nil)) (suc i) root' (λ j v e. below (suc j) v e)
          (omega (arith, items_length-items_append done (cons p nil)))
          (omega (arith, items_length-items_append written (cons n nil))) ps_fit ns_fit
          (was
            ∙ ap (λ (xs : Items). some (array xs)) (sym (items_append_assoc done (cons p nil) ps)))
          (is_now
            ∙ ap (λ (xs : Items). some (array xs))
                (sym (items_append_assoc written (cons n nil) ns)))
          (lookup-put path state' state root here
            ∙ ap (λ (xs : Items). some (array xs))
                (sym (items_append_assoc written (cons n nil) ps))) in
      apply_each_then (json_delta_ops p n (path ++ (index i ∷ []))) (item_deltas ps ns (suc i) path)
        root root' first
      ∙ (others
          ∙ ap some (
              put-put path
                (array (items_append (items_append written (cons n nil)) (overlay ps ns))) state'
                state root here
              ∙ ap (λ (xs : Items). put path (array xs) root)
                  (items_append_assoc written (cons n nil) (overlay ps ns))))

-- The path of an inventory.
live_items_participant_index-items_path :
    (path : List Seg) (p : ℕ)
    → live_items_participant_index path ≡ some p
    → (path ≡ items_path p) × (p < 10)
unfolding live_items_participant_index
live_items_participant_index-items_path (key a ∷ (index b ∷ (key c ∷ []))) p h =
    ground (arith, text_eq_iff a (codes "participants"), text_eq_iff c (codes "items"))
live_items_participant_index-items_path _ p h = absurd (ground arith)

push_other :
    (p : ℕ) (ps ns : Items)
    → ((items_length ps == 7) && (items_length ns == 7)) ≡ false
    → push_live_item_delta_ops p ps ns ≡ ([], false)
unfolding push_live_item_delta_ops
push_other p ps ns h = ground arith

module _ (old new : Value) (old_rows : HasAcceptedRows old) (new_rows : HasAcceptedRows new)
    (path : List Seg) (depth : ℕ) (place : IsPlace path depth) (ps ns : Items) (root : Value)
    (was : lookup path old ≡ some (array ps)) (is_now : lookup path new ≡ some (array ns))
    (here : lookup path root ≡ some (array ps)) where
  -- Two inventories are followed by item operations; anything else pushes none.
  inventory_ops_follows :
      ((ops : List Value) × (inventory_ops path ps ns ≡ (ops, true))
        × (apply_each ops root ≡ some (put path (array ns) root)))
      ⊎ (inventory_ops path ps ns ≡ ([], false))
  unfolding inventory_ops
  inventory_ops_follows = elim (Option-cases (live_items_participant_index path)) [
    | inl e ↦ inr (rw (e, inventory_ops))
    | inr (p, e) ↦ elim (Bool-cases ((items_length ps == 7) && (items_length ns == 7))) [
      | inr f ↦ inr (rw (e, inventory_ops) (push_other p ps ns f))
      | inl f ↦
          let (same, low) = live_items_participant_index-items_path path p e in
          let (seven, seven') = and-eq_true (items_length ps == 7) _ f in
          let there : lookup (items_path p) root ≡ some (array ps) =
            subst (λ (q : List Seg). lookup q root ≡ some (array ps)) same here in
          let v =
            old_rows.rows p ps low
              (subst (λ (q : List Seg). lookup q old ≡ some (array ps)) same was) (ground arith) in
          let w =
            new_rows.rows p ns low
              (subst (λ (q : List Seg). lookup q new ≡ some (array ns)) same is_now)
              (ground arith) in
          let (ops, pushed, reached) =
            push_live_item_delta_ops_follows p ns (omega arith) w ps root there v in
          inl (
            ops,
            rw (e, inventory_ops) pushed,
            subst (λ (q : List Seg). apply_each ops root ≡ some (put q (array ns) root)) (sym same)
                reached,
          )
    ]
  ]

  pub array_ops-Follows :
      ((j : ℕ) (v : Value) → items_get j ps ≡ some v → Follows old new v)
      → items_sendable depth 0 ps ≡ true
      → items_sendable depth 0 ns ≡ true
      → apply_each (array_ops (item_deltas ps ns 0 path) ps ns path) root
        ≡ some (put path (array ns) root)
  unfolding array_ops
  array_ops-Follows below pf nf = elim inventory_ops_follows [
    | inl (ops, pushed, reached) ↦ rw (pushed, array_ops) reached
    | inr e ↦
        let common = array (overlay ps ns) in
        let root' = put path common root in
        let first =
          item_deltas-Follows old new path depth place ps ns nil nil 0 root below (refl) (refl) pf
            nf was is_now here in
        let rest =
          apply_length path depth ps ns root' place (lookup-put path common (array ps) root here) in
        rw (e, array_ops)
          (apply_each_then (item_deltas ps ns 0 path) (length_ops ps ns path) root root' first
            ∙ (rest ∙ ap some (put-put path (array ns) common (array ps) root here)))
  ]

-- The delta of each pair of values, by its equations.
pub objects_lem :
    (ps ns : Fields) (path : List Seg)
    → value_eq (object ps) (object ns) ≡ false
    → json_delta_ops (object ps) (object ns) path
      ≡ keys_ops (merged_keys ps ns) (field_deltas ps) ns path
unfolding json_delta_ops
objects_lem ps ns path e = rw e

pub arrays_lem :
    (ps ns : Items) (path : List Seg)
    → value_eq (array ps) (array ns) ≡ false
    → json_delta_ops (array ps) (array ns) path ≡ array_ops (item_deltas ps ns 0 path) ps ns path
unfolding json_delta_ops
arrays_lem ps ns path e = rw e

pub equal_lem : (v w : Value) (path : List Seg) → value_eq v w ≡ true → json_delta_ops v w path ≡ []
unfolding json_delta_ops
equal_lem (object ps) w path e = rw e
equal_lem (array ps) w path e = rw e
equal_lem _ w path e = rw e
