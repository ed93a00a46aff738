-- ===== src/LiveGame/Delta/Follows.antt =====
-- `json_delta_ops` and the relay's `_apply_live_delta_ops` together: the delta from one state to another,
-- applied to the first, gives the second.
use yummi_lcu.Common.{
  ℕ, zero, suc, true, Bytes, text_eq, some, List, [], ◌≡◌, refl, sym, ap, ◌∙◌, subst, arith,
  Bool-cases, inl, inr, and-eq_true,
}
use yummi_lcu.Json.{Value, array, object, Items, nil, cons, Fields, end, field, get}
use yummi_lcu.LiveGame.Values.{value_eq, value_eq_iff}
use yummi_lcu.LiveGame.Arrays.{items_get}
use yummi_lcu.LiveGame.Dict.{is_sorted}
use yummi_lcu.LiveGame.Delta.Merge.{is_distinct-merged_keys, sync_keys-merged_keys}
use yummi_lcu.LiveGame.Paths.{Seg, lookup, put, put-lookup}
use yummi_lcu.LiveGame.Delta.{merged_keys, json_delta_ops}
use yummi_lcu.LiveGame.Receiver.{apply_each, apply_live_delta_ops}
use yummi_lcu.LiveGame.Receiver.Accepts.{is_sendable, IsPlace}
use yummi_lcu.LiveGame.Delta.Writes.{apply_replace}
use yummi_lcu.LiveGame.Delta.Objects.{Follows, keys_ops_follows}
use yummi_lcu.LiveGame.Delta.Sound.{
  HasAcceptedRows, array_ops-Follows, objects_lem, arrays_lem, equal_lem,
}

module _ (old new : Value) (path : List Seg) (depth : ℕ) (root : Value)
    (place : IsPlace path depth) where
  -- Nothing is pushed for equal values, and nothing has to change.
  follows_equal :
      (before after : Value)
      → lookup path root ≡ some before
      → value_eq before after ≡ true
      → apply_each (json_delta_ops before after path) root ≡ some (put path after root)
  follows_equal before after here e =
      let same : before ≡ after = (value_eq_iff before after).0 e in
      rw (equal_lem before after path e)
        (unfold apply_each in ap some (sym (put-lookup path after root (here ∙ ap some same))))

  Follows-objects :
      (ps ns : Fields)
      → ((k : Bytes) (v : Value) → get k ps ≡ some v → Follows old new v)
      → is_sendable depth (object ps) ≡ true
      → is_sendable depth (object ns) ≡ true
      → lookup path old ≡ some (object ps)
      → lookup path new ≡ some (object ns)
      → lookup path root ≡ some (object ps)
      → apply_each (json_delta_ops (object ps) (object ns) path) root
        ≡ some (put path (object ns) root)
  unfolding is_sendable
  Follows-objects ps ns below pf nf was is_now here =
      elim (Bool-cases (value_eq (object ps) (object ns))) [
        | inl e ↦ follows_equal (object ps) (object ns) here e
        | inr e ↦
            let (ps_sorted, ps_fit) = and-eq_true (is_sorted ps) _ pf in
            let (ns_sorted, ns_fit) = and-eq_true (is_sorted ns) _ nf in
            rw (objects_lem ps ns path e) (
              keys_ops_follows old new path depth place ps ns was is_now ps_fit ns_fit below
                (merged_keys ps ns) ps root (is_distinct-merged_keys ps ns) ps_sorted (λ k h. refl)
                here
              ∙ ap (λ (fs : Fields). some (put path (object fs) root))
                  (sync_keys-merged_keys ps ns ps_sorted ns_sorted))
      ]

  Follows-arrays :
      (ps ns : Items)
      → HasAcceptedRows old
      → HasAcceptedRows new
      → ((j : ℕ) (v : Value) → items_get j ps ≡ some v → Follows old new v)
      → is_sendable depth (array ps) ≡ true
      → is_sendable depth (array ns) ≡ true
      → lookup path old ≡ some (array ps)
      → lookup path new ≡ some (array ns)
      → lookup path root ≡ some (array ps)
      → apply_each (json_delta_ops (array ps) (array ns) path) root
        ≡ some (put path (array ns) root)
  unfolding is_sendable
  Follows-arrays ps ns old_rows new_rows below pf nf was is_now here =
      elim (Bool-cases (value_eq (array ps) (array ns))) [
        | inl e ↦ follows_equal (array ps) (array ns) here e
        | inr e ↦ rw (arrays_lem ps ns path e) (
            array_ops-Follows old new old_rows new_rows path depth place ps ns root was is_now here
              below pf nf)
      ]

module _ (old new : Value) (old_rows : HasAcceptedRows old) (new_rows : HasAcceptedRows new) where
  mutual
    unfolding json_delta_ops get

    follows : (before : Value) → Follows old new before
    follows (object ps) (object ns) path depth root place pf nf was is_now here top =
        Follows-objects old new path depth root place ps ns (fields_follow ps) pf nf was is_now here
    follows (array ps) (array ns) path depth root place pf nf was is_now here top =
        Follows-arrays old new path depth root place ps ns old_rows new_rows (items_follow ps) pf nf
          was is_now here
    follows before after path depth root place pf nf was is_now here top =
        apply_replace path depth place root before after here top

    fields_follow : (ps : Fields) (k : Bytes) (v : Value) → get k ps ≡ some v → Follows old new v
    fields_follow end k v h = absurd (cc)
    fields_follow (field j w fs) k v h = elim (Bool-cases (text_eq j k)) [
      | inl e ↦ let same : w ≡ v = ground arith in subst (Follows old new) same (follows w)
      | inr e ↦ fields_follow fs k v (rw e at h)
    ]

    items_follow : (ps : Items) (j : ℕ) (v : Value) → items_get j ps ≡ some v → Follows old new v
    items_follow nil j v h = absurd (cc)
    items_follow (cons p ps) zero v h =
        let same : p ≡ v = ground arith in subst (Follows old new) same (follows p)
    items_follow (cons p ps) (suc j) v h = items_follow ps j v h

-- A live state that the agent may send as deltas: an object whose keys, positions and depth are within
-- the relay's limits, with rows that the relay accepts wherever one of the first ten participants has an
-- inventory of seven slots.
pub record IsLiveState (fs : Fields) : Type 0 where
  pub sendable : is_sendable 24 (object fs) ≡ true
  pub inventories : HasAcceptedRows (object fs)

-- For two live states, that is objects whose keys, array positions and depth are within the relay's
-- limits and whose inventories of seven slots, where the first ten participants have such, hold rows
-- that the relay accepts: the operations that the agent's
-- `json_delta_ops` pushes from the first to the second are all accepted by the relay's
-- `_apply_live_delta_ops`, which turns the first state into exactly the second.
pub apply_live_delta_ops-json_delta_ops :
    (previous next : Fields)
    → IsLiveState previous
    → IsLiveState next
    → apply_live_delta_ops previous (json_delta_ops (object previous) (object next) []) ≡ some next
unfolding apply_live_delta_ops
apply_live_delta_ops-json_delta_ops previous next p n =
    let place : IsPlace [] 24 = record { segments = refl; near = omega arith } in
    let reached : apply_each (json_delta_ops (object previous) (object next) []) (object previous)
        ≡ some (object next) =
      follows (object previous) (object next) p.inventories n.inventories (object previous)
        (object next) [] 24 (object previous) place p.sendable n.sendable (unfold lookup in refl)
        (unfold lookup in refl) (unfold lookup in refl) refl
      ∙ (unfold put in refl) in
    rw reached
