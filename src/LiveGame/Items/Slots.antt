-- ===== src/LiveGame/Items/Slots.antt =====
-- The rounds of `push_live_item_delta_ops`: each leaves one more slot as the next inventory has it, and
-- the relay, applying the same operations, stays with the working rows.
use yummi_lcu.Common.{
  ℕ, suc, ◌≤◌, Bool, not, ◌&&◌, ◌==◌, if◌then◌else◌, Bytes, codes, text_eq, text_eq_iff, Option,
  none, some, List, [], ◌∷◌, ◌≡◌, ◌≢◌, refl, sym, arith, Bool-cases, inl, inr, subst,
}
use yummi_lcu.Json.{Value, null, pos_int, text, array, Items, Fields, get}
use yummi_lcu.LiveGame.Arrays.{items_set}
use yummi_lcu.LiveGame.Paths.{lookup, put}
use yummi_lcu.LiveGame.Items.{
  slot_at, count_json, remove_json, add_json, count_delta, same_identity, live_item_identity,
  identified, write_slot,
}
use yummi_lcu.LiveGame.Receiver.{items_path, item_row, apply_each}
use yummi_lcu.LiveGame.Items.Rows.{
  Row, is_row-cases, slot_at-items_set, IsInventory, IsInventory-items_set, Agree,
}
use yummi_lcu.LiveGame.Items.Inventory.{
  apply_remove, apply_add, apply_count, count_delta_rows, shift,
}

-- `write_slot` in its three cases.
count_delta_null : (v : Value) → count_delta v null ≡ none
unfolding count_delta same_identity live_item_identity
count_delta_null v = ground arith

count_delta_null_row : (i : ℕ) (m : Bytes) (a : ℕ) → count_delta null (item_row i m a) ≡ none
unfolding count_delta same_identity live_item_identity
count_delta_null_row i m a = refl

write_slot_null :
    (p slot : ℕ) (working next : Items)
    → slot_at slot next ≡ null
    → write_slot p slot working next
      ≡ (remove_json p slot ∷ [], some (items_set slot (slot_at slot next) working))
unfolding write_slot
write_slot_null p slot working next e = ground (arith, count_delta_null (slot_at slot working))

write_slot_count :
    (p slot : ℕ) (working next : Items) (d : Bool × ℕ)
    → count_delta (slot_at slot working) (slot_at slot next) ≡ some d
    → write_slot p slot working next
      ≡ (count_json p slot d ∷ [], some (items_set slot (slot_at slot next) working))
unfolding write_slot
write_slot_count p slot working next d e = rw (e, write_slot)

identified_row :
    (i : ℕ) (m : Bytes) (a : ℕ)
    → (fs : Fields) × (identified (item_row i m a) ≡ some (fs, pos_int i))
      × (get (codes "name") fs ≡ some (text m))
      × (get (codes "count") fs ≡ some (pos_int a))
unfolding identified item_row get text_eq
identified_row i m a = (_, refl, refl, refl)

write_slot_add :
    (p slot : ℕ) (working next : Items) (r : Row (slot_at slot next))
    → count_delta (slot_at slot working) (slot_at slot next) ≡ none
    → write_slot p slot working next ≡ (
      add_json p slot (pos_int r.id) (text r.name) (pos_int r.count) ∷ [],
      some (items_set slot (slot_at slot next) working),
    )
unfolding write_slot
write_slot_add p slot working next r e =
    rw (e, write_slot) (ground (arith, identified_row r.id r.name r.count, r.same))

-- What a round achieves: it goes on with new working rows, one more slot is right, and the relay's
-- inventory becomes the working rows.
pub record Step (p slot : ℕ) (next : Items) (root : Value) (result : List Value × Option Items)
    : Type 0 where
  pub working : Items
  pub continues : result.1 ≡ some working
  pub inventory : IsInventory working
  pub agree : Agree (suc slot) working next
  pub applied : apply_each (result.0) root ≡ some (put (items_path p) (array working) root)

module _ (p slot : ℕ) (xs next : Items) (root : Value) (player : p ≤ 9) (bound : slot ≤ 6)
    (here : lookup (items_path p) root ≡ some (array xs)) (v : IsInventory xs)
    (w : IsInventory next) (before : Agree slot xs next) where
  Agree-set : Agree (suc slot) (items_set slot (slot_at slot next) xs) next
  Agree-set j h =
      ground
        (arith, slot_at-items_set slot j (slot_at slot next) xs (omega (arith, v.seven)), before j)

  Step-write :
      (ops : List Value)
      → apply_each ops root
        ≡ some (put (items_path p) (array (items_set slot (slot_at slot next) xs)) root)
      → Step p slot next root (ops, some (items_set slot (slot_at slot next) xs))
  Step-write ops e = record {
    working = items_set slot (slot_at slot next) xs;
    continues = refl;
    inventory = IsInventory-items_set slot (slot_at slot next) xs (omega arith) (w.rows slot) v;
    agree = Agree-set;
    applied = e;
  }

  Step-null : slot_at slot next ≡ null → Step p slot next root (write_slot p slot xs next)
  Step-null e = rw (write_slot_null p slot xs next e) (
      Step-write (remove_json p slot ∷ [])
        (rw e (apply_remove p slot xs root player bound here v.seven)))

  Step-add :
      (r : Row (slot_at slot next))
      → count_delta (slot_at slot xs) (slot_at slot next) ≡ none
      → Step p slot next root (write_slot p slot xs next)
  Step-add r e = rw (write_slot_add p slot xs next r e) (
      Step-write (add_json p slot (pos_int r.id) (text r.name) (pos_int r.count) ∷ [])
        (apply_add p slot xs root player bound here v.seven (slot_at slot next) r))

  -- Both slots hold a row, and the rows differ.
  Step-rows :
      (q : Row (slot_at slot xs)) (r : Row (slot_at slot next))
      → slot_at slot xs ≢ slot_at slot next
      → Step p slot next root (write_slot p slot xs next)
  Step-rows q r ne =
      let delta : count_delta (slot_at slot xs) (slot_at slot next) ≡ (
          if (q.id == r.id) && (text_eq q.name r.name && not (q.count == r.count))
          then some (shift q.count r.count)
          else none) =
        rw (q.same, r.same)
          (count_delta_rows q.id r.id q.name r.name q.count r.count q.count_high r.count_high) in
      elim (Bool-cases ((q.id == r.id) && (text_eq q.name r.name && not (q.count == r.count)))) [
        | inl e ↦
            let count = rw e at delta in
            let same_id : q.id ≡ r.id = ground arith in
            let same_name : q.name ≡ r.name = ground (arith, text_eq_iff q.name r.name) in
            let differ : q.count ≢ r.count = ground arith in
            let target : item_row q.id q.name r.count ≡ slot_at slot next =
              rw (same_id, same_name) (sym r.same) in
            rw (write_slot_count p slot xs next (shift q.count r.count) count) (
              Step-write (count_json p slot (shift q.count r.count) ∷ []) (
                subst
                  (λ (u : Value).
                    apply_each (count_json p slot (shift q.count r.count) ∷ []) root
                    ≡ some (put (items_path p) (array (items_set slot u xs)) root))
                  target
                  (apply_count p slot xs root player bound here v.seven q.id q.name q.count r.count
                    q.same q.count_high q.count_low r.count_low r.count_high differ)))
        | inr e ↦ Step-add r (rw e at delta)
      ]

  pub Step-write_slot :
      slot_at slot xs ≢ slot_at slot next → Step p slot next root (write_slot p slot xs next)
  Step-write_slot ne = elim (is_row-cases (slot_at slot next) (w.rows slot)) [
    | inl e ↦ Step-null e
    | inr r ↦ elim (is_row-cases (slot_at slot xs) (v.rows slot)) [
      | inl e ↦ Step-add r (rw (e, r.same) (count_delta_null_row r.id r.name r.count))
      | inr q ↦ Step-rows q r ne
    ]
  ]
