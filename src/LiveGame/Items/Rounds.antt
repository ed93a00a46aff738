-- ===== src/LiveGame/Items/Rounds.antt =====
-- The loop of `push_live_item_delta_ops` over the slots, swaps first.
use yummi_lcu.Common.{
  ℕ, zero, suc, ◌+◌, ◌≤◌, true, false, ◌==◌, none, some, List, [], ◌∷◌, ◌++◌, ◌≡◌, ◌≢◌, refl, ap,
  ◌∙◌, arith, ==_iff, Bool-cases, Option-cases, inl, inr, subst,
}
use yummi_lcu.Json.{Value, array, Items}
use yummi_lcu.LiveGame.Values.{value_eq, value_eq_iff}
use yummi_lcu.LiveGame.Paths.{lookup, put, lookup-put, put-put, put-lookup}
use yummi_lcu.LiveGame.Items.{
  slot_at, swap_json, find_source, swapped, sync_slot, sync_slots, push_live_item_delta_ops,
}
use yummi_lcu.LiveGame.Receiver.{items_path, apply_each}
use yummi_lcu.LiveGame.Receiver.Accepts.{apply_each_then}
use yummi_lcu.LiveGame.Items.Rows.{slots_ext, IsInventory, Agree}
use yummi_lcu.LiveGame.Items.Inventory.{apply_swap}
use yummi_lcu.LiveGame.Items.Slots.{Step, Step-write_slot}
use yummi_lcu.LiveGame.Items.Sources.{
  Source, find_source-Source, slot_at-swapped, IsInventory-swapped,
}

-- Any round.
module _ (p slot : ℕ) (xs next : Items) (root : Value) (player : p ≤ 9) (bound : slot ≤ 6)
    (here : lookup (items_path p) root ≡ some (array xs)) (v : IsInventory xs)
    (w : IsInventory next) (before : Agree slot xs next) where
  Agree-swapped :
      (source : ℕ) → Source slot source xs next → Agree (suc slot) (swapped slot source xs) next
  Agree-swapped source f j h = ground (
    arith,
    slot_at-swapped slot source j xs (omega (arith, v.seven)) (omega (arith, v.seven)),
    before j,
    before source,
    f.wanted,
    f.misplaced,
    f.other,
  )

  sync_slot_swap :
      (source : ℕ)
      → find_source slot xs next ≡ some source
      → value_eq (slot_at slot xs) (slot_at slot next) ≡ false
      → Source slot source xs next
      → sync_slot p slot xs next ≡ (swap_json p slot source ∷ [], some (swapped slot source xs))
  unfolding sync_slot
  sync_slot_swap source e ne f =
      let moved : slot_at slot (swapped slot source xs) ≡ slot_at slot next = ground (
        arith,
        slot_at-swapped slot source slot xs (omega (arith, v.seven)) (omega (arith, v.seven)),
        f.wanted,
        f.other,
      ) in
      let equal =
        (value_eq_iff (slot_at slot (swapped slot source xs)) (slot_at slot next)).1 moved in
      rw (ne, e, equal, sync_slot)

  Step-same :
      value_eq (slot_at slot xs) (slot_at slot next) ≡ true
      → Step p slot next root (sync_slot p slot xs next)
  unfolding sync_slot
  Step-same e =
      let equal = (value_eq_iff (slot_at slot xs) (slot_at slot next)).0 e in
      rw (e, sync_slot)
        record {
          working = xs;
          continues = refl;
          inventory = v;
          agree = λ j h. elim (Bool-cases (j == slot)) [
            | inl q ↦ rw ((==_iff j slot).0 q) equal
            | inr q ↦ before j (ground arith)
          ];
          applied = unfold apply_each in rw (put-lookup (items_path p) (array xs) root here);
        }

  Step-stay :
      value_eq (slot_at slot xs) (slot_at slot next) ≡ false
      → find_source slot xs next ≡ none
      → slot_at slot xs ≢ slot_at slot next
      → Step p slot next root (sync_slot p slot xs next)
  unfolding sync_slot
  Step-stay e f ne =
      rw (e, f, sync_slot) (Step-write_slot p slot xs next root player bound here v w before ne)

  Step-swap :
      (source : ℕ)
      → value_eq (slot_at slot xs) (slot_at slot next) ≡ false
      → find_source slot xs next ≡ some source
      → Source slot source xs next
      → Step p slot next root (sync_slot p slot xs next)
  Step-swap source e f q = rw (sync_slot_swap source f e q) record {
    working = swapped slot source xs;
    continues = refl;
    inventory = IsInventory-swapped slot source xs (omega arith) (omega (arith, q.bound)) v;
    agree = Agree-swapped source q;
    applied = apply_swap p slot xs root player bound here v.seven source q.bound q.other;
  }

  Step-sync_slot : Step p slot next root (sync_slot p slot xs next)
  Step-sync_slot = elim (Bool-cases (value_eq (slot_at slot xs) (slot_at slot next))) [
    | inl e ↦ Step-same e
    | inr e ↦
        let differ : slot_at slot xs ≢ slot_at slot next =
          λ (q : slot_at slot xs ≡ slot_at slot next).
            ground (arith, (value_eq_iff (slot_at slot xs) (slot_at slot next)).1 q) in
        elim (Option-cases (find_source slot xs next)) [
          | inl f ↦ Step-stay e f differ
          | inr (source, f) ↦ Step-swap source e f (find_source-Source slot source xs next f)
        ]
  ]

-- The slots from `n` on, `count` of them.
abbrev slots_from : ℕ → ℕ → List ℕ
slots_from n zero = []
slots_from n (suc count) = n ∷ slots_from (suc n) count

sync_slots_continue :
    (p slot : ℕ) (rest : List ℕ) (xs ys next : Items) (ops more : List Value)
    → sync_slot p slot xs next ≡ (ops, some ys)
    → sync_slots p rest ys next ≡ (more, true)
    → sync_slots p (slot ∷ rest) xs next ≡ (ops ++ more, true)
unfolding sync_slots
sync_slots_continue p slot rest xs ys next ops more e f = ground arith

module _ (p : ℕ) (next : Items) (player : p ≤ 9) (w : IsInventory next) where
  sync_slots_follows :
      (count slot : ℕ) (xs : Items) (root : Value)
      → slot + count ≡ 7
      → lookup (items_path p) root ≡ some (array xs)
      → IsInventory xs
      → Agree slot xs next
      → (ops : List Value) × (sync_slots p (slots_from slot count) xs next ≡ (ops, true))
        × (apply_each ops root ≡ some (put (items_path p) (array next) root))
  unfolding sync_slots apply_each
  sync_slots_follows zero slot xs root s here v before =
      let same : xs ≡ next =
        slots_ext xs next (omega (arith, v.seven, w.seven))
          (λ j h. before j (omega (arith, v.seven))) in
      (
        [],
        refl,
        rw (
            put-lookup (items_path p) (array next) root
              (subst (λ (ys : Items). lookup (items_path p) root ≡ some (array ys)) same here)),
      )
  sync_slots_follows (suc count) slot xs root s here v before =
      let step = Step-sync_slot p slot xs next root player (omega arith) here v w before in
      let root' = put (items_path p) (array step.working) root in
      let here' = lookup-put (items_path p) (array step.working) (array xs) root here in
      let (more, rest, reached) =
        sync_slots_follows count (suc slot) step.working root' (omega arith) here' step.inventory
          step.agree in
      let first : sync_slot p slot xs next ≡ ((sync_slot p slot xs next).0, some step.working) =
        ground (arith, step.continues) in
      (
        (sync_slot p slot xs next).0 ++ more,
        sync_slots_continue p slot (slots_from (suc slot) count) xs step.working next _ more first
            rest,
        apply_each_then (sync_slot p slot xs next).0 more root root' step.applied
            ∙ (reached
                ∙ ap some (
                    put-put (items_path p) (array next) (array step.working) (array xs) root here)),
      )

  -- For two inventories whose seven slots are each empty or hold a row within the relay's limits, one of
  -- the ten participants, and a relay state that holds the first inventory at that participant:
  -- `push_live_item_delta_ops` answers `true`, and the relay accepts every operation it pushed and is
  -- left with the second inventory at that participant and nothing else changed.
  pub push_live_item_delta_ops_follows :
      (xs : Items) (root : Value)
      → lookup (items_path p) root ≡ some (array xs)
      → IsInventory xs
      → (ops : List Value) × (push_live_item_delta_ops p xs next ≡ (ops, true))
        × (apply_each ops root ≡ some (put (items_path p) (array next) root))
  unfolding push_live_item_delta_ops
  push_live_item_delta_ops_follows xs root here v =
      let (ops, e, f) =
        sync_slots_follows 7 0 xs root (omega arith) here v (λ j h. absurd (omega arith)) in
      (ops, rw (v.seven, w.seven) e, f)
