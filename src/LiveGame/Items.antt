-- ===== src/LiveGame/Items.antt =====
-- lcu/events.rs, `push_live_item_delta_ops` and its helpers: the changes of a participant's seven
-- inventory slots, as swaps, counts, additions and removals.
pub mod Rows
pub mod Inventory
pub mod Slots
pub mod Sources
pub mod Rounds
use yummi_lcu.Common.{
  ℕ, suc, ◌+◌, ◌-◌, Bool, true, false, not, ◌&&◌, ◌||◌, ltb, leb, ◌==◌, if◌then◌else◌, Bytes, codes,
  text_eq, Option, none, some, and_then, unwrap_or, is_some_and, filter, List, [], ◌∷◌, ◌++◌,
}
use yummi_lcu.Json.{
  Value, null, pos_int, neg_int, text, array, Items, nil, cons, Fields, get, as_object, as_str,
  as_i64,
}
use yummi_lcu.LiveGame.Values.{value_eq}
use yummi_lcu.LiveGame.Arrays.{items_length, items_get, items_set}
use yummi_lcu.LiveGame.Paths.{Seg, key, index}

abbrev pub live_game_participant_count : ℕ
live_game_participant_count = 10

-- `as_str` and `as_u64` of a segment.
abbrev seg_str : Seg → Option Bytes
seg_str (key k) = some k
seg_str (index n) = none

abbrev seg_u64 : Seg → Option ℕ
seg_u64 (key k) = none
seg_u64 (index n) = some n

unfoldable pub live_items_participant_index : List Seg → Option ℕ
live_items_participant_index (a ∷ (b ∷ (c ∷ []))) =
    if is_some_and (seg_str a) (λ k. text_eq k (codes "participants"))
      && is_some_and (seg_str c) (λ k. text_eq k (codes "items"))
    then filter (seg_u64 b) (λ n. ltb n live_game_participant_count)
    else none
live_items_participant_index _ = none

-- The identifier of a row and its name, if that is a text.
unfoldable pub live_item_identity : Value → Option (Value × Option Bytes)
live_item_identity row =
    and_then (as_object row)
      λ fs. and_then (get (codes "id") fs) λ id. some (id, and_then (get (codes "name") fs) as_str)

unfoldable pub live_item_count : Value → Option (Bool × ℕ)
live_item_count row = and_then (as_object row) λ fs. and_then (get (codes "count") fs) as_i64

abbrev same_name : Option Bytes → Option Bytes → Bool
same_name none none = true
same_name (some s) (some t) = text_eq s t
same_name _ _ = false

unfoldable pub same_identity : Value → Value → Bool
unfolding live_item_identity
same_identity before after = is_some_and (live_item_identity before) λ (before_id, before_name).
    is_some_and (live_item_identity after)
      λ (after_id, after_name). value_eq before_id after_id && same_name before_name after_name

-- `after - before` on `i64`, with its wrap-around: `true` for a result below zero.
abbrev sub_ℕ : ℕ → ℕ → Bool × ℕ
sub_ℕ a b = if leb b a then (false, a - b) else (true, b - a)

abbrev wrap_i64 : Bool × ℕ → Bool × ℕ
wrap_i64 (false, n) =
    if leb n 0x7fff_ffff_ffff_ffff then (false, n) else (true, 0x1_0000_0000_0000_0000 - n)
wrap_i64 (true, n) =
    if leb n 0x8000_0000_0000_0000 then (true, n) else (false, 0x1_0000_0000_0000_0000 - n)

unfoldable pub i64_sub : Bool × ℕ → Bool × ℕ → Bool × ℕ
i64_sub (false, a) (false, b) = wrap_i64 (sub_ℕ a b)
i64_sub (false, a) (true, b) = wrap_i64 (false, a + b)
i64_sub (true, a) (false, b) = wrap_i64 (true, a + b)
i64_sub (true, a) (true, b) = wrap_i64 (sub_ℕ b a)

-- `Value::from` on an `i64`.
abbrev pub i64_value : Bool × ℕ → Value
i64_value (false, n) = pos_int n
i64_value (true, n) = if n == 0 then pos_int 0 else neg_int (n - 1)

-- `row[slot]`, read below the length of 7 alone.
abbrev pub slot_at : ℕ → Items → Value
slot_at slot xs = unwrap_or (items_get slot xs) null

-- The operations as they are pushed.
unfoldable pub swap_json : ℕ → ℕ → ℕ → Value
swap_json p slot source =
    array (
      cons (text (codes "is")) (cons (pos_int p) (cons (pos_int slot) (cons (pos_int source) nil))))

unfoldable pub count_json : ℕ → ℕ → Bool × ℕ → Value
count_json p slot delta =
    array (
      cons (text (codes "ic"))
        (cons (pos_int p) (cons (pos_int slot) (cons (i64_value delta) nil))))

unfoldable pub remove_json : ℕ → ℕ → Value
remove_json p slot = array (cons (text (codes "ir")) (cons (pos_int p) (cons (pos_int slot) nil)))

unfoldable pub add_json : ℕ → ℕ → Value → Value → Value → Value
add_json p slot id name count = array (
    cons (text (codes "ia"))
      (cons (pos_int p) (cons (pos_int slot) (cons id (cons name (cons count nil))))))

abbrev pub is_null : Value → Bool
is_null null = true
is_null _ = false

-- `(0..7).find(...)`: another slot that holds the wanted row and does not want it itself.
unfoldable pub is_source : ℕ → Items → Items → ℕ → Bool
is_source slot working next source =
    not (source == slot)
    && (value_eq (slot_at source working) (slot_at slot next)
        && not (value_eq (slot_at source working) (slot_at source next)))

abbrev pub find : (ℕ → Bool) → List ℕ → Option ℕ
find p [] = none
find p (n ∷ ns) = if p n then some n else find p ns

abbrev pub slots : List ℕ
slots = 0 ∷ (1 ∷ (2 ∷ (3 ∷ (4 ∷ (5 ∷ (6 ∷ []))))))

unfoldable pub find_source : ℕ → Items → Items → Option ℕ
unfolding is_source
find_source slot working next =
    if is_null (slot_at slot next) then none else find (is_source slot working next) slots

-- `working.swap(slot, source)`
unfoldable pub swapped : ℕ → ℕ → Items → Items
swapped slot source xs = items_set source (slot_at slot xs) (items_set slot (slot_at source xs) xs)

-- The count operation, where both rows are of one item and their counts differ.
unfoldable pub count_delta : Value → Value → Option (Bool × ℕ)
unfolding same_identity live_item_count i64_sub
count_delta before after =
    if not (same_identity before after)
    then none
    else and_then (live_item_count before) λ before_count.
      and_then (live_item_count after) λ after_count.
        let delta = i64_sub after_count before_count in if delta.1 == 0 then none else some delta

-- `next[slot].as_object()` with its `id`.
unfoldable pub identified : Value → Option (Fields × Value)
identified row =
    and_then (as_object row)
      λ fs. and_then {B = Fields × Value} (get (codes "id") fs) λ id. some (fs, id)

-- What a slot costs after the swap: the operations, and the rows unless the routine gives up.
unfoldable pub write_slot : ℕ → ℕ → Items → Items → List Value × Option Items
unfolding count_delta identified remove_json add_json count_json
write_slot p slot working next = elim (count_delta (slot_at slot working) (slot_at slot next)) [
  | some delta ↦ (count_json p slot delta ∷ [], some (items_set slot (slot_at slot next) working))
  | none ↦
      if is_null (slot_at slot next)
      then (remove_json p slot ∷ [], some (items_set slot null working))
      else elim (identified (slot_at slot next)) [
        | none ↦ ([], none)
        | some (fs, id) ↦ (
          add_json p slot id (unwrap_or (get (codes "name") fs) null)
                (unwrap_or (get (codes "count") fs) (pos_int 1))
              ∷ [],
          some (items_set slot (slot_at slot next) working),
        )
      ]
]

-- One round of the loop over the slots.
unfoldable pub sync_slot : ℕ → ℕ → Items → Items → List Value × Option Items
unfolding find_source swapped write_slot swap_json
sync_slot p slot working next =
    if value_eq (slot_at slot working) (slot_at slot next)
    then ([], some working)
    else elim (find_source slot working next) [
      | none ↦ write_slot p slot working next
      | some source ↦
          let working' = swapped slot source working in
          if value_eq (slot_at slot working') (slot_at slot next)
          then (swap_json p slot source ∷ [], some working')
          else let (ops, after) = write_slot p slot working' next in
            (swap_json p slot source ∷ ops, after)
    ]

unfoldable pub sync_slots : ℕ → List ℕ → Items → Items → List Value × Bool
unfolding sync_slot
sync_slots p [] working next = ([], true)
sync_slots p (slot ∷ rest) working next =
    let (ops, after) = sync_slot p slot working next in
    elim after [
      | none ↦ (ops, false)
      | some working' ↦ let (more, done) = sync_slots p rest working' next in (ops ++ more, done)
    ]

-- The operations that are pushed, also where the answer is `false`.
unfoldable pub push_live_item_delta_ops : ℕ → Items → Items → List Value × Bool
unfolding sync_slots
push_live_item_delta_ops p previous next =
    if not (items_length previous == 7) || not (items_length next == 7)
    then ([], false)
    else sync_slots p slots previous next
