-- ===== src/LiveGame/Items/Inventory.antt =====
-- The operations of `push_live_item_delta_ops`, applied by the relay, turn the previous inventory into
-- the next one.
use yummi_lcu.Common.{
  ℕ, ◌-◌, ◌≤◌, ◌<◌, Bool, true, false, not, ◌&&◌, leb, ◌==◌, if◌then◌else◌, Bytes, text_eq, Option,
  none, some, [], ◌∷◌, ◌≡◌, ◌≢◌, refl, arith,
}
use yummi_lcu.Json.{Value, null, pos_int, text, array, Items, get}
use yummi_lcu.Relay.Protocol.{chars_count}
use yummi_lcu.LiveGame.Values.{value_eq}
use yummi_lcu.LiveGame.Arrays.{items_length, items_set}
use yummi_lcu.LiveGame.Dict.{insert, replace}
use yummi_lcu.LiveGame.Paths.{lookup, put, at_target, at_target_lem}
use yummi_lcu.LiveGame.Items.{
  slot_at, swap_json, count_json, remove_json, add_json, swapped, count_delta, same_identity,
  live_item_identity, live_item_count, i64_sub,
}
use yummi_lcu.LiveGame.Receiver.{
  item_add, item_count, item_swap, item_remove, parse_op, item_add_op, item_count_op, item_swap_op,
  item_remove_op, live_item_index, live_item_delta, items_path, on_slots, shifted_count, add_count,
  add_to_slot, swap_slots, item_row, apply_op, apply_each,
}
use yummi_lcu.LiveGame.Receiver.Accepts.{apply_each_one}
use yummi_lcu.LiveGame.Items.Rows.{Row, slot_at-get}

-- A change of the seven slots, as a write at their place.
on_slots_lem :
    (f : Items → Option Items) (p : ℕ) (xs ys : Items) (root : Value)
    → lookup (items_path p) root ≡ some (array xs)
    → items_length xs ≡ 7
    → f xs ≡ some ys
    → at_target (on_slots f) (items_path p) root ≡ some (put (items_path p) (array ys) root)
on_slots_lem f p xs ys root h n e =
    at_target_lem (on_slots f) (items_path p) (array xs) (array ys) root h
      (unfold on_slots in ground arith)

module _ (p slot : ℕ) (xs : Items) (root : Value) (player : p ≤ 9) (bound : slot ≤ 6)
    (here : lookup (items_path p) root ≡ some (array xs)) (seven : items_length xs ≡ 7) where
  parse_remove : parse_op (remove_json p slot) ≡ some (item_remove p slot)
  unfolding parse_op remove_json item_remove_op live_item_index text_eq
  parse_remove = ground arith

  apply_op_remove :
      apply_op (item_remove p slot) root
      ≡ some (put (items_path p) (array (items_set slot null xs)) root)
  unfolding apply_op
  apply_op_remove =
      on_slots_lem (λ ys. some (items_set slot null ys)) p xs (items_set slot null xs) root here
        seven refl

  pub apply_remove :
      apply_each (remove_json p slot ∷ []) root
      ≡ some (put (items_path p) (array (items_set slot null xs)) root)
  apply_remove =
      apply_each_one (remove_json p slot) (item_remove p slot) root _ parse_remove apply_op_remove

  parse_add :
      (id : ℕ) (name : Bytes) (count : ℕ)
      → 0 < id
      → id ≤ 1000000
      → chars_count name ≤ 256
      → 0 < count
      → count ≤ 999
      → parse_op (add_json p slot (pos_int id) (text name) (pos_int count))
        ≡ some (item_add p slot id name count)
  unfolding parse_op add_json item_add_op live_item_index text_eq
  parse_add id name count a b c d e = ground arith

  apply_op_add :
      (id : ℕ) (name : Bytes) (count : ℕ)
      → apply_op (item_add p slot id name count) root
        ≡ some (put (items_path p) (array (items_set slot (item_row id name count) xs)) root)
  unfolding apply_op
  apply_op_add id name count =
      on_slots_lem (λ ys. some (items_set slot (item_row id name count) ys)) p xs
        (items_set slot (item_row id name count) xs) root here seven refl

  pub apply_add :
      (w : Value) (r : Row w)
      → apply_each (add_json p slot (pos_int r.id) (text r.name) (pos_int r.count) ∷ []) root
        ≡ some (put (items_path p) (array (items_set slot w xs)) root)
  apply_add w r = rw (r.same) (
      apply_each_one _ (item_add p slot r.id r.name r.count) root _
        (parse_add r.id r.name r.count r.id_low r.id_high r.name_short r.count_low r.count_high)
        (apply_op_add r.id r.name r.count))

  parse_swap :
      (source : ℕ)
      → source ≤ 6
      → source ≢ slot
      → parse_op (swap_json p slot source) ≡ some (item_swap p slot source)
  unfolding parse_op swap_json item_swap_op live_item_index text_eq
  parse_swap source a b = ground arith

  swap_slots_lem :
      (source : ℕ) → source ≤ 6 → swap_slots slot source xs ≡ some (swapped slot source xs)
  unfolding swap_slots swapped
  swap_slots_lem source a =
      rw (slot_at-get slot xs (omega arith), slot_at-get source xs (omega arith))

  apply_op_swap :
      (source : ℕ)
      → source ≤ 6
      → apply_op (item_swap p slot source) root
        ≡ some (put (items_path p) (array (swapped slot source xs)) root)
  unfolding apply_op
  apply_op_swap source a =
      on_slots_lem (swap_slots slot source) p xs (swapped slot source xs) root here seven
        (swap_slots_lem source a)

  pub apply_swap :
      (source : ℕ)
      → source ≤ 6
      → source ≢ slot
      → apply_each (swap_json p slot source ∷ []) root
        ≡ some (put (items_path p) (array (swapped slot source xs)) root)
  apply_swap source a b =
      apply_each_one _ (item_swap p slot source) root _ (parse_swap source a b)
        (apply_op_swap source a)

-- The count operation between two rows of one item.
abbrev pub shift : ℕ → ℕ → Bool × ℕ
shift before after = if leb before after then (false, after - before) else (true, before - after)

pub count_delta_rows :
    (i j : ℕ) (m n : Bytes) (a b : ℕ)
    → a ≤ 999
    → b ≤ 999
    → count_delta (item_row i m a) (item_row j n b)
      ≡ (if (i == j) && (text_eq m n && not (a == b)) then some (shift a b) else none)
unfolding count_delta item_row same_identity live_item_identity live_item_count i64_sub get text_eq
    value_eq
count_delta_rows i j m n a b h k = ground arith

add_count_row :
    (i : ℕ) (m : Bytes) (a b : ℕ)
    → a ≤ 999
    → 0 < b
    → b ≤ 999
    → a ≢ b
    → add_count (shift a b).0 (shift a b).1 (item_row i m a) ≡ some (item_row i m b)
unfolding add_count item_row shifted_count get text_eq insert replace
add_count_row i m a b h k l ne = ground arith

module _ (p slot : ℕ) (xs : Items) (root : Value) (player : p ≤ 9) (bound : slot ≤ 6)
    (here : lookup (items_path p) root ≡ some (array xs)) (seven : items_length xs ≡ 7) where
  parse_count :
      (a b : ℕ)
      → a ≤ 999
      → b ≤ 999
      → 0 < a
      → 0 < b
      → a ≢ b
      → parse_op (count_json p slot (shift a b))
        ≡ some (item_count p slot (shift a b).0 (shift a b).1)
  unfolding parse_op count_json item_count_op live_item_index live_item_delta text_eq
  parse_count a b h k l m ne = ground arith

  apply_op_count :
      (i : ℕ) (m : Bytes) (a b : ℕ)
      → slot_at slot xs ≡ item_row i m a
      → a ≤ 999
      → 0 < b
      → b ≤ 999
      → a ≢ b
      → apply_op (item_count p slot (shift a b).0 (shift a b).1) root
        ≡ some (put (items_path p) (array (items_set slot (item_row i m b) xs)) root)
  unfolding apply_op add_to_slot
  apply_op_count i m a b e h k l ne =
      on_slots_lem (add_to_slot (shift a b).0 (shift a b).1 slot) p xs
        (items_set slot (item_row i m b) xs) root here seven
        (rw (slot_at-get slot xs (omega arith)) (rw e (rw (add_count_row i m a b h k l ne))))

  pub apply_count :
      (i : ℕ) (m : Bytes) (a b : ℕ)
      → slot_at slot xs ≡ item_row i m a
      → a ≤ 999
      → 0 < a
      → 0 < b
      → b ≤ 999
      → a ≢ b
      → apply_each (count_json p slot (shift a b) ∷ []) root
        ≡ some (put (items_path p) (array (items_set slot (item_row i m b) xs)) root)
  apply_count i m a b e h g k l ne =
      apply_each_one _ (item_count p slot (shift a b).0 (shift a b).1) root _
        (parse_count a b h l g k ne) (apply_op_count i m a b e h k l ne)
