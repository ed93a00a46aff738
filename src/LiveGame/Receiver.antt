-- ===== src/LiveGame/Receiver.antt =====
-- relay/app.py, `_live_delta_path` to `_apply_live_delta_ops`: the operations of a delta frame, read
-- from their JSON and applied to the state that the relay keeps. `none` is a Python exception: every
-- refusal raises, and the caller drops the state that was being changed.
pub mod Accepts
use yummi_lcu.Common.{
  ℕ, zero, suc, ◌+◌, ◌-◌, Bool, true, false, ◌&&◌, ltb, leb, ◌==◌, if◌then◌else◌, Bytes, codes,
  text_eq, Option, none, some, and_then, List, [], ◌∷◌,
}
use yummi_lcu.Json.{
  Value, null, pos_int, neg_int, text, array, object, Items, nil, cons, Fields, end, field, get,
  is_object,
}
use yummi_lcu.Relay.Protocol.{chars_count, is_empty}
use yummi_lcu.LiveGame.Arrays.{items_length, items_get, items_set, items_append, items_take}
use yummi_lcu.LiveGame.Dict.{insert, delete}
use yummi_lcu.LiveGame.Paths.{Seg, key, index, at_target, at_parent}

abbrev pub max_live_delta_path_depth : ℕ
max_live_delta_path_depth = 24

pub data Op : Type 0 where
  set_op : List Seg → Value → Op
  delete_op : List Seg → Op
  append_op : List Seg → Items → Op
  truncate_op : List Seg → ℕ → Op
  item_add : (participant slot id : ℕ) → (name : Bytes) → (count : ℕ) → Op
  -- The count falls or grows by the amount.
  item_count : (participant slot : ℕ) → (falls : Bool) → (amount : ℕ) → Op
  item_swap : (participant left right : ℕ) → Op
  item_remove : (participant slot : ℕ) → Op

-- `_live_delta_path`: an index of at most 4096, or a key of 1 to 128 characters.
unfoldable pub live_delta_seg : Value → Option Seg
live_delta_seg (pos_int n) = if leb n 4096 then some (index n) else none
live_delta_seg (text k) =
    if is_empty k then none else if leb (chars_count k) 128 then some (key k) else none
live_delta_seg _ = none

unfoldable pub live_delta_segs : Items → Option (List Seg)
unfolding live_delta_seg
live_delta_segs nil = some []
live_delta_segs (cons x xs) =
    and_then (live_delta_seg x) λ s. and_then (live_delta_segs xs) λ p. some (s ∷ p)

unfoldable pub live_delta_path : Value → Option (List Seg)
unfolding live_delta_segs
live_delta_path (array xs) =
    if leb (items_length xs) max_live_delta_path_depth then live_delta_segs xs else none
live_delta_path _ = none

-- `_live_item_index`
unfoldable pub live_item_index : ℕ → Value → Option ℕ
live_item_index maximum (pos_int n) = if leb n maximum then some n else none
live_item_index maximum _ = none

unfoldable pub item_add_op : Items → Option Op
unfolding live_item_index
item_add_op (cons p (cons s (cons (pos_int id) (cons (text name) (cons (pos_int count) nil))))) =
    and_then (live_item_index 9 p) λ participant. and_then (live_item_index 6 s) λ slot.
      if ltb 0 id && leb id 1000000 && leb (chars_count name) 256 && ltb 0 count && leb count 999
      then some (item_add participant slot id name count)
      else none
item_add_op _ = none

-- A delta that is not 0, of 999 at most.
unfoldable pub live_item_delta : Value → Option (Bool × ℕ)
live_item_delta (pos_int n) = if ltb 0 n && leb n 999 then some (false, n) else none
live_item_delta (neg_int n) = if leb (suc n) 999 then some (true, suc n) else none
live_item_delta _ = none

unfoldable pub item_count_op : Items → Option Op
unfolding live_item_index live_item_delta
item_count_op (cons p (cons s (cons d nil))) = and_then (live_item_index 9 p) λ participant.
    and_then (live_item_index 6 s) λ slot.
      and_then (live_item_delta d)
        λ (falls, amount). some (item_count participant slot falls amount)
item_count_op _ = none

unfoldable pub item_swap_op : Items → Option Op
unfolding live_item_index
item_swap_op (cons p (cons l (cons r nil))) = and_then (live_item_index 9 p) λ participant.
    and_then (live_item_index 6 l) λ left.
      and_then (live_item_index 6 r)
        λ right. if left == right then none else some (item_swap participant left right)
item_swap_op _ = none

unfoldable pub item_remove_op : Items → Option Op
unfolding live_item_index
item_remove_op (cons p (cons s nil)) =
    and_then (live_item_index 9 p)
      λ participant. and_then (live_item_index 6 s) λ slot. some (item_remove participant slot)
item_remove_op _ = none

unfoldable pub tree_op : Bytes → Items → Option Op
unfolding live_delta_path
tree_op kind (cons p nil) =
    and_then (live_delta_path p)
      λ path. if text_eq kind (codes "d") then some (delete_op path) else none
tree_op kind (cons p (cons x nil)) = and_then (live_delta_path p) λ path.
    if text_eq kind (codes "s")
    then some (set_op path x)
    else if text_eq kind (codes "a")
    then elim x [ array xs ↦ some (append_op path xs) | _ ↦ none ]
    else if text_eq kind (codes "t")
    then elim x [ pos_int n ↦ some (truncate_op path n) | _ ↦ none ]
    else none
tree_op kind _ = none

-- The checks of one operation that do not read the state.
unfoldable pub parse_op : Value → Option Op
unfolding item_add_op item_count_op item_swap_op item_remove_op tree_op
parse_op (array (cons (text kind) args)) =
    if text_eq kind (codes "ia")
    then item_add_op args
    else if text_eq kind (codes "ic")
    then item_count_op args
    else if text_eq kind (codes "is")
    then item_swap_op args
    else if text_eq kind (codes "ir")
    then item_remove_op args
    else tree_op kind args
parse_op _ = none

-- `parent[key] = value` and `del parent[key]`
unfoldable pub set_child : Value → Seg → Value → Option Value
set_child v (key k) (object fs) = some (object (insert k v fs))
set_child v (index i) (array xs) =
    if ltb i (items_length xs) then some (array (items_set i v xs)) else none
set_child v _ _ = none

abbrev items_delete : ℕ → Items → Items
items_delete i nil = nil
items_delete zero (cons x xs) = xs
items_delete (suc i) (cons x xs) = cons x (items_delete i xs)

unfoldable pub delete_child : Seg → Value → Option Value
delete_child (key k) (object fs) = and_then (get k fs) λ _. some (object (delete k fs))
delete_child (index i) (array xs) =
    if ltb i (items_length xs) then some (array (items_delete i xs)) else none
delete_child _ _ = none

unfoldable pub append_to : Items → Value → Option Value
append_to ys (array xs) = some (array (items_append xs ys))
append_to ys _ = none

unfoldable pub truncate_to : ℕ → Value → Option Value
truncate_to n (array xs) = if leb n (items_length xs) then some (array (items_take n xs)) else none
truncate_to n _ = none

-- `_live_item_slots`, then a change of the seven slots.
abbrev pub items_path : ℕ → List Seg
items_path participant =
    key (codes "participants") ∷ (index participant ∷ (key (codes "items") ∷ []))

unfoldable pub on_slots : (Items → Option Items) → Value → Option Value
on_slots f (array xs) =
    if items_length xs == 7 then and_then (f xs) (λ ys. some (array ys)) else none
on_slots f _ = none

-- `count + delta`, which must lie in 1..=999.
unfoldable pub shifted_count : Value → Bool → ℕ → Option ℕ
shifted_count (pos_int n) false a = if ltb 0 (n + a) && leb (n + a) 999 then some (n + a) else none
shifted_count (pos_int n) true a = if ltb a n && leb (n - a) 999 then some (n - a) else none
shifted_count (neg_int n) false a =
    if ltb (suc n) a && leb (a - suc n) 999 then some (a - suc n) else none
shifted_count _ _ _ = none

unfoldable pub add_count : Bool → ℕ → Value → Option Value
unfolding shifted_count
add_count falls a (object fs) = and_then (get (codes "count") fs) λ c.
    and_then (shifted_count c falls a) λ n. some (object (insert (codes "count") (pos_int n) fs))
add_count falls a _ = none

-- `{"id": item_id, "name": name, "count": count}`
unfoldable pub item_row : ℕ → Bytes → ℕ → Value
item_row id name count = object (
    field (codes "count") (pos_int count)
      (field (codes "id") (pos_int id) (field (codes "name") (text name) end)))

unfoldable pub add_to_slot : Bool → ℕ → ℕ → Items → Option Items
unfolding add_count
add_to_slot falls a slot xs =
    and_then (items_get slot xs)
      λ item. and_then (add_count falls a item) λ item'. some (items_set slot item' xs)

unfoldable pub swap_slots : ℕ → ℕ → Items → Option Items
swap_slots l r xs =
    and_then (items_get l xs)
      λ a. and_then (items_get r xs) λ b. some (items_set r a (items_set l b xs))

unfoldable pub apply_op : Op → Value → Option Value
unfolding set_child delete_child append_to truncate_to on_slots add_to_slot swap_slots item_row
apply_op (set_op [] v) root = if is_object v then some v else none
apply_op (set_op (s ∷ p) v) root = at_parent (set_child v) (s ∷ p) root
apply_op (delete_op p) root = at_parent delete_child p root
apply_op (append_op p ys) root = at_target (append_to ys) p root
apply_op (truncate_op p n) root = at_target (truncate_to n) p root
apply_op (item_add p slot id name count) root =
    at_target (on_slots λ xs. some (items_set slot (item_row id name count) xs)) (items_path p) root
apply_op (item_count p slot falls a) root =
    at_target (on_slots (add_to_slot falls a slot)) (items_path p) root
apply_op (item_swap p l r) root = at_target (on_slots (swap_slots l r)) (items_path p) root
apply_op (item_remove p slot) root =
    at_target (on_slots λ xs. some (items_set slot null xs)) (items_path p) root

-- The loop of `_apply_live_delta_ops`.
unfoldable pub apply_each : List Value → Value → Option Value
unfolding parse_op apply_op
apply_each [] root = some root
apply_each (raw ∷ ops) root =
    and_then (parse_op raw) λ op. and_then (apply_op op root) λ root'. apply_each ops root'

-- `_apply_live_delta_ops`: what is left at the end must be an object.
unfoldable pub apply_live_delta_ops : Fields → List Value → Option Fields
unfolding apply_each
apply_live_delta_ops base ops =
    and_then (apply_each ops (object base)) λ root. elim root [ object fs ↦ some fs | _ ↦ none ]
