-- ===== src/LiveGame/Delta.antt =====
-- lcu/events.rs, `json_delta_ops`: the operations that take one JSON value to another.
pub mod Merge
pub mod Writes
pub mod Objects
pub mod Sound
pub mod Follows
pub mod Checks
use yummi_lcu.Common.{
  ℕ, suc, Bool, true, false, ltb, if◌then◌else◌, Bytes, codes, text_eq, Option, none, some, List,
  [], ◌∷◌, ◌++◌,
}
use yummi_lcu.Json.{
  Value, null, bool, pos_int, neg_int, float, text, array, object, Items, nil, cons, Fields, end,
  field, get,
}
use yummi_lcu.CommandAuth.Canonical.{text_ltb}
use yummi_lcu.LiveGame.Values.{value_eq}
use yummi_lcu.LiveGame.Arrays.{items_length, items_drop}
use yummi_lcu.LiveGame.Paths.{Seg, key, index}
use yummi_lcu.LiveGame.Items.{live_items_participant_index, push_live_item_delta_ops}

abbrev pub seg_value : Seg → Value
seg_value (key k) = text k
seg_value (index n) = pos_int n

abbrev pub path_items : List Seg → Items
path_items [] = nil
path_items (s ∷ p) = cons (seg_value s) (path_items p)

abbrev pub delta_path : List Seg → Value
delta_path p = array (path_items p)

-- The operations as they are pushed.
unfoldable pub set_json : List Seg → Value → Value
set_json path value = array (cons (text (codes "s")) (cons (delta_path path) (cons value nil)))

unfoldable pub delete_json : List Seg → Value
delete_json path = array (cons (text (codes "d")) (cons (delta_path path) nil))

unfoldable pub append_json : List Seg → Items → Value
append_json path rest =
    array (cons (text (codes "a")) (cons (delta_path path) (cons (array rest) nil)))

unfoldable pub truncate_json : List Seg → ℕ → Value
truncate_json path n =
    array (cons (text (codes "t")) (cons (delta_path path) (cons (pos_int n) nil)))

-- `previous.keys().chain(next.keys())`, `sort` and `dedup`.
abbrev pub keys : Fields → List Bytes
keys end = []
keys (field k v fs) = k ∷ keys fs

unfoldable pub insert_key : Bytes → List Bytes → List Bytes
insert_key k [] = k ∷ []
insert_key k (j ∷ ks) = if text_ltb j k then j ∷ insert_key k ks else k ∷ (j ∷ ks)

unfoldable pub sort_keys : List Bytes → List Bytes
unfolding insert_key
sort_keys [] = []
sort_keys (k ∷ ks) = insert_key k (sort_keys ks)

-- A key goes before the others, unless the first of them is the same.
unfoldable pub cons_new : Bytes → List Bytes → List Bytes
cons_new k [] = k ∷ []
cons_new k (j ∷ ks) = if text_eq k j then j ∷ ks else k ∷ (j ∷ ks)

unfoldable pub dedup : List Bytes → List Bytes
unfolding cons_new
dedup [] = []
dedup (k ∷ ks) = cons_new k (dedup ks)

unfoldable pub merged_keys : Fields → Fields → List Bytes
unfolding sort_keys dedup
merged_keys ps ns = dedup (sort_keys (keys ps ++ keys ns))

-- The delta of the value that a previous entry holds, still to be given the next value and the path.
abbrev pub DeltaOf : Type 0
DeltaOf = Value → List Seg → List Value

-- The four cases of one key.
unfoldable pub key_ops : Option DeltaOf → Option Value → List Seg → List Value
unfolding set_json delete_json
key_ops (some delta) (some after) path = delta after path
key_ops none (some after) path = set_json path after ∷ []
key_ops (some delta) none path = delete_json path ∷ []
key_ops none none path = []

unfoldable pub keys_ops : List Bytes → (Bytes → Option DeltaOf) → Fields → List Seg → List Value
unfolding key_ops
keys_ops [] deltas ns path = []
keys_ops (k ∷ ks) deltas ns path =
    key_ops (deltas k) (get k ns) (path ++ (key k ∷ [])) ++ keys_ops ks deltas ns path

-- What follows the common part of two arrays.
unfoldable pub length_ops : Items → Items → List Seg → List Value
unfolding append_json truncate_json
length_ops ps ns path =
    if ltb (items_length ps) (items_length ns)
    then append_json path (items_drop (items_length ps) ns) ∷ []
    else if ltb (items_length ns) (items_length ps)
    then truncate_json path (items_length ns) ∷ []
    else []

unfoldable pub inventory_ops : List Seg → Items → Items → List Value × Bool
unfolding live_items_participant_index push_live_item_delta_ops
inventory_ops path ps ns = elim (live_items_participant_index path) [
  | none ↦ ([], false)
  | some p ↦ push_live_item_delta_ops p ps ns
]

-- `generic` is what the loop over the common part pushes.
unfoldable pub array_ops : List Value → Items → Items → List Seg → List Value
unfolding inventory_ops length_ops
array_ops generic ps ns path =
    let (ops, done) = inventory_ops path ps ns in
    if done then ops else ops ++ (generic ++ length_ops ps ns path)

unfoldable mutual
  unfolding keys_ops array_ops set_json merged_keys

  pub json_delta_ops : Value → Value → List Seg → List Value
  json_delta_ops (object ps) next path = if value_eq (object ps) next then [] else elim next [
    | object ns ↦ keys_ops (merged_keys ps ns) (field_deltas ps) ns path
    | other ↦ set_json path other ∷ []
  ]
  json_delta_ops (array ps) next path = if value_eq (array ps) next then [] else elim next [
    | array ns ↦ array_ops (item_deltas ps ns 0 path) ps ns path
    | other ↦ set_json path other ∷ []
  ]
  json_delta_ops previous next path = if value_eq previous next then [] else set_json path next ∷ []

  -- `previous.get(&key)`, with the delta from the value that it finds.
  pub field_deltas : Fields → Bytes → Option DeltaOf
  field_deltas end k = none
  field_deltas (field j v fs) k =
      if text_eq j k then some (λ next path. json_delta_ops v next path) else field_deltas fs k

  -- The loop over the common part, from position `i` on.
  pub item_deltas : Items → Items → ℕ → List Seg → List Value
  item_deltas nil ns i path = []
  item_deltas (cons p ps) nil i path = []
  item_deltas (cons p ps) (cons n ns) i path =
      json_delta_ops p n (path ++ (index i ∷ [])) ++ item_deltas ps ns (suc i) path
