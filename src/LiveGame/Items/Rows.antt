-- ===== src/LiveGame/Items/Rows.antt =====
-- The rows of an inventory that the relay accepts, and its seven slots as a function of the position.
use yummi_lcu.Common.{
  ℕ, suc, ◌≤◌, ◌<◌, Bool, true, ◌&&◌, ◌||◌, ltb, leb, ◌==◌, if◌then◌else◌, Bytes, codes, Option,
  some, and_then, is_some_and, ◌≡◌, ◌⊎◌, inl, inr, refl, arith, Bool-cases, Option-cases,
  and-eq_true,
}
use yummi_lcu.Json.{Value, null, Items, nil, cons, get, as_object, as_u64, as_str}
use yummi_lcu.Relay.Protocol.{chars_count}
use yummi_lcu.LiveGame.Values.{value_eq, value_eq_iff}
use yummi_lcu.LiveGame.Arrays.{
  items_length, items_get, items_set, items_get-items_set, items_get_total, items_length-items_set,
}
use yummi_lcu.LiveGame.Items.{slot_at, is_null}
use yummi_lcu.LiveGame.Receiver.{item_row}

-- The identifier, name and count of a row.
unfoldable pub row_parts : Value → Option (ℕ × Bytes × ℕ)
row_parts v = and_then (as_object v) λ fs. and_then (and_then (get (codes "id") fs) as_u64) λ id.
    and_then (and_then (get (codes "name") fs) as_str) λ name.
      and_then {B = ℕ × Bytes × ℕ} (and_then (get (codes "count") fs) as_u64)
        λ count. some (id, name, count)

unfoldable pub is_accepted : ℕ × Bytes × ℕ → Bool
is_accepted (id, name, count) =
    (ltb 0 id && leb id 1000000) && (leb (chars_count name) 256 && (ltb 0 count && leb count 999))

-- A row with no other fields, within the limits of `_apply_live_item_op`.
unfoldable pub is_item : ℕ × Bytes × ℕ → Value → Bool
unfolding is_accepted item_row
is_item (id, name, count) v = is_accepted (id, name, count) && value_eq v (item_row id name count)

-- An empty slot or such a row.
unfoldable pub is_row : Value → Bool
unfolding row_parts is_item
is_row v = is_null v || is_some_and (row_parts v) (λ r. is_item r v)

-- What `is_row` says of a slot that is not empty.
pub record Row (v : Value) : Type 0 where
  pub id : ℕ
  pub name : Bytes
  pub count : ℕ
  pub same : v ≡ item_row id name count
  pub id_low : 0 < id
  pub id_high : id ≤ 1000000
  pub name_short : chars_count name ≤ 256
  pub count_low : 0 < count
  pub count_high : count ≤ 999

Row-item : (r : ℕ × Bytes × ℕ) (v : Value) → is_item r v ≡ true → Row v
unfolding is_item
Row-item (id, name, count) v h =
    let parts = and-eq_true (is_accepted (id, name, count)) _ h in
    let limits : is_accepted (id, name, count) ≡ true = parts.0 in
    let equal = (value_eq_iff v (item_row id name count)).0 parts.1 in
    record {
      id = id;
      name = name;
      count = count;
      same = equal;
      id_low = unfold is_accepted in ground arith;
      id_high = unfold is_accepted in ground arith;
      name_short = unfold is_accepted in ground arith;
      count_low = unfold is_accepted in ground arith;
      count_high = unfold is_accepted in ground arith;
    }

is_null-eq : (v : Value) → is_null v ≡ true → v ≡ null
is_null-eq null h = refl
is_null-eq _ h = cc

pub is_row-cases : (v : Value) → is_row v ≡ true → (v ≡ null) ⊎ Row v
is_row-cases v h = elim (Bool-cases (is_null v)) [
  | inl e ↦ inl (is_null-eq v e)
  | inr e ↦ elim (Option-cases (row_parts v)) [
    | inl f ↦ absurd (unfold is_row in ground arith)
    | inr (r, f) ↦ inr (Row-item r v (unfold is_row in ground arith))
  ]
]

pub slot_at-items_set :
    (i j : ℕ) (w : Value) (xs : Items)
    → i < items_length xs
    → slot_at j (items_set i w xs) ≡ (if i == j then w else slot_at j xs)
slot_at-items_set i j w xs h =
    let (v, e) = items_get_total i xs h in ground (arith, items_get-items_set i j w v xs e)

pub slot_at-get : (i : ℕ) (xs : Items) → i < items_length xs → items_get i xs ≡ some (slot_at i xs)
slot_at-get i xs h = let (v, e) = items_get_total i xs h in ground arith

pub slots_ext :
    (xs ys : Items)
    → items_length xs ≡ items_length ys
    → ((j : ℕ) → j < items_length xs → slot_at j xs ≡ slot_at j ys)
    → xs ≡ ys
slots_ext nil nil h k = refl
slots_ext nil (cons y ys) h k = absurd (omega arith)
slots_ext (cons x xs) nil h k = absurd (omega arith)
slots_ext (cons x xs) (cons y ys) h k =
    let first : x ≡ y = k 0 (omega arith) in
    let rest = slots_ext xs ys (omega arith) (λ j l. k (suc j) (omega arith)) in cc

-- An inventory: seven slots, each with an acceptable row.
pub record IsInventory (xs : Items) : Type 0 where
  pub seven : items_length xs ≡ 7
  pub rows : (j : ℕ) → is_row (slot_at j xs) ≡ true

pub IsInventory-items_set :
    (i : ℕ) (w : Value) (xs : Items)
    → i < 7
    → is_row w ≡ true
    → IsInventory xs
    → IsInventory (items_set i w xs)
IsInventory-items_set i w xs h r v = record {
  seven = omega (arith, items_length-items_set i w xs, v.seven);
  rows = λ j. ground (arith, slot_at-items_set i j w xs (omega (arith, v.seven)), v.rows j);
}

-- Two inventories hold the same rows below a position.
abbrev pub Agree : ℕ → Items → Items → Type 0
Agree n xs ys = (j : ℕ) → j < n → slot_at j xs ≡ slot_at j ys
