-- ===== src/Json.antt =====
-- JSON values as the agent sees them (`serde_json::Value`), with the accessors that it uses.
-- A text is the list of its UTF-8 bytes. A number is a `u64`, a negative `i64`, or a float whose
-- value stays opaque. An object lists its entries in the order in which the map iterates.
use yummi_lcu.Common.{
  ℕ, suc, Bool, true, false, Option, none, some, Bytes, text_eq, leb, if◌then◌else◌,
}

mutual
  pub data Value : Type 0 where
    null : Value
    bool : Bool → Value
    pos_int : ℕ → Value
    neg_int : ℕ → Value
    float : ℕ → Value
    text : Bytes → Value
    array : Items → Value
    object : Fields → Value

  pub data Items : Type 0 where
    nil : Items
    cons : Value → Items → Items

  pub data Fields : Type 0 where
    end : Fields
    field : Bytes → Value → Fields → Fields

abbrev pub as_object : Value → Option Fields
as_object (object fs) = some fs
as_object _ = none

abbrev pub as_u64 : Value → Option ℕ
as_u64 (pos_int n) = some n
as_u64 _ = none

-- The `i64` that a number fits, by its sign: `true` for one below zero.
abbrev pub as_i64 : Value → Option (Bool × ℕ)
as_i64 (pos_int n) = if leb n 0x7fff_ffff_ffff_ffff then some (false, n) else none
as_i64 (neg_int n) = some (true, suc n)
as_i64 _ = none

abbrev pub as_str : Value → Option Bytes
as_str (text s) = some s
as_str _ = none

abbrev pub is_object : Value → Bool
is_object (object fs) = true
is_object _ = false

-- `Map::get`
unfoldable pub get : Bytes → Fields → Option Value
get k end = none
get k (field j v fs) = if text_eq j k then some v else get k fs

-- `Map::remove`
unfoldable pub remove : Bytes → Fields → Fields
remove k end = end
remove k (field j v fs) = if text_eq j k then remove k fs else field j v (remove k fs)
