-- ===== src/LiveGame/Values.antt =====
-- `==` on `serde_json::Value`, structural. Equal floats have equal names.
use yummi_lcu.Common.{
  Bool, true, false, ◌&&◌, ◌==◌, text_eq, text_eq_iff, text_eq_refl, ◌≡◌, refl, ap, ◌↔◌, arith,
  and-eq_true,
}
use yummi_lcu.Json.{
  Value, null, bool, pos_int, neg_int, float, text, array, object, Items, nil, cons, Fields, end,
  field,
}

abbrev pub bool_eq : Bool → Bool → Bool
bool_eq true true = true
bool_eq false false = true
bool_eq _ _ = false

unfoldable mutual
  pub value_eq : Value → Value → Bool
  value_eq null null = true
  value_eq (bool a) (bool b) = bool_eq a b
  value_eq (pos_int m) (pos_int n) = m == n
  value_eq (neg_int m) (neg_int n) = m == n
  value_eq (float m) (float n) = m == n
  value_eq (text s) (text t) = text_eq s t
  value_eq (array xs) (array ys) = items_eq xs ys
  value_eq (object fs) (object gs) = fields_eq fs gs
  value_eq _ _ = false

  pub items_eq : Items → Items → Bool
  items_eq nil nil = true
  items_eq (cons x xs) (cons y ys) = value_eq x y && items_eq xs ys
  items_eq _ _ = false

  pub fields_eq : Fields → Fields → Bool
  fields_eq end end = true
  fields_eq (field j v fs) (field k w gs) = text_eq j k && (value_eq v w && fields_eq fs gs)
  fields_eq _ _ = false

mutual
  unfolding value_eq items_eq fields_eq

  eq_of_value_eq : (v w : Value) → value_eq v w ≡ true → v ≡ w
  eq_of_value_eq null null h = refl
  eq_of_value_eq (bool true) (bool true) h = refl
  eq_of_value_eq (bool false) (bool false) h = refl
  eq_of_value_eq (pos_int m) (pos_int n) h = ground arith
  eq_of_value_eq (neg_int m) (neg_int n) h = ground arith
  eq_of_value_eq (float m) (float n) h = ground arith
  eq_of_value_eq (text s) (text t) h = ground (arith, text_eq_iff s t)
  eq_of_value_eq (array xs) (array ys) h = ap array (eq_of_items_eq xs ys h)
  eq_of_value_eq (object fs) (object gs) h = ap object (eq_of_fields_eq fs gs h)
  eq_of_value_eq _ _ h = cc

  eq_of_items_eq : (xs ys : Items) → items_eq xs ys ≡ true → xs ≡ ys
  eq_of_items_eq nil nil h = refl
  eq_of_items_eq (cons x xs) (cons y ys) h =
      ground (arith, eq_of_value_eq x y, eq_of_items_eq xs ys)
  eq_of_items_eq _ _ h = cc

  eq_of_fields_eq : (fs gs : Fields) → fields_eq fs gs ≡ true → fs ≡ gs
  eq_of_fields_eq end end h = refl
  eq_of_fields_eq (field j v fs) (field k w gs) h =
      let (same, rest) = and-eq_true (text_eq j k) _ h in
      let (values, fields) = and-eq_true (value_eq v w) (fields_eq fs gs) rest in
      let key = (text_eq_iff j k).0 same in
      let value = eq_of_value_eq v w values in let others = eq_of_fields_eq fs gs fields in cc
  eq_of_fields_eq _ _ h = cc

mutual
  unfolding value_eq items_eq fields_eq

  value_eq_refl : (v : Value) → value_eq v v ≡ true
  value_eq_refl null = refl
  value_eq_refl (bool true) = refl
  value_eq_refl (bool false) = refl
  value_eq_refl (pos_int m) = ground arith
  value_eq_refl (neg_int m) = ground arith
  value_eq_refl (float m) = ground arith
  value_eq_refl (text s) = text_eq_refl s
  value_eq_refl (array xs) = items_eq_refl xs
  value_eq_refl (object fs) = fields_eq_refl fs

  items_eq_refl : (xs : Items) → items_eq xs xs ≡ true
  items_eq_refl nil = refl
  items_eq_refl (cons x xs) = ground (arith, value_eq_refl x, items_eq_refl xs)

  fields_eq_refl : (fs : Fields) → fields_eq fs fs ≡ true
  fields_eq_refl end = refl
  fields_eq_refl (field j v fs) = ground (arith, text_eq_refl j, value_eq_refl v, fields_eq_refl fs)

pub value_eq_iff : (v w : Value) → (value_eq v w ≡ true) ↔ (v ≡ w)
value_eq_iff v w = (eq_of_value_eq v w, λ e. rw e (value_eq_refl w))
