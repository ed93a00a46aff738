-- ===== src/LiveGame/Receiver/Accepts.antt =====
-- Which values the relay can follow, and that it reads every operation of the agent as it is meant.
use yummi_lcu.Common.{
  ℕ, suc, ◌+◌, ◌-◌, ◌≤◌, ◌<◌, Bool, true, not, ◌&&◌, ltb, leb, Bytes, some, and_then, length,
  length-append, all, List, [], ◌∷◌, ◌++◌, ◌≡◌, refl, ap, arith, Option-cases, Bool-cases,
  and-eq_true, ltb→lt, subst, inl, inr, text_eq, text_eq_iff,
}
use yummi_lcu.Json.{Value, array, object, Items, nil, cons, Fields, end, field, get}
use yummi_lcu.Relay.Protocol.{chars_count, is_empty}
use yummi_lcu.LiveGame.Arrays.{items_length}
use yummi_lcu.LiveGame.Dict.{is_sorted}
use yummi_lcu.LiveGame.Paths.{Seg, key, index}
use yummi_lcu.LiveGame.Delta.{
  path_items, delta_path, set_json, delete_json, append_json, truncate_json,
}
use yummi_lcu.LiveGame.Receiver.{
  max_live_delta_path_depth, Op, set_op, delete_op, append_op, truncate_op, live_delta_segs,
  live_delta_path, tree_op, parse_op, apply_op, apply_each,
}

unfoldable pub is_key : Bytes → Bool
is_key k = not (is_empty k) && leb (chars_count k) 128

unfoldable pub is_seg : Seg → Bool
unfolding is_key
is_seg (key k) = is_key k
is_seg (index n) = leb n 4096

-- Objects sorted, their keys and the positions in arrays within the relay's limits, and no place in
-- the value more than `depth` segments away.
unfoldable mutual
  unfolding is_key is_sorted

  pub is_sendable : ℕ → Value → Bool
  is_sendable depth (array xs) = items_sendable depth 0 xs
  is_sendable depth (object fs) = is_sorted fs && fields_sendable depth fs
  is_sendable depth _ = true

  pub items_sendable : ℕ → ℕ → Items → Bool
  items_sendable depth i nil = true
  items_sendable depth i (cons x xs) =
      leb i 4096 && (ltb 0 depth && (is_sendable (depth - 1) x && items_sendable depth (suc i) xs))

  pub fields_sendable : ℕ → Fields → Bool
  fields_sendable depth end = true
  fields_sendable depth (field k v fs) =
      is_key k && (ltb 0 depth && (is_sendable (depth - 1) v && fields_sendable depth fs))

-- What a sendable object holds under a key.
pub record IsChild (depth : ℕ) (s : Seg) (v : Value) : Type 0 where
  pub segment : is_seg s ≡ true
  pub deeper : 0 < depth
  pub sendable : is_sendable (depth - 1) v ≡ true

pub fields_sendable-get :
    (depth : ℕ) (k : Bytes) (v : Value) (fs : Fields)
    → fields_sendable depth fs ≡ true
    → get k fs ≡ some v
    → IsChild depth (key k) v
unfolding fields_sendable get is_seg
fields_sendable-get depth k v end h g = absurd (cc)
fields_sendable-get depth k v (field j w fs) h g =
    let (named, rest) = and-eq_true (is_key j) _ h in
    let (deep, below) = and-eq_true (ltb 0 depth) _ rest in
    let (here, others) = and-eq_true (is_sendable (depth - 1) w) _ below in
    elim (Bool-cases (text_eq j k)) [
      | inl e ↦
          let same : j ≡ k = (text_eq_iff j k).0 e in
          let value : w ≡ v = ground arith in
          record {
            segment = subst (λ (t : Bytes). is_key t ≡ true) same named;
            deeper = ltb→lt 0 depth deep;
            sendable = subst (λ (t : Value). is_sendable (depth - 1) t ≡ true) value here;
          }
      | inr e ↦ fields_sendable-get depth k v fs others (rw e at g)
    ]

-- A place that the paths of operations may name.
pub record IsPlace (path : List Seg) (depth : ℕ) : Type 0 where
  pub segments : all is_seg path ≡ true
  pub near : length path + depth ≤ max_live_delta_path_depth

all_snoc : (s : Seg) (p : List Seg) → all is_seg (p ++ (s ∷ [])) ≡ (all is_seg p && is_seg s)
all_snoc s [] = ground arith
all_snoc s (t ∷ p) = ground (arith, all_snoc s p)

pub IsPlace-snoc :
    (path : List Seg) (depth : ℕ) (s : Seg)
    → IsPlace path depth
    → is_seg s ≡ true
    → 0 < depth
    → IsPlace (path ++ (s ∷ [])) (depth - 1)
IsPlace-snoc path depth s h e d = record {
  segments = ground (arith, all_snoc s path, h.segments);
  near = omega (arith, length-append path (s ∷ []), h.near);
}

live_delta_segs-path_items :
    (p : List Seg) → all is_seg p ≡ true → live_delta_segs (path_items p) ≡ some p
unfolding live_delta_segs is_seg
live_delta_segs-path_items [] h = refl
live_delta_segs-path_items (key k ∷ p) h = ground (arith, live_delta_segs-path_items p)
live_delta_segs-path_items (index n ∷ p) h = ground (arith, live_delta_segs-path_items p)

items_length-path_items : (p : List Seg) → items_length (path_items p) ≡ length p
items_length-path_items [] = refl
items_length-path_items (s ∷ p) = ap suc (items_length-path_items p)

pub live_delta_path-delta_path :
    (p : List Seg) (depth : ℕ) → IsPlace p depth → live_delta_path (delta_path p) ≡ some p
unfolding live_delta_path
live_delta_path-delta_path p depth h =
    ground (arith, items_length-path_items p, live_delta_segs-path_items p h.segments, h.near)

module _ (p : List Seg) (depth : ℕ) (h : IsPlace p depth) where
  pub parse_op-set_json : (v : Value) → parse_op (set_json p v) ≡ some (set_op p v)
  unfolding parse_op set_json tree_op text_eq
  parse_op-set_json v = rw (live_delta_path-delta_path p depth h)

  pub parse_op-delete_json : parse_op (delete_json p) ≡ some (delete_op p)
  unfolding parse_op delete_json tree_op text_eq
  parse_op-delete_json = rw (live_delta_path-delta_path p depth h)

  pub parse_op-append_json : (xs : Items) → parse_op (append_json p xs) ≡ some (append_op p xs)
  unfolding parse_op append_json tree_op text_eq
  parse_op-append_json xs = rw (live_delta_path-delta_path p depth h)

  pub parse_op-truncate_json : (n : ℕ) → parse_op (truncate_json p n) ≡ some (truncate_op p n)
  unfolding parse_op truncate_json tree_op text_eq
  parse_op-truncate_json n = rw (live_delta_path-delta_path p depth h)

-- Operations one after the other.
pub apply_each_append :
    (a b : List Value) (root : Value)
    → apply_each (a ++ b) root ≡ and_then (apply_each a root) (apply_each b)
unfolding apply_each
apply_each_append [] b root = refl
apply_each_append (raw ∷ a) b root = elim (Option-cases (parse_op raw)) [
  | inl e ↦ rw e
  | inr (op, e) ↦ elim (Option-cases (apply_op op root)) [
    | inl f ↦ rw (e, f)
    | inr (root', f) ↦ rw (e, f) (apply_each_append a b root')
  ]
]

pub apply_each_one :
    (raw : Value) (op : Op) (root root' : Value)
    → parse_op raw ≡ some op
    → apply_op op root ≡ some root'
    → apply_each (raw ∷ []) root ≡ some root'
unfolding apply_each
apply_each_one raw op root root' e f = rw (e, f)

pub apply_each_then :
    (a b : List Value) (root root' : Value)
    → apply_each a root ≡ some root'
    → apply_each (a ++ b) root ≡ apply_each b root'
apply_each_then a b root root' e = ground (arith, apply_each_append a b root)
