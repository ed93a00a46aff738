-- ===== src/LiveGame/Arrays.antt =====
-- JSON arrays read and written by position: `items[i]`, `items[i] = w`, `extend`, `del items[n:]`.
use yummi_lcu.Common.{
  ℕ, zero, suc, ◌+◌, ◌<◌, ◌==◌, if◌then◌else◌, Option, none, some, ◌≡◌, refl, ap, arith,
}
use yummi_lcu.Json.{Value, Items, nil, cons}

abbrev pub items_length : Items → ℕ
items_length nil = 0
items_length (cons x xs) = suc (items_length xs)

abbrev pub items_get : ℕ → Items → Option Value
items_get i nil = none
items_get zero (cons x xs) = some x
items_get (suc i) (cons x xs) = items_get i xs

-- A write out of range changes nothing.
abbrev pub items_set : ℕ → Value → Items → Items
items_set i w nil = nil
items_set zero w (cons x xs) = cons w xs
items_set (suc i) w (cons x xs) = cons x (items_set i w xs)

abbrev pub items_append : Items → Items → Items
items_append nil ys = ys
items_append (cons x xs) ys = cons x (items_append xs ys)

abbrev pub items_take : ℕ → Items → Items
items_take zero xs = nil
items_take (suc n) nil = nil
items_take (suc n) (cons x xs) = cons x (items_take n xs)

abbrev pub items_drop : ℕ → Items → Items
items_drop zero xs = xs
items_drop (suc n) nil = nil
items_drop (suc n) (cons x xs) = items_drop n xs

pub items_get-items_set :
    (i j : ℕ) (w v : Value) (xs : Items)
    → items_get i xs ≡ some v
    → items_get j (items_set i w xs) ≡ (if i == j then some w else items_get j xs)
items_get-items_set i j w v nil h = cc
items_get-items_set zero zero w v (cons x xs) h = refl
items_get-items_set zero (suc j) w v (cons x xs) h = ground arith
items_get-items_set (suc i) zero w v (cons x xs) h = ground arith
items_get-items_set (suc i) (suc j) w v (cons x xs) h =
    ground (arith, items_get-items_set i j w v xs h)

pub items_set-items_set :
    (i : ℕ) (w u : Value) (xs : Items) → items_set i w (items_set i u xs) ≡ items_set i w xs
items_set-items_set i w u nil = refl
items_set-items_set zero w u (cons x xs) = refl
items_set-items_set (suc i) w u (cons x xs) = ap (cons x) (items_set-items_set i w u xs)

pub items_set-items_get :
    (i : ℕ) (v : Value) (xs : Items) → items_get i xs ≡ some v → items_set i v xs ≡ xs
items_set-items_get i v nil h = refl
items_set-items_get zero v (cons x xs) h = cc
items_set-items_get (suc i) v (cons x xs) h = ap (cons x) (items_set-items_get i v xs h)

pub items_length-items_set :
    (i : ℕ) (w : Value) (xs : Items) → items_length (items_set i w xs) ≡ items_length xs
items_length-items_set i w nil = refl
items_length-items_set zero w (cons x xs) = refl
items_length-items_set (suc i) w (cons x xs) = ap suc (items_length-items_set i w xs)

pub items_length-items_append :
    (xs ys : Items) → items_length (items_append xs ys) ≡ items_length xs + items_length ys
items_length-items_append nil ys = omega arith
items_length-items_append (cons x xs) ys = omega (arith, items_length-items_append xs ys)

-- Every position below the length holds a value.
pub items_get_total :
    (i : ℕ) (xs : Items) → i < items_length xs → (v : Value) × (items_get i xs ≡ some v)
items_get_total i nil h = elim h [ ]
items_get_total zero (cons x xs) h = (x, refl)
items_get_total (suc i) (cons x xs) h = items_get_total i xs (omega arith)

-- The first part is overwritten, and what follows stays.
pub items_get_middle :
    (xs ys : Items) (y : Value) → items_get (items_length xs) (items_append xs (cons y ys)) ≡ some y
items_get_middle nil ys y = refl
items_get_middle (cons x xs) ys y = items_get_middle xs ys y

pub items_set_middle :
    (xs ys : Items) (y w : Value)
    → items_set (items_length xs) w (items_append xs (cons y ys)) ≡ items_append xs (cons w ys)
items_set_middle nil ys y w = refl
items_set_middle (cons x xs) ys y w = ap (cons x) (items_set_middle xs ys y w)

pub items_append_assoc :
    (xs ys zs : Items) → items_append (items_append xs ys) zs ≡ items_append xs (items_append ys zs)
items_append_assoc nil ys zs = refl
items_append_assoc (cons x xs) ys zs = ap (cons x) (items_append_assoc xs ys zs)

pub items_append-nil : (xs : Items) → items_append xs nil ≡ xs
items_append-nil nil = refl
items_append-nil (cons x xs) = ap (cons x) (items_append-nil xs)

pub items_take-append : (xs ys : Items) → items_take (items_length xs) (items_append xs ys) ≡ xs
items_take-append nil ys = refl
items_take-append (cons x xs) ys = ap (cons x) (items_take-append xs ys)
