-- ===== src/LiveGame/Items/Sources.antt =====
-- The slot that a wanted row is swapped from, and the rows after a swap.
use yummi_lcu.Common.{
  ℕ, ◌≤◌, ◌<◌, Bool, true, ◌==◌, if◌then◌else◌, some, List, [], ◌∷◌, ◌≡◌, ◌≢◌, arith, All,
  Bool-cases, inl, inr, subst,
}
use yummi_lcu.Json.{Items}
use yummi_lcu.LiveGame.Values.{value_eq_iff}
use yummi_lcu.LiveGame.Arrays.{items_length, items_set, items_length-items_set}
use yummi_lcu.LiveGame.Items.{slot_at, is_null, is_source, find, slots, find_source, swapped}
use yummi_lcu.LiveGame.Items.Rows.{slot_at-items_set, IsInventory, IsInventory-items_set}

-- The slot that `find` answers with.
find-All :
    (q : ℕ → Bool) (ns : List ℕ) (n : ℕ)
    → All (λ m. m ≤ 6) ns
    → find q ns ≡ some n
    → (q n ≡ true) × (n ≤ 6)
find-All q [] n h e = absurd (cc)
find-All q (m ∷ ns) n h e = elim (Bool-cases (q m)) [
  | inl t ↦
      let same : m ≡ n = ground arith in
      (subst (λ (k : ℕ). q k ≡ true) same t, subst (λ (k : ℕ). k ≤ 6) same h.0)
  | inr f ↦ find-All q ns n h.1 (rw f at e)
]

pub record Source (slot source : ℕ) (xs next : Items) : Type 0 where
  pub bound : source ≤ 6
  pub other : source ≢ slot
  pub wanted : slot_at source xs ≡ slot_at slot next
  pub misplaced : slot_at source xs ≢ slot_at source next

is_source-Source :
    (slot source : ℕ) (xs next : Items)
    → source ≤ 6
    → is_source slot xs next source ≡ true
    → Source slot source xs next
unfolding is_source
is_source-Source slot source xs next b h =
    let found = value_eq_iff (slot_at source xs) (slot_at slot next) in
    let placed = value_eq_iff (slot_at source xs) (slot_at source next) in
    record { bound = b; other = ground arith; wanted = ground arith; misplaced = ground arith }

pub find_source-Source :
    (slot source : ℕ) (xs next : Items)
    → find_source slot xs next ≡ some source
    → Source slot source xs next
unfolding find_source
find_source-Source slot source xs next h = elim (Bool-cases (is_null (slot_at slot next))) [
  | inl e ↦ ground arith
  | inr e ↦
      let (test, bound) =
        find-All (is_source slot xs next) slots source (omega arith) (rw e at h) in
      is_source-Source slot source xs next bound test
]

pub slot_at-swapped :
    (slot source j : ℕ) (xs : Items)
    → slot < items_length xs
    → source < items_length xs
    → slot_at j (swapped slot source xs) ≡ (
        if source == j
        then slot_at slot xs
        else if slot == j
        then slot_at source xs
        else slot_at j xs)
unfolding swapped
slot_at-swapped slot source j xs h k = ground (
  arith,
  slot_at-items_set slot j (slot_at source xs) xs h,
  slot_at-items_set source j (slot_at slot xs) (items_set slot (slot_at source xs) xs),
  items_length-items_set slot (slot_at source xs) xs,
)

pub IsInventory-swapped :
    (slot source : ℕ) (xs : Items)
    → slot < 7
    → source < 7
    → IsInventory xs
    → IsInventory (swapped slot source xs)
unfolding swapped
IsInventory-swapped slot source xs h k v =
    IsInventory-items_set source (slot_at slot xs) _ k (v.rows slot)
      (IsInventory-items_set slot (slot_at source xs) xs h (v.rows source) v)
