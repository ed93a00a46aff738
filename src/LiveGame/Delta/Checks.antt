-- ===== src/LiveGame/Delta/Checks.antt =====
-- A test that a state is a live state.
use yummi_lcu.Common.{
  ℕ, zero, suc, ◌<◌, Bool, true, ◌&&◌, ◌==◌, if◌then◌else◌, Option, some, ◌≡◌, refl, arith, subst,
  Bool-cases, inl, inr, and-eq_true,
}
use yummi_lcu.Json.{Value, array, object, Items, nil, cons, Fields}
use yummi_lcu.LiveGame.Arrays.{items_length}
use yummi_lcu.LiveGame.Paths.{lookup}
use yummi_lcu.LiveGame.Items.{slot_at}
use yummi_lcu.LiveGame.Receiver.{items_path}
use yummi_lcu.LiveGame.Receiver.Accepts.{is_sendable}
use yummi_lcu.LiveGame.Items.Rows.{is_row, IsInventory}
use yummi_lcu.LiveGame.Delta.Follows.{IsLiveState}

unfoldable pub are_rows : Items → Bool
unfolding is_row
are_rows nil = true
are_rows (cons x xs) = is_row x && are_rows xs

abbrev is_inventory : Option Value → Bool
is_inventory (some (array xs)) = if items_length xs == 7 then are_rows xs else true
is_inventory _ = true

unfoldable pub inventories_below : ℕ → Value → Bool
unfolding are_rows lookup
inventories_below zero root = true
inventories_below (suc p) root =
    is_inventory (lookup (items_path p) root) && inventories_below p root

unfoldable pub is_live_state : Fields → Bool
unfolding inventories_below is_sendable
is_live_state fs = is_sendable 24 (object fs) && inventories_below 10 (object fs)

is_row-slot_at : (j : ℕ) (xs : Items) → are_rows xs ≡ true → is_row (slot_at j xs) ≡ true
unfolding are_rows
is_row-slot_at j nil h = unfold is_row in refl
is_row-slot_at zero (cons x xs) h = (and-eq_true (is_row x) (are_rows xs) h).0
is_row-slot_at (suc j) (cons x xs) h =
    is_row-slot_at j xs (and-eq_true (is_row x) (are_rows xs) h).1

inventory_below :
    (n p : ℕ) (root : Value) (xs : Items)
    → inventories_below n root ≡ true
    → p < n
    → lookup (items_path p) root ≡ some (array xs)
    → items_length xs ≡ 7
    → are_rows xs ≡ true
unfolding inventories_below
inventory_below zero p root xs h l e s = absurd (omega arith)
inventory_below (suc n) p root xs h l e s =
    let (first, rest) = and-eq_true _ (inventories_below n root) h in
    elim (Bool-cases (p == n)) [
      | inl same ↦
          let q : p ≡ n = ground arith in
          let there : lookup (items_path n) root ≡ some (array xs) =
            subst (λ (k : ℕ). lookup (items_path k) root ≡ some (array xs)) q e in
          ground arith
      | inr other ↦ inventory_below n p root xs rest (ground arith) e s
    ]

pub IsInventory-checked : (xs : Items) → items_length xs ≡ 7 → are_rows xs ≡ true → IsInventory xs
IsInventory-checked xs seven good = record { seven = seven; rows = λ j. is_row-slot_at j xs good }

pub IsLiveState-checked : (fs : Fields) → is_live_state fs ≡ true → IsLiveState fs
unfolding is_live_state
IsLiveState-checked fs h =
    let (fits, rows) = and-eq_true (is_sendable 24 (object fs)) _ h in
    record {
      sendable = fits;
      inventories = record {
        rows = λ p xs low e seven.
            IsInventory-checked xs seven (inventory_below 10 p (object fs) xs rows low e seven);
      };
    }
