-- ===== src/LiveGame/Payload/Tests.antt =====
-- A game of ten players with one item each.
use yummi_lcu.Common.{
  ℕ, zero, suc, Bytes, codes, text_eq, none, some, and_then, [], ◌∷◌, ◌≡◌, refl, ap, ◌∙◌, subst,
  arith,
}
use yummi_lcu.Json.{Value, pos_int, text, array, object, Items, nil, cons, Fields, end, field, get}
use yummi_lcu.Relay.Protocol.{chars_count}
use yummi_lcu.LiveGame.Arrays.{items_get}
use yummi_lcu.LiveGame.Payload.{
  value_get, or_else, as_array, fields_of, Floats, live_payload_fields, live_game_payload_at,
  live_player_items, live_item_row,
}
use yummi_lcu.LiveGame.Payload.Inventories.{
  IsPlainItem, IsPlainPlayer, HasInventories, live_game_payload_at-HasInventories,
}

abbrev floats : Floats
floats = record { rounded = λ x. pos_int x; millis = λ v. none }

abbrev keep : Bytes → Bytes
keep s = s

abbrev boots : Value
boots = object (
    fields_of (
      ("count", pos_int 1)
      ∷ (("displayName", text (codes "Boots"))
          ∷ (("itemID", pos_int 1001) ∷ (("slot", pos_int 2) ∷ [])))))

abbrev player : Value
player = object (fields_of (("items", array (cons boots nil)) ∷ []))

copies : ℕ → Value → Items
copies zero v = nil
copies (suc n) v = cons v (copies n v)

abbrev answer : Value
answer = object (
    field (codes "allPlayers") (array (copies 10 player))
      (field (codes "gameData") (object end) end))

abbrev state : Fields
state = live_payload_fields keep floats answer end (copies 10 player) none 5000

state_built : live_game_payload_at keep floats answer none 5000 ≡ some state
unfolding live_game_payload_at copies get text_eq
state_built = refl

-- The item stands in its slot.
boots_in_slot : items_get 2 (live_player_items player) ≡ some (live_item_row boots)
unfolding live_player_items get text_eq
boots_in_slot = refl

items_get-copies : (n p : ℕ) (v w : Value) → items_get p (copies n v) ≡ some w → v ≡ w
unfolding copies
items_get-copies zero p v w h = absurd (cc)
items_get-copies (suc n) zero v w h = ground arith
items_get-copies (suc n) (suc p) v w h = items_get-copies n p v w h

boots-IsPlainItem : IsPlainItem boots
unfolding get text_eq chars_count
boots-IsPlainItem = record {
  id = 1001;
  name = codes "Boots";
  count = 1;
  has_id = refl;
  has_name = refl;
  has_count = refl;
  id_low = omega arith;
  id_high = omega arith;
  name_short = omega arith;
  count_low = omega arith;
  count_high = omega arith;
}

some_value : {v w : Value} → some v ≡ some w → v ≡ w
some_value e = cc

some_items : {xs ys : Items} → some xs ≡ some ys → xs ≡ ys
some_items e = cc

one_item : (i : ℕ) (item : Value) → items_get i (cons boots nil) ≡ some item → IsPlainItem item
one_item zero item h = subst IsPlainItem (some_value h) boots-IsPlainItem
one_item (suc i) item h = absurd (cc)

player-IsPlainPlayer : IsPlainPlayer player
unfolding get text_eq
player-IsPlainPlayer = record {
  items = λ raw i item e h. one_item i item (ap (items_get i) (some_items e) ∙ h);
}

players_plain :
    (players : Items) (p : ℕ) (one : Value)
    → and_then (or_else (value_get "allPlayers" answer) (value_get "players" answer)) as_array
      ≡ some players
    → items_get p players ≡ some one
    → IsPlainPlayer one
unfolding get text_eq
players_plain players p one e h =
    subst IsPlainPlayer (items_get-copies 10 p player one (ap (items_get p) (some_items e) ∙ h))
      player-IsPlainPlayer

live_game_payload_at-HasInventories_example : HasInventories state
live_game_payload_at-HasInventories_example =
    live_game_payload_at-HasInventories keep floats answer none 5000 state state_built players_plain
