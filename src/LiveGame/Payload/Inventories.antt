-- ===== src/LiveGame/Payload/Inventories.antt =====
-- The inventories of the states that the agent builds.
use yummi_lcu.Common.{
  ℕ, zero, suc, ◌<◌, ◌≤◌, true, leb, Bytes, codes, text_eq, Option, none, some, and_then, filter,
  ◌≡◌, refl, sym, ap, ◌∙◌, subst, arith, Option-cases, inl, inr,
}
use yummi_lcu.Json.{
  Value, pos_int, text, array, object, Items, nil, cons, Fields, get, as_object, as_u64,
}
use yummi_lcu.Relay.Protocol.{chars_count}
use yummi_lcu.LiveGame.Values.{value_eq_iff}
use yummi_lcu.LiveGame.Arrays.{items_length, items_get, items_set, items_get_total}
use yummi_lcu.LiveGame.Paths.{lookup}
use yummi_lcu.LiveGame.Items.{slot_at}
use yummi_lcu.LiveGame.Items.Rows.{
  is_row, row_parts, is_item, is_accepted, IsInventory, IsInventory-items_set,
}
use yummi_lcu.LiveGame.Receiver.{item_row, items_path}
use yummi_lcu.LiveGame.Delta.Sound.{HasAcceptedRows}
use yummi_lcu.LiveGame.Payload.{
  value_get, or_else, as_array, Floats, live_item_row, fill_slots, empty_slots, live_player_items,
  live_player_payload, map_players, live_payload_fields, live_game_payload_at,
}

-- The state has ten participants, and each of them has an inventory of seven slots that are empty or
-- hold a row that the relay accepts.
pub record HasInventories (state : Fields) : Type 0 where
  pub participants : Items
  pub listed : get (codes "participants") state ≡ some (array participants)
  pub ten : items_length participants ≡ 10
  pub inventory :
      (p : ℕ)
      → p < 10
      → (xs : Items) × (lookup (items_path p) (object state) ≡ some (array xs)) × IsInventory xs

some_array : {xs ys : Items} → some (array xs) ≡ some (array ys) → xs ≡ ys
some_array e = cc

-- The deltas between such states can be followed.
pub HasInventories-HasAcceptedRows :
    (state : Fields) → HasInventories state → HasAcceptedRows (object state)
HasInventories-HasAcceptedRows state h = record {
  rows = λ p xs low e seven.
      let (ys, there, v) = h.inventory p low in
      let same : ys ≡ xs = some_array (sym there ∙ e) in subst IsInventory same v;
}

-- What the game client says of an item, within the limits of the relay.
pub record IsPlainItem (item : Value) : Type 0 where
  pub id : ℕ
  pub name : Bytes
  pub count : ℕ
  pub has_id : value_get "itemID" item ≡ some (pos_int id)
  pub has_name : value_get "displayName" item ≡ some (text name)
  pub has_count : value_get "count" item ≡ some (pos_int count)
  pub id_low : 0 < id
  pub id_high : id ≤ 1000000
  pub name_short : chars_count name ≤ 256
  pub count_low : 0 < count
  pub count_high : count ≤ 999

-- Every item of every player.
pub record IsPlainPlayer (player : Value) : Type 0 where
  pub items :
      (raw : Items) (i : ℕ) (item : Value)
      → and_then (value_get "items" player) as_array ≡ some raw
      → items_get i raw ≡ some item
      → IsPlainItem item

row_parts-item_row :
    (id : ℕ) (name : Bytes) (count : ℕ)
    → row_parts (item_row id name count) ≡ some (id, name, count)
unfolding row_parts item_row get text_eq
row_parts-item_row id name count = refl

is_row-item_row :
    (id : ℕ) (name : Bytes) (count : ℕ)
    → 0 < id
    → id ≤ 1000000
    → chars_count name ≤ 256
    → 0 < count
    → count ≤ 999
    → is_row (item_row id name count) ≡ true
unfolding is_row is_item is_accepted
is_row-item_row id name count a b c d e =
    let row = item_row id name count in
    ground (arith, row_parts-item_row id name count, (value_eq_iff row row).1 refl)

live_item_row-IsPlainItem :
    (item : Value) (h : IsPlainItem item) → live_item_row item ≡ item_row h.id h.name h.count
unfolding live_item_row item_row
live_item_row-IsPlainItem item h = rw (h.has_id, h.has_name, h.has_count)

filtered : (o : Option ℕ) (n : ℕ) → filter o (λ slot. leb slot 6) ≡ some n → n < 7
filtered none n h = absurd (cc)
filtered (some m) n h = ground arith

fill_slots-IsInventory :
    (raw items : Items)
    → ((i : ℕ) (item : Value) → items_get i raw ≡ some item → IsPlainItem item)
    → IsInventory items
    → IsInventory (fill_slots raw items)
unfolding fill_slots
fill_slots-IsInventory nil items plain v = v
fill_slots-IsInventory (cons item raw) items plain v =
    let h = plain 0 item refl in
    let row : is_row (live_item_row item) ≡ true = rw (live_item_row-IsPlainItem item h) (
      is_row-item_row h.id h.name h.count h.id_low h.id_high h.name_short h.count_low
        h.count_high) in
    elim (Option-cases (filter (and_then (value_get "slot" item) as_u64) (λ slot. leb slot 6))) [
      | inl e ↦ rw e (fill_slots-IsInventory raw items (λ i x k. plain (suc i) x k) v)
      | inr (slot, e) ↦ rw e (
          fill_slots-IsInventory raw (items_set slot (live_item_row item) items)
            (λ i x k. plain (suc i) x k)
            (IsInventory-items_set slot (live_item_row item) items
              (filtered (and_then (value_get "slot" item) as_u64) slot e) row v))
    ]

empty_row : (j : ℕ) → is_row (slot_at j empty_slots) ≡ true
unfolding is_row
empty_row zero = refl
empty_row (suc zero) = refl
empty_row (suc (suc zero)) = refl
empty_row (suc (suc (suc zero))) = refl
empty_row (suc (suc (suc (suc zero)))) = refl
empty_row (suc (suc (suc (suc (suc zero))))) = refl
empty_row (suc (suc (suc (suc (suc (suc zero)))))) = refl
empty_row (suc (suc (suc (suc (suc (suc (suc j))))))) = refl

empty_slots-IsInventory : IsInventory empty_slots
unfolding is_row
empty_slots-IsInventory = record { seven = refl; rows = empty_row }

live_player_items-IsInventory :
    (player : Value) → IsPlainPlayer player → IsInventory (live_player_items player)
unfolding live_player_items
live_player_items-IsInventory player h =
    elim (Option-cases (and_then (value_get "items" player) as_array)) [
      | inl e ↦ rw (e, live_player_items) empty_slots-IsInventory
      | inr (raw, e) ↦
          rw (e, live_player_items)
            (fill_slots-IsInventory raw empty_slots (λ i item k. h.items raw i item e k)
              empty_slots-IsInventory)
    ]

items_get-map_players :
    (f : Floats) (ps : Items) (i : ℕ) (p : Value)
    → items_get i ps ≡ some p
    → items_get i (map_players f ps) ≡ some (live_player_payload f p)
unfolding map_players
items_get-map_players f nil i p h = absurd (cc)
items_get-map_players f (cons q ps) zero p h = ground arith
items_get-map_players f (cons q ps) (suc i) p h = items_get-map_players f ps i p h

items_length-map_players :
    (f : Floats) (ps : Items) → items_length (map_players f ps) ≡ items_length ps
unfolding map_players
items_length-map_players f nil = refl
items_length-map_players f (cons p ps) = ap suc (items_length-map_players f ps)

module _ (trim : Bytes → Bytes) (f : Floats) where
  participants_lem :
      (value : Value) (game_data : Fields) (players : Items) (events : Option Value) (now : ℕ)
      → get (codes "participants") (live_payload_fields trim f value game_data players events now)
        ≡ some (array (map_players f players))
  unfolding live_payload_fields get text_eq
  participants_lem value game_data players events now = refl

  -- Every player of the payload has the inventory that is built for it.
  inventory_of :
      (value : Value) (game_data : Fields) (players : Items) (events : Option Value) (now p : ℕ)
      (player : Value)
      → items_get p players ≡ some player
      → lookup
          (items_path p)
          (object (live_payload_fields trim f value game_data players events now))
        ≡ some (array (live_player_items player))
  unfolding lookup live_player_payload live_player_items get text_eq
  inventory_of value game_data players events now p player h =
      rw
        (
          participants_lem value game_data players events now,
          items_get-map_players f players p player h,
        )
        refl

  payload_parts :
      (value : Value) (events : Option Value) (now : ℕ) (state : Fields)
      → live_game_payload_at trim f value events now ≡ some state
      → (game_data : Fields) × ((players : Items) × ((and_then
                (or_else (value_get "allPlayers" value) (value_get "players" value))
                as_array
              ≡ some players)
            × ((items_length players ≡ 10)
                × (state ≡ live_payload_fields trim f value game_data players events now))))
  unfolding live_game_payload_at
  payload_parts value events now state h =
      elim (Option-cases (and_then (value_get "gameData" value) as_object)) [
        | inl e ↦ absurd (ground arith)
        | inr (game_data, e) ↦
            elim (Option-cases (
              and_then (or_else (value_get "allPlayers" value) (value_get "players" value))
                as_array)) [
                  | inl g ↦ absurd (ground arith)
                  | inr (players, g) ↦ (game_data, (players, (g, (ground arith, ground arith))))
                ]
      ]

  -- If the game client gave every item of every player an `itemID`, a `displayName` and a `count` within
  -- the relay's limits, a state that `live_game_payload_at` builds has ten participants, and each of the
  -- ten has an inventory of seven slots, each empty or with a row that the relay accepts.
  pub live_game_payload_at-HasInventories :
      (value : Value) (events : Option Value) (now : ℕ) (state : Fields)
      → live_game_payload_at trim f value events now ≡ some state
      → ((players : Items) (p : ℕ) (player : Value)
          → and_then (or_else (value_get "allPlayers" value) (value_get "players" value)) as_array
            ≡ some players
          → items_get p players ≡ some player
          → IsPlainPlayer player)
      → HasInventories state
  live_game_payload_at-HasInventories value events now state h plain =
      let (game_data, (players, (listed, (ten, built)))) = payload_parts value events now state h in
      subst HasInventories (sym built) (record {
        participants = map_players f players;
        listed = participants_lem value game_data players events now;
        ten = items_length-map_players f players ∙ ten;
        inventory = λ p low.
            let (player, there) = items_get_total p players (omega (arith, ten)) in
            (
              live_player_items player,
              inventory_of value game_data players events now p player there,
              live_player_items-IsInventory player (plain players p player listed there),
            );
      })
