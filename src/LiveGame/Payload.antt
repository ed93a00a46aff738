-- ===== src/LiveGame/Payload.antt =====
-- lcu/events.rs, `live_game_payload_at`: the state of a live game from what the game client answers.
-- `trim` stands for `str::trim`; `Floats` for what the code does with a number that is a float.

pub mod Inventories
mod Tests
use yummi_lcu.Common.{
  ℕ, suc, ◌+◌, ◌-◌, Bool, true, false, not, ◌&&◌, ◌||◌, leb, ◌==◌, if◌then◌else◌, Bytes, codes,
  text_eq, Option, String, none, some, and_then, unwrap_or, filter, is_some_and, List, [], ◌∷◌,
}
use yummi_lcu.Json.{
  Value, null, bool, pos_int, neg_int, float, text, array, object, Items, nil, cons, Fields, end,
  field, get, as_object, as_str, as_u64,
}
use yummi_lcu.Relay.Protocol.{is_empty}
use yummi_lcu.LiveGame.Arrays.{items_length, items_set}
use yummi_lcu.LiveGame.Dict.{insert}
use yummi_lcu.LiveGame.Items.{live_game_participant_count, is_null}

-- `Value::get` and `or_else`.
abbrev pub value_get : String → Value → Option Value
value_get k v = and_then (as_object v) (get (codes k))

abbrev pub or_else : Option Value → Option Value → Option Value
or_else none other = other
or_else (some v) other = some v

abbrev pub as_array : Value → Option Items
as_array (array xs) = some xs
as_array _ = none

-- An object by its entries, in the order of the keys.
abbrev pub fields_of : List (String × Value) → Fields
fields_of [] = end
fields_of ((k, v) ∷ es) = field (codes k) v (fields_of es)

pub record Floats : Type 0 where
  -- A float rounded to three places, and the milliseconds of a number of seconds that is not negative.
  pub rounded : ℕ → Value
  pub millis : Value → Option ℕ

-- The row that is put into a slot.
unfoldable pub live_item_row : Value → Value
live_item_row item = object (
    fields_of (
      ("count", unwrap_or (value_get "count" item) (pos_int 1))
      ∷ (("id", unwrap_or (or_else (value_get "itemID" item) (value_get "id" item)) null)
          ∷ ((
            "name",
            unwrap_or (or_else (value_get "displayName" item) (value_get "name" item)) (text []),
          )
              ∷ []))))

-- The loop over the raw items; an item without a slot of 0 to 6 is passed over.
unfoldable pub fill_slots : Items → Items → Items
unfolding live_item_row
fill_slots nil items = items
fill_slots (cons item raw) items =
    fill_slots raw (elim (filter (and_then (value_get "slot" item) as_u64) (λ slot. leb slot 6)) [
      | none ↦ items
      | some slot ↦ items_set slot (live_item_row item) items
    ])

abbrev pub empty_slots : Items
empty_slots = cons null (cons null (cons null (cons null (cons null (cons null (cons null nil))))))

unfoldable pub live_player_items : Value → Items
unfolding fill_slots
live_player_items player = elim (and_then (value_get "items" player) as_array) [
  | none ↦ empty_slots
  | some raw ↦ fill_slots raw empty_slots
]

module _ (f : Floats) where
  unfoldable pub rounded_live_number : Option Value → Value
  rounded_live_number none = null
  rounded_live_number (some (float x)) = f.rounded x
  rounded_live_number (some v) = v

  unfoldable pub live_player_payload : Value → Value
  unfolding rounded_live_number live_player_items
  live_player_payload player =
      let scores = value_get "scores" player in
      let plain = λ (k : String). unwrap_or (value_get k player) null in
      let either =
        λ (k j : String). unwrap_or (or_else (value_get k player) (value_get j player)) null in
      let flag = λ (k : String). unwrap_or (value_get k player) (bool false) in
      let score = λ (k : String). unwrap_or (and_then scores (value_get k)) (pos_int 0) in
      let rounded_score : String → Value =
        λ k. elim scores [ none ↦ pos_int 0 | some s ↦ rounded_live_number (value_get k s) ] in
      object (
        fields_of (
          ("assists", score "assists")
          ∷ (("champion_name", plain "championName")
              ∷ (("creep_score", rounded_score "creepScore")
                  ∷ (("deaths", score "deaths")
                      ∷ ((
                        "gold",
                        rounded_live_number
                            (or_else (value_get "gold" player) (value_get "currentGold" player)),
                      )
                          ∷ (("is_bot", flag "isBot")
                              ∷ (("is_dead", flag "isDead")
                                  ∷ (("items", array (live_player_items player))
                                      ∷ (("kills", score "kills")
                                          ∷ (("level", plain "level")
                                              ∷ (("position", plain "position")
                                                  ∷ (("raw_champion_name", plain "rawChampionName")
                                                      ∷ ((
                                                        "respawn_timer",
                                                        rounded_live_number
                                                            (value_get "respawnTimer" player),
                                                      )
                                                          ∷ (("riot_id", either "riotId" "riot_id")
                                                            ∷ ((
                                                            "riot_id_game_name",
                                                            either "riotIdGameName" "gameName",
                                                            )
                                                            ∷ ((
                                                            "riot_id_tag_line",
                                                            either "riotIdTagLine" "tagLine",
                                                            )
                                                            ∷ (("runes", plain "runes")
                                                            ∷ (("skin_id", plain "skinID")
                                                            ∷ ((
                                                            "summoner_name",
                                                            plain "summonerName",
                                                            )
                                                            ∷ ((
                                                            "summoner_spells",
                                                            plain "summonerSpells",
                                                            )
                                                            ∷ (("team", plain "team")
                                                            ∷ ((
                                                            "ward_score",
                                                            rounded_score "wardScore",
                                                            )
                                                            ∷ [])))))))))))))))))))))))

  unfoldable pub map_players : Items → Items
  unfolding live_player_payload
  map_players nil = nil
  map_players (cons p ps) = cons (live_player_payload p) (map_players ps)

  -- `insert_non_null`
  unfoldable pub insert_non_null : String → Option Value → Fields → Fields
  unfolding insert
  insert_non_null k none row = row
  insert_non_null k (some v) row = if is_null v then row else insert (codes k) v row

  abbrev texts : Items → Items
  texts nil = nil
  texts (cons x xs) = elim (as_str x) [ none ↦ texts xs | some s ↦ cons (text s) (texts xs) ]

  unfoldable pub live_event_payload : Value → Option Value
  unfolding insert_non_null insert rounded_live_number
  live_event_payload event =
      let found : String → String → Option Value =
        λ k j. or_else (value_get k event) (value_get j event) in
      and_then (and_then (found "EventName" "eventName") as_str) λ name.
        let assisters : Items = elim (and_then (found "Assisters" "assisters") as_array) [
          | none ↦ nil
          | some xs ↦ texts xs
        ] in
        let named =
          insert (codes "name") (text name)
            (insert_non_null "id" (found "EventID" "eventId") end) in
        let timed =
          insert_non_null "time_seconds"
            (some (rounded_live_number (found "EventTime" "eventTime"))) named in
        let teams = insert_non_null "team" (found "Team" "team") (
          insert_non_null "victim_team" (found "VictimTeam" "victimTeam") (
            insert_non_null "killer_team" (found "KillerTeam" "killerTeam") (
              insert_non_null "victim_name" (found "VictimName" "victimName")
                (insert_non_null "killer_name" (found "KillerName" "killerName") timed)))) in
        let kills =
          insert_non_null "multi_kill"
            (or_else (found "MultiKill" "multiKill") (value_get "Multikill" event))
            (insert_non_null "victim_champion" (found "VictimChampion" "victimChampion") (
              insert_non_null "killer_champion" (found "KillerChampion" "killerChampion") teams)) in
        let helped =
          if items_length assisters == 0
          then kills
          else insert (codes "assisters") (array assisters) kills in
        some (
          object (
            insert_non_null "monster_type" (found "MonsterType" "monsterType") (
              insert_non_null "inhibitor_killed" (found "InhibKilled" "inhibKilled") (
                insert_non_null "turret_killed" (found "TurretKilled" "turretKilled")
                  (insert_non_null "dragon_type" (found "DragonType" "dragonType") helped)))))

  unfoldable pub map_events : Items → Items
  unfolding live_event_payload
  map_events nil = nil
  map_events (cons e es) = elim (live_event_payload e) [
    | none ↦ map_events es
    | some row ↦ cons row (map_events es)
  ]

  unfoldable pub live_events_payload : Option Value → Items
  unfolding map_events
  live_events_payload value =
      elim (and_then (and_then value (λ v. or_else (value_get "Events" v) (value_get "events" v)))
        as_array) [ none ↦ nil | some es ↦ map_events es ]

-- `live_client_mode`
unfoldable pub live_client_mode : (Bytes → Bytes) → Option Value → Bytes
live_client_mode trim value =
    let named : String → Fields → Bool =
      λ k fs. is_some_and (and_then (get (codes k) fs) as_str) (λ s. not (is_empty (trim s))) in
    if is_some_and (and_then value as_object) (λ fs.
      named "summonerName" fs
      || (named "riotId" fs || (named "riotIdGameName" fs || named "gameName" fs)))
    then codes "player"
    else codes "spectator"

module _ (trim : Bytes → Bytes) (f : Floats) where
  -- The `game` object.
  unfoldable pub game_fields : Fields → Fields
  unfolding rounded_live_number
  game_fields game_data =
      let plain : String → Value = λ k. unwrap_or (get (codes k) game_data) null in
      fields_of (
        ("game_id", plain "gameId")
        ∷ (("game_mode", plain "gameMode")
            ∷ (("id", plain "gameId")
                ∷ (("map", plain "mapName")
                    ∷ (("map_name", plain "mapName")
                        ∷ (("map_number", plain "mapNumber")
                            ∷ (("mode", plain "gameMode")
                                ∷ (("terrain", plain "mapTerrain")
                                    ∷ ((
                                      "time_seconds",
                                      rounded_live_number f (get (codes "gameTime") game_data),
                                    )
                                        ∷ [])))))))))

  unfoldable pub live_payload_fields : Value → Fields → Items → Option Value → ℕ → Fields
  unfolding map_players live_events_payload live_client_mode game_fields
  live_payload_fields value game_data players events captured_at_ms = fields_of (
      ("captured_at_ms", pos_int captured_at_ms)
      ∷ (("client_mode", text (live_client_mode trim (value_get "activePlayer" value)))
          ∷ (("events", array (live_events_payload f events))
              ∷ (("game", object (game_fields game_data))
                  ∷ ((
                    "match_created_at_ms",
                    elim (and_then (get (codes "gameTime") game_data) f.millis) [
                      | none ↦ null
                      | some ms ↦ pos_int (captured_at_ms - ms)
                    ],
                  )
                      ∷ (("participants", array (map_players f players))
                          ∷ (("phase", text (codes "InProgress"))
                              ∷ (("source", text (codes "lcu-agent")) ∷ []))))))))

  unfoldable pub live_game_payload_at : Value → Option Value → ℕ → Option Fields
  unfolding live_payload_fields
  live_game_payload_at value events captured_at_ms =
      and_then (and_then (value_get "gameData" value) as_object) λ game_data.
        and_then
          (and_then (or_else (value_get "allPlayers" value) (value_get "players" value)) as_array)
          λ players.
            if items_length players == live_game_participant_count
            then some (live_payload_fields value game_data players events captured_at_ms)
            else none
