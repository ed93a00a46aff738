-- ===== src/LiveGame/Tests.antt =====
-- Two states of a live game, the frames between them, and the theorems at them.
use yummi_lcu.Common.{
  ℕ, suc, ◌-◌, ◌<◌, true, false, Bytes, codes, text_eq, Option, none, some, length, get_elem?, List,
  [], ◌∷◌, ◌≡◌, inl, refl, arith, subst, zero,
}
use yummi_lcu.Json.{
  Value, null, pos_int, text, array, object, Items, nil, cons, Fields, end, field, get,
}
use yummi_lcu.CommandAuth.Canonical.{text_ltb}
use yummi_lcu.Relay.Protocol.{chars_count}
use yummi_lcu.LiveGame.Values.{value_eq}
use yummi_lcu.LiveGame.Dict.{insert}
use yummi_lcu.LiveGame.Paths.{at_parent, at_target, lookup, put}
use yummi_lcu.LiveGame.Items.{push_live_item_delta_ops, swap_json}
use yummi_lcu.LiveGame.Delta.{json_delta_ops}
use yummi_lcu.LiveGame.Receiver.{item_row, items_path, apply_each, apply_live_delta_ops}
use yummi_lcu.LiveGame.Stream.{live_delta_fields, no_stream, push_live_game_changed}
use yummi_lcu.LiveGame.Ingest.{Relay, acked, on_live_game_update}
use yummi_lcu.LiveGame.Delta.Follows.{IsLiveState, apply_live_delta_ops-json_delta_ops}
use yummi_lcu.LiveGame.Delta.Checks.{
  is_live_state, IsLiveState-checked, IsInventory-checked, are_rows,
}
use yummi_lcu.LiveGame.Items.Rows.{IsInventory}
use yummi_lcu.LiveGame.Items.Rounds.{push_live_item_delta_ops_follows}
use yummi_lcu.LiveGame.Ingest.Frames.{IsStreamId}
use yummi_lcu.LiveGame.Ingest.Handled.{some-inj}
use yummi_lcu.LiveGame.Ingest.Mirror.{sent_fields, deliver, next, here, AreLive, Reach-IsMirror}
use yummi_lcu.LiveGame.Ingest.InStep.{InStep, on_live_game_update-push_live_game_changed}

abbrev boots : Value
boots = item_row 1001 (codes "Boots") 1

abbrev potion : ℕ → Value
potion n = item_row 2003 (codes "Potion") n

abbrev seven : Value → Value → Value → Items
seven a b c = cons a (cons b (cons c (cons null (cons null (cons null (cons null nil))))))

abbrev player : Items → ℕ → Value
player items level =
    object (field (codes "items") (array items) (field (codes "level") (pos_int level) end))

abbrev game : Items → Items → ℕ → Fields
game items events level =
    field (codes "events") (array events)
      (field (codes "participants") (array (cons (player items level) nil)) end)

-- A kill, a swap of two slots, a potion drunk and a boot sold.
abbrev early : Fields
early = game (seven boots (potion 3) null) (cons (text (codes "start")) nil) 1

abbrev late : Fields
late = field (codes "captured_at_ms") (pos_int 1000) (
    game (seven (potion 2) null boots)
      (cons (text (codes "start")) (cons (text (codes "kill")) nil)) 2)

early_is_live : is_live_state early ≡ true
unfolding is_live_state item_row text_ltb chars_count get text_eq value_eq
early_is_live = refl

late_is_live : is_live_state late ≡ true
unfolding is_live_state item_row text_ltb chars_count get text_eq value_eq
late_is_live = refl

early-IsLiveState : IsLiveState early
early-IsLiveState = IsLiveState-checked early early_is_live

late-IsLiveState : IsLiveState late
late-IsLiveState = IsLiveState-checked late late_is_live

-- Six operations: the time is set, an event is appended, two slots are swapped, a count falls, and the
-- level is set.
delta_runs : length (json_delta_ops (object early) (object late) []) ≡ 6
unfolding json_delta_ops item_row get text_eq value_eq text_ltb
delta_runs = refl

apply_live_delta_ops-json_delta_ops_example :
    apply_live_delta_ops early (json_delta_ops (object early) (object late) []) ≡ some late
apply_live_delta_ops-json_delta_ops_example =
    apply_live_delta_ops-json_delta_ops early late early-IsLiveState late-IsLiveState

-- Where a row of the next inventory is no row at all, the answer is `false` after a swap was pushed.
swap_stays :
    push_live_item_delta_ops 0
      (seven boots (potion 3) null)
      (seven (potion 3) (text (codes "?")) null)
    ≡ (swap_json 0 0 1 ∷ [], false)
unfolding push_live_item_delta_ops item_row get text_eq value_eq
swap_stays = refl

-- A relay with no copies, and an identifier that `uuid.UUID` reads as itself.
abbrev empty_relay : Relay
empty_relay = record { stored = λ j. none; blocked = λ j. false }

abbrev stream : Bytes
stream = codes "6f1c2b1e-0000-4000-8000-000000000000"

abbrev same_text : Bytes → Option Bytes
same_text s = some s

stream-IsStreamId : IsStreamId same_text stream
unfolding chars_count
stream-IsStreamId = record { standard = refl; short = omega arith }

abbrev states : List Fields
states = early ∷ (late ∷ [])

live_at : (n : ℕ) (fs : Fields) → get_elem? states n ≡ some fs → IsLiveState fs
live_at zero fs h = subst IsLiveState (some-inj h) early-IsLiveState
live_at (suc zero) fs h = subst IsLiveState (some-inj h) late-IsLiveState
live_at (suc (suc n)) fs h = absurd (cc)

states-AreLive : AreLive same_text stream states
states-AreLive = record { each = λ n fs h. live_at n fs h }

-- The second frame arrives after the first, and the first once more.
abbrev once : Relay
once = (on_live_game_update same_text true (sent_fields stream states 0 early) empty_relay).0

abbrev twice : Relay
twice = (on_live_game_update same_text true (sent_fields stream states 1 late) once).0

abbrev again : Relay
again = (on_live_game_update same_text true (sent_fields stream states 0 early) twice).0

again_copy : again.stored stream ≡ some (2, late)
unfolding on_live_game_update live_delta_fields item_row get text_eq value_eq text_ltb chars_count
    apply_live_delta_ops json_delta_ops at_parent at_target insert
again_copy = refl

Reach-IsMirror_example : (0 < 2) × (get_elem? states (2 - 1) ≡ some late)
Reach-IsMirror_example =
    Reach-IsMirror same_text stream stream-IsStreamId states states-AreLive {r = empty_relay}
      {s = again} refl
      (next
        (next (next here (deliver 0 early true empty_relay refl)) (deliver 1 late true once refl))
        (deliver 0 early true twice refl))
      2 late again_copy

on_live_game_update-push_live_game_changed_example :
    (payload : Fields) × ((push_live_game_changed true stream
        (codes "f")
        (object early)
        no_stream).1
      ≡ some (object payload))
    × ((on_live_game_update same_text true payload empty_relay).1 ≡ acked)
    × InStep same_text
        (push_live_game_changed true stream (codes "f") (object early) no_stream).0
        (on_live_game_update same_text true payload empty_relay).0
        early
on_live_game_update-push_live_game_changed_example =
    on_live_game_update-push_live_game_changed same_text stream (codes "f") early no_stream
      empty_relay refl
      (inl record { no_state = refl; no_stream = refl; no_copy = refl; known = stream-IsStreamId })
      early-IsLiveState (λ ps h. absurd (cc)) (omega arith)

abbrev bag : Items
bag = seven boots (potion 3) null

abbrev next_bag : Items
next_bag = seven (potion 2) null boots

bag-IsInventory : IsInventory bag
unfolding are_rows item_row text_eq get chars_count value_eq
bag-IsInventory = IsInventory-checked bag refl refl

next_bag-IsInventory : IsInventory next_bag
unfolding are_rows item_row text_eq get chars_count value_eq
next_bag-IsInventory = IsInventory-checked next_bag refl refl

bag_there : lookup (items_path 0) (object early) ≡ some (array bag)
unfolding lookup get text_eq
bag_there = refl

push_live_item_delta_ops_follows_example :
    (ops : List Value) × (push_live_item_delta_ops 0 bag next_bag ≡ (ops, true))
    × (apply_each ops (object early) ≡ some (put (items_path 0) (array next_bag) (object early)))
push_live_item_delta_ops_follows_example =
    push_live_item_delta_ops_follows 0 next_bag (omega arith) next_bag-IsInventory bag
      (object early) bag_there bag-IsInventory
