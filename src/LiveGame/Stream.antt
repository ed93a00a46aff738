-- ===== src/LiveGame/Stream.antt =====
-- lcu/events.rs: the frames of the live game stream, and the fields of `LcuEventPoller` that say what
-- was sent last.
use yummi_lcu.Common.{
  ℕ, ◌-◌, Bool, if◌then◌else◌, Bytes, codes, text_eq, Option, none, some, and_then, unwrap_or,
  is_some_and, saturating_add, List, [], ◌∷◌,
}
use yummi_lcu.Json.{
  Value, null, pos_int, text, array, object, Items, nil, cons, Fields, end, field, get, as_object,
}
use yummi_lcu.LiveGame.Paths.{key, lookup}
use yummi_lcu.LiveGame.Delta.{json_delta_ops}

abbrev pub items_of : List Value → Items
items_of [] = nil
items_of (x ∷ xs) = cons x (items_of xs)

-- `payload.pointer("/game/id")`, then `/game/game_id`.
unfoldable pub frame_game_id : Value → Value
unfolding lookup
frame_game_id payload = elim (lookup (key (codes "game") ∷ (key (codes "id") ∷ [])) payload) [
  | some id ↦ id
  | none ↦ unwrap_or (lookup (key (codes "game") ∷ (key (codes "game_id") ∷ [])) payload) null
]

unfoldable pub frame_captured_at_ms : Value → Value
frame_captured_at_ms payload =
    unwrap_or (and_then (as_object payload) (get (codes "captured_at_ms"))) null

-- `live_game_delta_frame`, its fields.
unfoldable pub live_delta_fields : Option Value → Value → Bytes → ℕ → Fields
unfolding frame_game_id frame_captured_at_ms json_delta_ops
live_delta_fields none payload stream_id seq = field (codes "base_seq") (pos_int 0) (
    field (codes "captured_at_ms") (frame_captured_at_ms payload) (
      field (codes "format") (text (codes "live-delta-v1")) (
        field (codes "game_id") (frame_game_id payload) (
          field (codes "kind") (text (codes "full")) (
            field (codes "seq") (pos_int seq)
              (field (codes "state") payload (field (codes "stream_id") (text stream_id) end)))))))
live_delta_fields (some previous) payload stream_id seq =
    field (codes "base_seq") (pos_int (seq - 1)) (
      field (codes "captured_at_ms") (frame_captured_at_ms payload) (
        field (codes "format") (text (codes "live-delta-v1")) (
          field (codes "game_id") (frame_game_id payload) (
            field (codes "kind") (text (codes "delta")) (
              field (codes "ops") (array (items_of (json_delta_ops previous payload []))) (
                field (codes "seq") (pos_int seq)
                  (field (codes "stream_id") (text stream_id) end)))))))

unfoldable pub live_game_delta_frame : Option Value → Value → Bytes → ℕ → Value
unfolding live_delta_fields
live_game_delta_frame previous payload stream_id seq =
    object (live_delta_fields previous payload stream_id seq)

-- `live_game`, `live_game_state`, `live_stream_id`, `live_seq`.
pub record LiveStream : Type 0 where
  pub live_game : Option Bytes
  pub live_game_state : Option Value
  pub live_stream_id : Option Bytes
  pub live_seq : ℕ

abbrev pub no_stream : LiveStream
no_stream = record { live_game = none; live_game_state = none; live_stream_id = none; live_seq = 0 }

-- The stream that a frame continues; a new one takes the identifier `fresh`.
unfoldable pub open_stream : Bytes → LiveStream → Bytes × ℕ
open_stream fresh s = elim (s.live_stream_id) [ none ↦ (fresh, 0) | some id ↦ (id, s.live_seq) ]

-- `push_live_game_changed`: the new fields, and the data of the event if one is pushed. `fresh` is what
-- `Uuid::new_v4` would give.
unfoldable pub push_live_game_changed :
    Bool → Bytes → Bytes → Value → LiveStream → LiveStream × Option Value
unfolding open_stream live_game_delta_frame
push_live_game_changed delta_enabled fresh fingerprint payload s =
    if is_some_and (s.live_game) (λ f. text_eq f fingerprint)
    then (s, none)
    else if delta_enabled
    then (let (id, seq) = open_stream fresh s in
        let next = saturating_add seq 1 in
        (
          record {
            live_game = some fingerprint;
            live_game_state = some payload;
            live_stream_id = some id;
            live_seq = next;
          },
          some (live_game_delta_frame (s.live_game_state) payload id next),
        ))
    else (
      record {
        live_game = some fingerprint;
        live_game_state = some payload;
        live_stream_id = none;
        live_seq = 0;
      },
      some payload,
    )
