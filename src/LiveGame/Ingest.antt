-- ===== src/LiveGame/Ingest.antt =====
-- relay/app.py, the `live_game_update` message: the check of a frame, what the relay makes of it, and
-- the state that it keeps for each stream. `uuid` stands for Python's `uuid.UUID` on a text, and gives
-- its standard form. The store answers what Redis holds under a stream's key.
pub mod Frames
pub mod Handled
pub mod Mirror
pub mod InStep
use yummi_lcu.Common.{
  ℕ, ◌+◌, Bool, true, false, not, ◌&&◌, ltb, leb, ◌==◌, if◌then◌else◌, Bytes, codes, text_eq,
  Option, none, some, and_then, is_some_and, unwrap_or, List, [], ◌∷◌,
}
use yummi_lcu.Json.{
  Value, text, array, object, Items, nil, cons, Fields, get, as_object, as_u64, as_str,
}
use yummi_lcu.Relay.Protocol.{chars_count}
use yummi_lcu.LiveGame.Arrays.{items_length}
use yummi_lcu.LiveGame.Receiver.{apply_live_delta_ops}

abbrev pub max_live_delta_ops : ℕ
max_live_delta_ops = 4096

pub data Frame : Type 0 where
  full_frame : (stream_id : Bytes) → (seq : ℕ) → (state : Fields) → Frame
  delta_frame : (stream_id : Bytes) → (seq base_seq : ℕ) → (ops : Items) → Frame

pub data Checked : Type 0 where
  legacy : Checked
  invalid : Checked
  valid : Frame → Checked

abbrev pub as_array : Value → Option Items
as_array (array xs) = some xs
as_array _ = none

abbrev pub list_of : Items → List Value
list_of nil = []
list_of (cons x xs) = x ∷ list_of xs

abbrev pub text_field : Bytes → Fields → Option Bytes
text_field k fs = and_then (get k fs) as_str

abbrev pub int_field : Bytes → Fields → Option ℕ
int_field k fs = and_then (get k fs) as_u64

-- The part of `_validated_live_delta_frame` that depends on the kind.
unfoldable pub kind_frame : Bytes → Bytes → ℕ → ℕ → Fields → Option Frame
kind_frame kind stream_id seq base_seq fs =
    if text_eq kind (codes "full")
    then (and_then (and_then (get (codes "state") fs) as_object)
        λ state. if base_seq == 0 then some (full_frame stream_id seq state) else none)
    else if text_eq kind (codes "delta")
    then (and_then (and_then (get (codes "ops") fs) as_array) λ ops.
        if ltb 0 base_seq && ((seq == base_seq + 1) && leb (items_length ops) max_live_delta_ops)
        then some (delta_frame stream_id seq base_seq ops)
        else none)
    else none

-- The frame's own text for its stream.
abbrev pub raw_stream : Fields → Bytes
raw_stream fs = unwrap_or (text_field (codes "stream_id") fs) []

pub data Reply : Type 0 where
  acked : Reply
  resend : (stream_id : Bytes) → (from_seq to_seq : ℕ) → Reply
  resync : (stream_id : Bytes) → Reply
  silent : Reply

pub data Prepared : Type 0 where
  duplicate : Prepared
  gap : (from_seq to_seq : ℕ) → Prepared
  no_base : Prepared
  ready : (seq : ℕ) → (state : Fields) → Prepared
  failed : Prepared

-- What the relay keeps: the last state of each stream, and the streams whose state the API refused.
pub record Relay : Type 0 where
  pub stored : Bytes → Option (ℕ × Fields)
  pub blocked : Bytes → Bool

abbrev pub frame_stream : Frame → Bytes
frame_stream (full_frame id seq state) = id
frame_stream (delta_frame id seq base ops) = id

-- `_prepare_live_game_frame` on a frame that was checked.
unfoldable pub prepare_frame : Option (ℕ × Fields) → Frame → Prepared
prepare_frame none (full_frame id seq state) = ready seq state
prepare_frame (some (current, kept)) (full_frame id seq state) =
    if leb seq current then duplicate else ready seq state
prepare_frame none (delta_frame id seq base ops) = if leb seq 1024 then gap 1 seq else no_base
prepare_frame (some (current, kept)) (delta_frame id seq base ops) =
    if leb seq current
    then duplicate
    else if not ((base == current) && (seq == current + 1))
    then gap (current + 1) seq
    else elim (apply_live_delta_ops kept (list_of ops)) [
      | none ↦ failed
      | some state ↦ ready seq state
    ]

-- The replies, and the writes to the store. `raw` is the frame's own text for the stream, `handled` is the answer of the API.
unfoldable pub settle : Bytes → Bytes → Bool → Prepared → Relay → Relay × Reply
settle raw id handled duplicate r = (r, acked)
settle raw id handled (gap first last) r =
    (r, if r.blocked id then silent else resend id first last)
settle raw id handled no_base r = (r, resync id)
settle raw id handled failed r = (r, resync raw)
settle raw id true (ready seq state) r = (
  record {
    stored = λ j. if text_eq id j then some (seq, state) else r.stored j;
    blocked = λ j. if text_eq id j then false else r.blocked j;
  },
  acked,
)
settle raw id false (ready seq state) r =
    (record r { blocked = λ j. if text_eq id j then true else r.blocked j }, silent)

module _ (uuid : Bytes → Option Bytes) where
  unfoldable pub checked_frame : Fields → Option Frame
  unfolding kind_frame
  checked_frame fs = and_then (text_field (codes "stream_id") fs) λ raw.
      and_then (int_field (codes "seq") fs) λ seq.
        and_then (int_field (codes "base_seq") fs) λ base_seq.
          and_then (text_field (codes "kind") fs) λ kind.
            and_then (if leb (chars_count raw) 64 && ltb 0 seq then uuid raw else none)
              λ stream_id. kind_frame kind stream_id seq base_seq fs

  -- `_validated_live_delta_frame`
  unfoldable pub validated_frame : Fields → Checked
  unfolding checked_frame
  validated_frame fs =
      if is_some_and (text_field (codes "format") fs) (λ f. text_eq f (codes "live-delta-v1"))
      then elim (checked_frame fs) [ none ↦ invalid | some f ↦ valid f ]
      else legacy

  -- The whole handler.
  unfoldable pub on_live_game_update : Bool → Fields → Relay → Relay × Reply
  unfolding validated_frame prepare_frame settle
  on_live_game_update handled payload r = elim (validated_frame payload) [
    | legacy ↦ (r, if handled then acked else silent)
    | invalid ↦
        (r, elim (text_field (codes "stream_id") payload) [ none ↦ silent | some id ↦ resync id ])
    | valid f ↦
        settle (raw_stream payload) (frame_stream f) handled
          (prepare_frame (r.stored (frame_stream f)) f) r
  ]
