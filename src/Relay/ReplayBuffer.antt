-- ===== src/Relay/ReplayBuffer.antt =====
-- relay/supervisor.rs, `DurableReplayBuffer`: events that the relay has not acknowledged yet, with a
-- copy of the live ones on disk. The front of the queue is the head of the list.
-- What the file system answers to one write is a parameter of the operation that makes it.
pub mod Ids
pub mod Steps
pub mod Synced
pub mod Range
pub mod Restart
mod Tests
use Prim.Native.String.{len}
use yummi_lcu.Common.{
  ℕ, ◌-◌, Bool, true, false, not, ◌&&◌, ◌||◌, List, [], ◌∷◌, ◌++◌, Option, none, some, String,
  length, take, any, leb, ltb, ◌==◌, if◌then◌else◌, retain, str_eq, is_str, is_some, is_none,
  is_some_and, is_none_or, min, ◌+◌, saturating_add, suc, Result, ok, err,
}

pub record Event : Type 0 where
  pub event_id : String
  pub text : String
  pub live_stream_id : Option String
  pub live_seq : Option ℕ

-- The pending file, and the newest temporary file that waits for its rename: `some none` is one that
-- was not written to its end.
pub record Disk : Type 0 where
  pub file : Option (List Event)
  pub temporary : Option (Option (List Event))

pub record Buffer : Type 0 where
  pub pending : List Event
  pub disk : Disk
  pub needs_live_resync : Bool
  pub persistence_dirty : Bool

-- How one write ends: it succeeds; it is refused or fails before it has made the temporary file, or with
-- the old file still there, so that the temporary one is removed again; it fails within the temporary
-- file, which is removed only where there is an old file; the rename fails once the old file is gone; or
-- it succeeds after the caller has given up waiting.
pub data WriteOutcome : Type 0 where
  done failed unfinished rename_failed late : WriteOutcome

abbrev pub max_durable_replay_events : ℕ
max_durable_replay_events = 4096

abbrev pub max_relay_message_bytes : ℕ
max_relay_message_bytes = 262144

unfoldable pub is_live : Event → Bool
is_live e = is_some e.live_stream_id && is_some e.live_seq

-- `write_live_pending`: what the disk holds afterwards.
unfoldable pub write_live_pending : WriteOutcome → List Event → Disk → Disk
write_live_pending done pending d = record d { file = some (retain is_live pending) }
write_live_pending failed pending d = d
write_live_pending unfinished pending d = record d {
  temporary = if is_some d.file then d.temporary else some none;
}
write_live_pending rename_failed pending d = record {
  file = none;
  temporary = some (some (retain is_live pending));
}
write_live_pending late pending d = record d { file = some (retain is_live pending) }

abbrev pub write_ok : WriteOutcome → Bool
write_ok done = true
write_ok _ = false

-- The buffer, and whether the write was confirmed.
unfoldable pub persist_live_pending : WriteOutcome → Buffer → Buffer × Bool
persist_live_pending o b = (
  record b { disk = write_live_pending o b.pending b.disk; persistence_dirty = not (write_ok o) },
  write_ok o,
)

-- What an operation reports: `none` where the write failed.
abbrev pub report {ℓ} : {A : Type ℓ} → A → Buffer × Bool → Buffer × Option A
report a (b, true) = (b, some a)
report a (b, false) = (b, none)

abbrev pub has_id : String → List Event → Bool
has_id id = any (λ e. str_eq e.event_id id)

unfoldable pub pop_front : List Event → List Event
pop_front [] = []
pop_front (e ∷ es) = es

unfoldable pub track : WriteOutcome → Event → Buffer → Buffer × Option Bool
track o e b =
    let dropped = leb max_durable_replay_events (length b.pending) in
    let kept = if dropped then pop_front b.pending else b.pending in
    let pushed : Buffer = record b { pending = kept ++ e ∷ [] } in
    if has_id e.event_id b.pending
    then (b, some false)
    else if is_live e || dropped
    then report dropped (persist_live_pending o pushed)
    else (pushed, some dropped)

unfoldable pub ack : WriteOutcome → String → Buffer → Buffer × Option Bool
ack o id b =
    let live_changed = any (λ e. str_eq e.event_id id && is_live e) b.pending in
    let rest : Buffer = record b { pending = retain (λ e. not (str_eq e.event_id id)) b.pending } in
    let changed = not (length rest.pending == length b.pending) in
    if changed && live_changed
    then report changed (persist_live_pending o rest)
    else (rest, some changed)

unfoldable pub in_range : String → ℕ → ℕ → Event → Bool
in_range stream from_seq to_seq e =
    is_str e.live_stream_id stream
    && is_some_and e.live_seq (λ seq. leb from_seq seq && leb seq to_seq)

unfoldable pub live_range : String → ℕ → ℕ → Buffer → List Event
live_range stream from_seq to_seq b = retain (in_range stream from_seq to_seq) b.pending

unfoldable pub drop_live_stream : WriteOutcome → String → Buffer → Buffer × Option ℕ
drop_live_stream o stream b =
    let rest : Buffer = record b {
      pending = retain (λ e. not (is_str e.live_stream_id stream)) b.pending;
    } in
    let removed = length b.pending - length rest.pending in
    if ltb 0 removed then report removed (persist_live_pending o rest) else (rest, some removed)

-- What `load_from_path` sets of the buffer.
pub record Loaded : Type 0 where
  pub pending : List Event
  pub needs_live_resync : Bool
  pub persistence_dirty : Bool

-- `is_uuid` stands for `Uuid::parse_str`.
module _ (is_uuid : String → Bool) where
  unfoldable pub is_loadable : Event → Bool
  is_loadable e =
      is_live e
      && (is_uuid e.event_id
          && (is_some_and e.live_stream_id is_uuid && leb (len e.text) max_relay_message_bytes))

  -- The pending file exists; `none` is one that is refused, cannot be read or does not parse. Such a
  -- file, and one with an invalid event, is renamed if it can be, which the buffer does not depend on.
  unfoldable pub load_file : Option (List Event) → Loaded
  load_file none = record { pending = []; needs_live_resync = true; persistence_dirty = false }
  load_file (some events) =
      let first = take max_durable_replay_events events in
      let good = retain is_loadable first in
      if length good == length first
      then record { pending = good; needs_live_resync = false; persistence_dirty = false }
      else record { pending = []; needs_live_resync = true; persistence_dirty = false }

  -- `load_from_path`: the pending file, `none` where there is none; the newest temporary file that is
  -- no larger than is allowed; and whether this can be renamed to the pending file.
  unfoldable pub load : (file temporary : Option (Option (List Event))) → (renames : Bool) → Loaded
  load (some contents) temporary renames = load_file contents
  load none none renames = record {
    pending = [];
    needs_live_resync = false;
    persistence_dirty = false;
  }
  load none (some contents) true = load_file contents
  load none (some contents) false = record {
    pending = [];
    needs_live_resync = true;
    persistence_dirty = false;
  }

pub data SendError : Type 0 where
  send_failed : SendError

-- The loop over the sends, which the first failed one ends: what went out before, and whether all did.
-- `succeeds i` says whether the send at place `i` succeeds.
unfoldable pub send_each : (ℕ → Bool) → List Event → List Event × Bool
send_each succeeds [] = ([], true)
send_each succeeds (e ∷ es) =
    let (sent, all_sent) = send_each (λ i. succeeds (suc i)) es in
    if succeeds 0 then (e ∷ sent, all_sent) else ([], false)

-- What went out, and the number that is returned or the error.
unfoldable pub replay_live_delta_range :
    (ℕ → Bool) → String → ℕ → ℕ → Buffer → List Event × Result SendError ℕ
replay_live_delta_range succeeds stream from_seq to_seq b =
    let events = live_range stream from_seq to_seq b in
    let expected = saturating_add (to_seq - from_seq) 1 in
    let (sent, all_sent) = send_each succeeds events in
    if not (length events == expected)
    then ([], ok 0)
    else (sent, if all_sent then ok (length events) else err send_failed)

-- `replay_durable_events` sends a snapshot of everything that is pending, oldest first.
unfoldable pub snapshot : Buffer → List Event
snapshot b = b.pending

-- `is_durable_event`
unfoldable pub is_durable_event : String → Event → Bool
is_durable_event message_type e =
    str_eq message_type "match_eog"
    || (str_eq message_type "guild_match_eog"
        || (str_eq message_type "match_rofl"
            || (str_eq message_type "live_game_update" && is_live e)))
