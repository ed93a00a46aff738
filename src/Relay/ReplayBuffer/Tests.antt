-- ===== src/Relay/ReplayBuffer/Tests.antt =====
-- Runs of the replay buffer, and its theorems at a concrete sequence of operations.
use yummi_lcu.Common.{
  ℕ, ◌≡◌, refl, true, false, List, [], ◌∷◌, none, some, String, arith, retain, str_eq, ltb, suc,
  ◌-◌, ◌++◌, ◌⊎◌, ◌≢◌, ok, err,
}
use yummi_lcu.Relay.ReplayBuffer.{
  Event, Buffer, done, failed, unfinished, rename_failed, write_live_pending, is_live,
  persist_live_pending, track, ack, in_range, live_range, replay_live_delta_range, send_failed,
  send_each, load, load_file, is_loadable,
}
use yummi_lcu.Relay.ReplayBuffer.Steps.{Op, tracks, acks, step, run, IsQueue, run-IsQueue}
use yummi_lcu.Relay.ReplayBuffer.Restart.{restart, load-persist_live_pending}
use yummi_lcu.Relay.ReplayBuffer.Range.{seqs, IsWhole, IsMissing, replay_live_delta_range-IsWhole}

abbrev delta : ℕ → String → Event
delta n id = record { event_id = id; text = "{}"; live_stream_id = some "game"; live_seq = some n }

abbrev eog : Event
eog = record { event_id = "eog"; text = "{}"; live_stream_id = none; live_seq = none }

abbrev empty : Buffer
empty = record {
  pending = [];
  disk = record { file = none; temporary = none };
  needs_live_resync = false;
  persistence_dirty = false;
}

abbrev ops : List Op
ops =
    tracks done eog
    ∷ tracks done (delta 7 "a")
    ∷ tracks failed (delta 8 "b")
    ∷ acks done "other"
    ∷ []

-- The queue after them: the failed write leaves the buffer dirty and the old file in place.
queue_of_ops : (run empty ops).pending ≡ eog ∷ delta 7 "a" ∷ delta 8 "b" ∷ []
unfolding run step track ack persist_live_pending is_live retain str_eq
queue_of_ops = refl

failed_write_is_dirty : (run empty ops).persistence_dirty ≡ true
unfolding run step track ack persist_live_pending is_live retain str_eq
failed_write_is_dirty = refl

run-IsQueue_example : IsQueue (run empty ops).pending
run-IsQueue_example = run-IsQueue ops empty (record { bounded = omega arith; distinct = tt })

abbrev held : Buffer
held = run empty ops

-- A resend of 7 to 8 goes out.
resent :
    replay_live_delta_range (λ i. true) "game" 7 8 held ≡ (delta 7 "a" ∷ delta 8 "b" ∷ [], ok 2)
unfolding run step track ack persist_live_pending is_live retain str_eq replay_live_delta_range
    live_range in_range send_each
resent = refl

-- A resend of 7 to 9 does not.
not_resent : replay_live_delta_range (λ i. true) "game" 7 9 held ≡ ([], ok 0)
unfolding run step track ack persist_live_pending is_live retain str_eq replay_live_delta_range
    live_range in_range send_each
not_resent = refl

-- The second send of a resend of 7 to 8 fails.
partly_resent :
    replay_live_delta_range (λ i. ltb i 1) "game" 7 8 held ≡ (delta 7 "a" ∷ [], err send_failed)
unfolding run step track ack persist_live_pending is_live retain str_eq replay_live_delta_range
    live_range in_range send_each
partly_resent = refl

replay_live_delta_range-IsWhole_example :
    let r = replay_live_delta_range (λ i. ltb i 1) "game" 7 8 held in
    (((r.0 ≡ []) × (r.1 ≡ ok 0)) × IsMissing "game" 7 8 held)
    ⊎ ((IsWhole "game" 7 8 r.0 × (r.1 ≡ ok (suc 8 - 7)))
        ⊎ ((rest : List Event) × (rest ≢ [])
            × IsWhole "game" 7 8 (r.0 ++ rest)
            × (r.1 ≡ err send_failed)))
unfolding run step track ack persist_live_pending is_live retain str_eq seqs
replay_live_delta_range-IsWhole_example =
    replay_live_delta_range-IsWhole (λ i. ltb i 1) "game" 7 8 held (omega arith) (omega arith)
      (refl, (refl, tt))

-- The pending file was removed and the temporary file waits for its rename.
recovered :
    load (λ s. true) none (some (some (delta 7 "a" ∷ []))) true
    ≡ record { pending = delta 7 "a" ∷ []; needs_live_resync = false; persistence_dirty = false }
unfolding load load_file is_loadable is_live retain
recovered = refl

not_recovered :
    (load (λ s. true) none (some (some (delta 7 "a" ∷ []))) false).needs_live_resync ≡ true
unfolding load
not_recovered = refl

-- The rename fails, and the restart recovers the temporary file.
load-persist_live_pending_example :
    restart (λ s. true) (persist_live_pending rename_failed held).0.disk ≡ record {
      pending = retain is_live held.pending;
      needs_live_resync = false;
      persistence_dirty = false;
    }
unfolding run step track ack persist_live_pending is_live retain str_eq is_loadable
load-persist_live_pending_example =
    load-persist_live_pending (λ s. true) rename_failed held refl (omega arith) (refl, (refl, tt))

-- Without an old file, an unfinished temporary one makes the agent ask for a full state.
unfinished_write :
    (restart (λ s. true) (persist_live_pending unfinished empty).0.disk).needs_live_resync ≡ true
unfolding persist_live_pending write_live_pending load load_file
unfinished_write = refl
