-- ===== src/Relay/ReplayBuffer/Steps.antt =====
-- relay/supervisor.rs, `DurableReplayBuffer`: what holds after any sequence of its operations.
use yummi_lcu.Common.{
  ◌≤◌, ◌≡◌, ◌⊎◌, inl, inr, false, not, List, [], ◌∷◌, ◌++◌, String, arith, length, leb,
  if◌then◌else◌, retain, length-retain-le, length-append, str_eq, is_str, Bool-cases,
}
use yummi_lcu.Relay.ReplayBuffer.{
  Event, Buffer, WriteOutcome, max_durable_replay_events, persist_live_pending, has_id, pop_front,
  track, ack, drop_live_stream,
}
use yummi_lcu.Relay.ReplayBuffer.Ids.{
  HasDistinctIds, retain-HasDistinctIds, append-HasDistinctIds, pop_front-HasDistinctIds,
  not_has_id-pop_front, length-pop_front,
}

-- One operation, with the answer of the file system if it writes.
pub data Op : Type 0 where
  tracks : WriteOutcome → Event → Op
  acks : WriteOutcome → String → Op
  drops : WriteOutcome → String → Op

unfoldable pub step : Buffer → Op → Buffer
step b (tracks o e) = (track o e b).0
step b (acks o id) = (ack o id b).0
step b (drops o stream) = (drop_live_stream o stream b).0

unfoldable pub run : Buffer → List Op → Buffer
run b [] = b
run b (op ∷ ops) = run (step b op) ops

-- The queue after an operation, whatever the disk does.
unfoldable pub queue_after : List Event → Op → List Event
queue_after es (tracks o e) =
    if has_id e.event_id es
    then es
    else (if leb max_durable_replay_events (length es) then pop_front es else es) ++ e ∷ []
queue_after es (acks o id) = retain (λ e. not (str_eq e.event_id id)) es
queue_after es (drops o stream) = retain (λ e. not (is_str e.live_stream_id stream)) es

pending-step : (b : Buffer) (op : Op) → (step b op).pending ≡ queue_after b.pending op
unfolding step queue_after track ack drop_live_stream persist_live_pending
pending-step b (tracks o e) = ground arith
pending-step b (acks o id) = ground arith
pending-step b (drops o stream) = ground arith

-- What the queue keeps to: at most 4096 events, no identifier twice.
pub record IsQueue (es : List Event) : Type 0 where
  pub bounded : length es ≤ max_durable_replay_events
  pub distinct : HasDistinctIds es

queue_after-IsQueue : (es : List Event) (op : Op) → IsQueue es → IsQueue (queue_after es op)
unfolding queue_after
queue_after-IsQueue es (tracks o e) q = elim (Bool-cases (has_id e.event_id es)) [
  | inl old ↦ rw old q
  | inr new ↦ elim (Bool-cases (leb max_durable_replay_events (length es))) [
    | inl full ↦
        rw (new, full)
          (record {
            bounded = ground (arith, length-append (pop_front es) (e ∷ []), length-pop_front es);
            distinct =
                append-HasDistinctIds (pop_front es) e (not_has_id-pop_front e.event_id es new)
                  (pop_front-HasDistinctIds es q.distinct);
          })
    | inr room ↦
        rw (new, room)
          (record {
            bounded = ground (arith, length-append es (e ∷ []));
            distinct = append-HasDistinctIds es e new q.distinct;
          })
  ]
]
queue_after-IsQueue es (acks o id) q = record {
  bounded = omega (arith, length-retain-le (λ e. not (str_eq e.event_id id)) es, q.bounded);
  distinct = retain-HasDistinctIds _ es q.distinct;
}
queue_after-IsQueue es (drops o stream) q = record {
  bounded =
      omega (arith, length-retain-le (λ e. not (is_str e.live_stream_id stream)) es, q.bounded);
  distinct = retain-HasDistinctIds _ es q.distinct;
}

-- Whatever is tracked, acknowledged or dropped, and however the writes end, the buffer holds at most
-- 4096 events and no identifier twice.
pub run-IsQueue : (ops : List Op) (b : Buffer) → IsQueue b.pending → IsQueue (run b ops).pending
unfolding run
run-IsQueue [] b q = q
run-IsQueue (op ∷ ops) b q =
    run-IsQueue ops (step b op) (rw (pending-step b op) (queue_after-IsQueue b.pending op q))

-- The event is in the queue.
abbrev pub IsPending : Event → List Event → Type 0
IsPending e [] = ⊥
IsPending e (x ∷ es) = (x ≡ e) ⊎ IsPending e es

-- The operation neither acknowledges the event nor drops its stream.
abbrev pub Spares : Event → Op → Type 0
Spares e (tracks o x) = Unit {0}
Spares e (acks o id) = str_eq e.event_id id ≡ false
Spares e (drops o stream) = is_str e.live_stream_id stream ≡ false
