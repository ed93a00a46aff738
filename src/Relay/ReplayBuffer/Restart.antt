-- ===== src/Relay/ReplayBuffer/Restart.antt =====
-- relay/supervisor.rs, `DurableReplayBuffer`: what a restart finds after a write.
use yummi_lcu.Common.{
  ℕ, zero, suc, ◌≤◌, ◌≡◌, refl, ap, Bool, true, false, List, [], ◌∷◌, some, String, arith, length,
  take, and_then, retain, length-retain-le, All,
}
use yummi_lcu.Relay.ReplayBuffer.{
  Event, Disk, Buffer, WriteOutcome, done, failed, unfinished, rename_failed, late,
  max_durable_replay_events, is_live, write_live_pending, persist_live_pending, is_loadable, Loaded,
  load_file, load,
}

-- The agent starts with this disk, and a temporary file can be renamed.
abbrev pub restart : (String → Bool) → Disk → Loaded
restart is_uuid d = load is_uuid (and_then d.file (λ es. some (some es))) d.temporary true

-- The new events are on the disk, in the pending file or in a temporary one.
abbrev pub is_written : WriteOutcome → Bool
is_written failed = false
is_written unfinished = false
is_written _ = true

retain_each : (p : Event → Bool) (es : List Event) → All (λ e. p e ≡ true) es → retain p es ≡ es
unfolding retain
retain_each p [] h = refl
retain_each p (e ∷ es) (k, h) = rw (k, retain_each p es h) refl

take_all : (n : ℕ) (es : List Event) → length es ≤ n → take n es ≡ es
take_all zero [] h = refl
take_all zero (e ∷ es) h = absurd (omega arith)
take_all (suc n) [] h = refl
take_all (suc n) (e ∷ es) h = ap (λ xs. e ∷ xs) (take_all n es (omega arith))

load_file-valid :
    (is_uuid : String → Bool) (es : List Event)
    → length es ≤ max_durable_replay_events
    → All (λ e. is_loadable is_uuid e ≡ true) es
    → load_file is_uuid (some es)
      ≡ record { pending = es; needs_live_resync = false; persistence_dirty = false }
unfolding load_file
load_file-valid is_uuid es h k =
    rw (take_all max_durable_replay_events es h, retain_each (is_loadable is_uuid) es k)
      (ground arith)

-- If the queue is within its bound and its live events are ones that a load accepts, then a restart
-- after a write of the queue that succeeds, comes late or stops at its rename, if a temporary file can
-- be renamed at the restart, starts with exactly the live events of the queue, in their order, and asks
-- for no full state.
pub load-persist_live_pending :
    (is_uuid : String → Bool) (o : WriteOutcome) (b : Buffer)
    → is_written o ≡ true
    → length b.pending ≤ max_durable_replay_events
    → All (λ e. is_loadable is_uuid e ≡ true) (retain is_live b.pending)
    → restart is_uuid (persist_live_pending o b).0.disk ≡ record {
      pending = retain is_live b.pending;
      needs_live_resync = false;
      persistence_dirty = false;
    }
unfolding persist_live_pending write_live_pending load
load-persist_live_pending is_uuid failed b w h k = absurd (ground arith)
load-persist_live_pending is_uuid unfinished b w h k = absurd (ground arith)
load-persist_live_pending is_uuid done b w h k =
    load_file-valid is_uuid (retain is_live b.pending)
      (omega (arith, h, length-retain-le is_live b.pending)) k
load-persist_live_pending is_uuid rename_failed b w h k =
    load_file-valid is_uuid (retain is_live b.pending)
      (omega (arith, h, length-retain-le is_live b.pending)) k
load-persist_live_pending is_uuid late b w h k =
    load_file-valid is_uuid (retain is_live b.pending)
      (omega (arith, h, length-retain-le is_live b.pending)) k
