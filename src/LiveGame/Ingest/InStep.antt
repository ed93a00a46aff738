-- ===== src/LiveGame/Ingest/InStep.antt =====
-- One live update from the agent to the relay, with the network and the API working: the relay's copy
-- is the state that the agent holds.
use yummi_lcu.Common.{
  ℕ, ◌+◌, ◌-◌, ◌≤◌, ◌<◌, true, false, Bytes, text_eq, text_eq_refl, Option, none, some, is_some_and,
  u64_max, saturating_add, length, [], ◌≡◌, ◌⊎◌, inl, inr, refl, sym, ap, ◌∙◌, arith,
}
use yummi_lcu.Json.{Value, object, Fields}
use yummi_lcu.LiveGame.Delta.{json_delta_ops}
use yummi_lcu.LiveGame.Stream.{
  items_of, live_delta_fields, live_game_delta_frame, LiveStream, open_stream,
  push_live_game_changed,
}
use yummi_lcu.LiveGame.Receiver.{apply_live_delta_ops}
use yummi_lcu.LiveGame.Delta.Follows.{IsLiveState, apply_live_delta_ops-json_delta_ops}
use yummi_lcu.LiveGame.Ingest.{
  full_frame, delta_frame, max_live_delta_ops, list_of, raw_stream, Prepared, ready, Relay, acked,
  prepare_frame, settle, on_live_game_update,
}
use yummi_lcu.LiveGame.Ingest.Frames.{IsStreamId, list_of-items_of, validated_full, validated_delta}
use yummi_lcu.LiveGame.Ingest.Handled.{on_valid}

module _ (uuid : Bytes → Option Bytes) where
  -- No stream is open, and the relay has no copy under the next identifier.
  pub record IsFresh (fresh : Bytes) (s : LiveStream) (r : Relay) : Type 0 where
    pub no_state : s.live_game_state ≡ none
    pub no_stream : s.live_stream_id ≡ none
    pub no_copy : r.stored fresh ≡ none
    pub known : IsStreamId uuid fresh

  -- The relay's copy is the agent's last state, under the agent's sequence number.
  pub record InStep (s : LiveStream) (r : Relay) (fs : Fields) : Type 0 where
    pub id : Bytes
    pub state : s.live_game_state ≡ some (object fs)
    pub stream : s.live_stream_id ≡ some id
    pub copy : r.stored id ≡ some (s.live_seq, fs)
    pub known : IsStreamId uuid id
    pub live : IsLiveState fs
    pub started : 0 < s.live_seq

  -- The relay takes a frame, and the reply and the copy are as they should be.
  record Taken (id : Bytes) (seq : ℕ) (fs payload : Fields) (r : Relay) : Type 0 where
    replied : (on_live_game_update uuid true payload r).1 ≡ acked
    copied : (on_live_game_update uuid true payload r).0.stored id ≡ some (seq, fs)

  settle-Taken :
      (id raw : Bytes) (seq : ℕ) (fs payload : Fields) (r : Relay)
      → on_live_game_update uuid true payload r ≡ settle raw id true (ready seq fs) r
      → Taken id seq fs payload r
  settle-Taken id raw seq fs payload r e = record {
    replied = rw e (unfold settle in refl);
    copied = rw e (unfold settle in rw (text_eq_refl id));
  }

  full-Taken :
      (id : Bytes) (fs : Fields) (r : Relay)
      → IsStreamId uuid id
      → r.stored id ≡ none
      → Taken id 1 fs (live_delta_fields none (object fs) id 1) r
  full-Taken id fs r known empty =
      settle-Taken id _ 1 fs (live_delta_fields none (object fs) id 1) r (
        on_valid uuid true (live_delta_fields none (object fs) id 1) r (full_frame id 1 fs)
          (validated_full uuid id known fs 1 (omega arith))
        ∙ ap
            (λ (p : Prepared).
              settle (raw_stream (live_delta_fields none (object fs) id 1)) id true p r)
            (rw empty (unfold prepare_frame in refl)))

  delta_ready :
      (id : Bytes) (seq : ℕ) (ps fs : Fields)
      → IsLiveState ps
      → IsLiveState fs
      → prepare_frame (some (seq, ps)) (
          delta_frame id
            (seq + 1)
            (seq + 1 - 1)
            (items_of (json_delta_ops (object ps) (object fs) [])))
        ≡ ready (seq + 1) fs
  unfolding prepare_frame
  delta_ready id seq ps fs p n =
      let ops = json_delta_ops (object ps) (object fs) [] in
      let applied : apply_live_delta_ops ps (list_of (items_of ops)) ≡ some fs =
        ap (apply_live_delta_ops ps) (list_of-items_of ops)
        ∙ apply_live_delta_ops-json_delta_ops ps fs p n in
      ground arith

  delta-Taken :
      (id : Bytes) (seq : ℕ) (ps fs : Fields) (r : Relay)
      → IsStreamId uuid id
      → 0 < seq
      → r.stored id ≡ some (seq, ps)
      → IsLiveState ps
      → IsLiveState fs
      → length (json_delta_ops (object ps) (object fs) []) ≤ max_live_delta_ops
      → Taken id (seq + 1) fs (live_delta_fields (some (object ps)) (object fs) id (seq + 1)) r
  delta-Taken id seq ps fs r known pos kept p n few =
      let payload = live_delta_fields (some (object ps)) (object fs) id (seq + 1) in
      let f =
        delta_frame id (seq + 1) (seq + 1 - 1)
          (items_of (json_delta_ops (object ps) (object fs) [])) in
      settle-Taken id _ (seq + 1) fs payload r (
        on_valid uuid true payload r f
          (validated_delta uuid id known ps fs (seq + 1) (omega arith) few)
        ∙ ap (λ (q : Prepared). settle (raw_stream payload) id true q r)
            (ap (λ (o : Option (ℕ × Fields)). prepare_frame o f) kept
              ∙ delta_ready id seq ps fs p n))

  module _ (fresh fingerprint : Bytes) (next : Fields) (s : LiveStream) (r : Relay)
      (changed : is_some_and (s.live_game) (λ f. text_eq f fingerprint) ≡ false) where
    push_first :
        IsFresh fresh s r
        → push_live_game_changed true fresh fingerprint (object next) s ≡ (
          record {
            live_game = some fingerprint;
            live_game_state = some (object next);
            live_stream_id = some fresh;
            live_seq = 1;
          },
          some (object (live_delta_fields none (object next) fresh 1)),
        )
    unfolding push_live_game_changed open_stream live_game_delta_frame
    push_first h = rw changed (rw (h.no_stream, h.no_state) (ground arith))

    push_later :
        (ps : Fields) (i : InStep s r ps)
        → s.live_seq < u64_max
        → push_live_game_changed true fresh fingerprint (object next) s ≡ (
          record {
            live_game = some fingerprint;
            live_game_state = some (object next);
            live_stream_id = some i.id;
            live_seq = s.live_seq + 1;
          },
          some (object (live_delta_fields (some (object ps)) (object next) i.id (s.live_seq + 1))),
        )
    unfolding push_live_game_changed open_stream live_game_delta_frame
    push_later ps i low =
        let more : saturating_add (s.live_seq) 1 ≡ s.live_seq + 1 = ground arith in
        rw changed (rw (i.stream, i.state, more))

    -- An update whose fingerprint is new, on a stream that was just opened or whose copy on the relay is
    -- the agent's last state, with a live state as its payload, at most 4096 operations from the last
    -- state, and a sequence number that can still grow: `push_live_game_changed` pushes one frame, the
    -- relay's handler, with the API answering yes, acknowledges it, and the relay's copy is then the
    -- payload, which is also the agent's last state, under the agent's sequence number.
    pub on_live_game_update-push_live_game_changed :
        IsFresh fresh s r ⊎ ((ps : Fields) × InStep s r ps)
        → IsLiveState next
        → ((ps : Fields)
            → s.live_game_state ≡ some (object ps)
            → length (json_delta_ops (object ps) (object next) []) ≤ max_live_delta_ops)
        → s.live_seq < u64_max
        → (payload : Fields) × ((push_live_game_changed true fresh fingerprint (object next) s).1
            ≡ some (object payload))
          × ((on_live_game_update uuid true payload r).1 ≡ acked)
          × InStep
              (push_live_game_changed true fresh fingerprint (object next) s).0
              (on_live_game_update uuid true payload r).0
              next
    on_live_game_update-push_live_game_changed (inl h) n few low =
        let payload = live_delta_fields none (object next) fresh 1 in
        let taken = full-Taken fresh next r h.known h.no_copy in
        let pushed = push_first h in
        (
          payload,
          ap (λ (q : LiveStream × Option Value). q.1) pushed,
          taken.replied,
          record {
            id = fresh;
            state = ap (λ (q : LiveStream × Option Value). q.0.live_game_state) pushed;
            stream = ap (λ (q : LiveStream × Option Value). q.0.live_stream_id) pushed;
            copy =
                taken.copied
                ∙ ap (λ (q : LiveStream × Option Value). some (q.0.live_seq, next)) (sym pushed);
            known = h.known;
            live = n;
            started = rw pushed (omega arith);
          },
        )
    on_live_game_update-push_live_game_changed (inr (ps, i)) n few low =
        let payload = live_delta_fields (some (object ps)) (object next) i.id (s.live_seq + 1) in
        let taken =
          delta-Taken i.id (s.live_seq) ps next r i.known i.started i.copy i.live n
            (few ps i.state) in
        let pushed = push_later ps i low in
        (
          payload,
          ap (λ (q : LiveStream × Option Value). q.1) pushed,
          taken.replied,
          record {
            id = i.id;
            state = ap (λ (q : LiveStream × Option Value). q.0.live_game_state) pushed;
            stream = ap (λ (q : LiveStream × Option Value). q.0.live_stream_id) pushed;
            copy =
                taken.copied
                ∙ ap (λ (q : LiveStream × Option Value). some (q.0.live_seq, next)) (sym pushed);
            known = i.known;
            live = n;
            started = rw pushed (omega arith);
          },
        )
