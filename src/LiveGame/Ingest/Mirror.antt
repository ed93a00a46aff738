-- ===== src/LiveGame/Ingest/Mirror.antt =====
-- The relay's copy of a stream, whatever the network does: frames that come late, twice, out of order
-- or not at all, that the API refuses, and copies that expire.
use yummi_lcu.Common.{
  ℕ, zero, suc, ◌+◌, ◌-◌, ◌<◌, Bool, false, ltb, if◌then◌else◌, Bytes, text_eq, Option, none, some,
  and_then, length, get_elem?, List, [], ◌≡◌, inl, inr, sym, ap, ◌∙◌, subst, arith, Bool-cases,
}
use yummi_lcu.Json.{Value, object, Fields}
use yummi_lcu.LiveGame.Delta.{json_delta_ops}
use yummi_lcu.LiveGame.Stream.{items_of, live_delta_fields}
use yummi_lcu.LiveGame.Receiver.{apply_live_delta_ops}
use yummi_lcu.LiveGame.Delta.Follows.{IsLiveState, apply_live_delta_ops-json_delta_ops}
use yummi_lcu.LiveGame.Ingest.{
  Frame, full_frame, delta_frame, frame_stream, valid, max_live_delta_ops, validated_frame,
  Prepared, ready, Relay, settle, on_live_game_update,
}
use yummi_lcu.LiveGame.Ingest.Frames.{
  IsStreamId, list_of-items_of, validated_full, validated_delta, validated_long, prepare_ready,
  settle_stored, settle_other,
}
use yummi_lcu.LiveGame.Ingest.Handled.{
  some-inj, get_elem?_before, on_valid, on_invalid, on_legacy, Checked-cases, prepare_full,
}

-- The state before the one at a position.
abbrev pub prior : List Fields → ℕ → Option Value
prior states zero = none
prior states (suc n) = and_then (get_elem? states n) (λ fs. some (object fs))

-- The frame that carries the state at position `n`, the first at 0 with sequence number 1.
abbrev pub sent_fields : Bytes → List Fields → ℕ → Fields → Fields
sent_fields id states n fs = live_delta_fields (prior states n) (object fs) id (n + 1)

module _ (uuid : Bytes → Option Bytes) (id : Bytes) (states : List Fields) where
  -- What can happen to the relay while the agent has sent the frames of these states.
  pub data Step : Relay → Relay → Type 0 where
    deliver :
        (n : ℕ) (fs : Fields) (handled : Bool) (r : Relay)
        → get_elem? states n ≡ some fs
        → Step r (on_live_game_update uuid handled (sent_fields id states n fs) r).0
    -- A message that is no frame of this stream.
    other :
        (payload : Fields) (handled : Bool) (r : Relay)
        → ((f : Frame)
            → validated_frame uuid payload ≡ valid f
            → text_eq (frame_stream f) id ≡ false)
        → Step r (on_live_game_update uuid handled payload r).0
    expire :
        (j : Bytes) (r : Relay)
        → Step r (record r { stored = λ k. if text_eq j k then none else r.stored k })

  pub data Reach (r : Relay) : Relay → Type 0 where
    here : Reach r r
    next : {s t : Relay} → Reach r s → Step s t → Reach r t

  -- The copy, where there is one, is the state that its sequence number names.
  pub record IsMirror (r : Relay) : Type 0 where
    pub copy :
        (seq : ℕ) (fs : Fields)
        → r.stored id ≡ some (seq, fs)
        → (0 < seq) × (get_elem? states (seq - 1) ≡ some fs)

  -- Every state could be sent.
  pub record AreLive : Type 0 where
    pub each : (n : ℕ) (fs : Fields) → get_elem? states n ≡ some fs → IsLiveState fs

  settled-IsMirror :
      (raw : Bytes) (handled : Bool) (p : Prepared) (r : Relay)
      → IsMirror r
      → ((seq : ℕ) (fs : Fields)
          → p ≡ ready seq fs
          → (0 < seq) × (get_elem? states (seq - 1) ≡ some fs))
      → IsMirror (settle raw id handled p r).0
  settled-IsMirror raw handled p r m good = record {
    copy = λ seq fs h. elim (settle_stored raw id handled p r) [
      | inl same ↦ m.copy seq fs (sym same ∙ h)
      | inr (seq', (fs', (e, now))) ↦
          let both = good seq' fs' e in
          let seqs : seq' ≡ seq = ground arith in
          let values : fs' ≡ fs = ground arith in
          (
            ground arith,
            subst (λ (k : ℕ). get_elem? states (k - 1) ≡ some fs) seqs (both.1 ∙ ap some values),
          )
    ];
  }

module _ (uuid : Bytes → Option Bytes) (id : Bytes) (known : IsStreamId uuid id)
    (states : List Fields) (live : AreLive uuid id states) where
  deliver_first :
      (fs : Fields) (handled : Bool) (r : Relay)
      → get_elem? states 0 ≡ some fs
      → IsMirror uuid id states r
      → IsMirror uuid id states (on_live_game_update uuid handled (sent_fields id states 0 fs) r).0
  deliver_first fs handled r h m =
      rw
        (on_valid uuid handled (sent_fields id states 0 fs) r (full_frame id 1 fs)
          (validated_full uuid id known fs 1 (omega arith)))
        (settled-IsMirror uuid id states _ handled _ r m λ seq fs' e.
          let (one, same) = prepare_full (r.stored id) id 1 seq fs fs' e in
          (
            omega arith,
            subst (λ (k : ℕ). get_elem? states (k - 1) ≡ some fs') (sym one)
                (h ∙ ap some (sym same)),
          ))

  deliver_next :
      (n : ℕ) (ps fs : Fields) (handled : Bool) (r : Relay)
      → get_elem? states n ≡ some ps
      → get_elem? states (suc n) ≡ some fs
      → IsMirror uuid id states r
      → IsMirror uuid id states
          (on_live_game_update uuid handled
            (live_delta_fields (some (object ps)) (object fs) id (suc n + 1))
            r).0
  deliver_next n ps fs handled r g h m =
      let ops = json_delta_ops (object ps) (object fs) [] in
      let payload = live_delta_fields (some (object ps)) (object fs) id (suc n + 1) in
      elim (Bool-cases (ltb max_live_delta_ops (length ops))) [
        | inl many ↦
            rw
              (on_invalid uuid handled payload r
                (validated_long uuid id known ps fs (suc n + 1) (omega arith) (ground arith)))
              m
        | inr few ↦
            rw
              (on_valid uuid handled payload r
                (delta_frame id (suc n + 1) (suc n + 1 - 1) (items_of ops))
                (validated_delta uuid id known ps fs (suc n + 1) (omega arith) (ground arith)))
              (settled-IsMirror uuid id states _ handled _ r m λ seq fs' e.
                let (old, kept, applied, seqs) =
                  prepare_ready (r.stored id) id (suc n + 1) (suc n + 1 - 1) seq (items_of ops) fs'
                    e in
                let there = (m.copy (suc n + 1 - 1) old kept).1 in
                let position : suc n + 1 - 1 - 1 ≡ n = omega arith in
                let same : old ≡ ps = some-inj (sym there ∙ (ap (get_elem? states) position ∙ g)) in
                let read = list_of-items_of ops in
                let now =
                  apply_live_delta_ops-json_delta_ops ps fs (live.each n ps g)
                    (live.each (suc n) fs h) in
                let result : fs' ≡ fs = some-inj (
                  sym applied
                  ∙ (ap (λ (xs : List Value). apply_live_delta_ops old xs) read
                      ∙ (ap (λ (o : Fields). apply_live_delta_ops o ops) same ∙ now))) in
                (
                  omega arith,
                  subst (λ (k : ℕ). get_elem? states k ≡ some fs') (omega arith)
                      (h ∙ ap some (sym result)),
                ))
      ]

  other-IsMirror :
      (payload : Fields) (handled : Bool) (r : Relay)
      → ((f : Frame) → validated_frame uuid payload ≡ valid f → text_eq (frame_stream f) id ≡ false)
      → IsMirror uuid id states r
      → IsMirror uuid id states (on_live_game_update uuid handled payload r).0
  other-IsMirror payload handled r away m = elim (Checked-cases (validated_frame uuid payload)) [
    | inl e ↦ rw (on_legacy uuid handled payload r e) m
    | inr rest ↦ elim rest [
      | inl e ↦ rw (on_invalid uuid handled payload r e) m
      | inr (f, e) ↦ rw (on_valid uuid handled payload r f e) record {
        copy = λ seq fs h.
            m.copy seq fs (sym (settle_other _ (frame_stream f) id handled _ r (away f e)) ∙ h);
      }
    ]
  ]

  Step-IsMirror :
      {r s : Relay}
      → Step uuid id states r s
      → IsMirror uuid id states r
      → IsMirror uuid id states s
  Step-IsMirror (deliver zero fs handled r h) m = deliver_first fs handled r h m
  Step-IsMirror (deliver (suc n) fs handled r h) m =
      let (ps, g) = get_elem?_before n states fs h in rw g (deliver_next n ps fs handled r g h m)
  Step-IsMirror (other payload handled r away) m = other-IsMirror payload handled r away m
  Step-IsMirror (expire j r) m = record {
    copy = λ seq fs h.
        m.copy seq fs
          (elim (Bool-cases (text_eq j id)) [ inl e ↦ absurd (ground arith) | inr e ↦ rw e at h ]);
  }

  mirrored :
      {r s : Relay} → r.stored id ≡ none → Reach uuid id states r s → IsMirror uuid id states s
  mirrored fresh here = record { copy = λ seq fs h. absurd (ground arith) }
  mirrored fresh (next path st) = Step-IsMirror st (mirrored fresh path)

  -- A relay that has no copy of a stream yet, and to which the frames of the stream are delivered in any
  -- order, any number of times, with the API's answer yes or no each time, beside any other messages and
  -- with copies that expire at any time: where it has a copy with a sequence number, the copy is exactly
  -- the state that the agent sent under that number. Each state the agent sent is a live state, and the
  -- identifier is in the standard form.
  pub Reach-IsMirror :
      {r s : Relay}
      → r.stored id ≡ none
      → Reach uuid id states r s
      → (seq : ℕ) (fs : Fields) → s.stored id ≡ some (seq, fs)
      → (0 < seq) × (get_elem? states (seq - 1) ≡ some fs)
  Reach-IsMirror {r} {s} fresh path = (mirrored fresh path).copy
