-- ===== src/LiveGame/Ingest/Frames.antt =====
-- The frames of the agent as the relay reads them.
use yummi_lcu.Common.{
  ℕ, suc, ◌-◌, ◌≤◌, ◌<◌, Bool, true, false, Bytes, text_eq, text_eq_refl, Option, none, some,
  length, List, [], ◌∷◌, ◌≡◌, ◌⊎◌, inl, inr, refl, ap, arith, Option-cases,
}
use yummi_lcu.Json.{Value, object, Items, Fields, get}
use yummi_lcu.Relay.Protocol.{chars_count}
use yummi_lcu.LiveGame.Arrays.{items_length}
use yummi_lcu.LiveGame.Delta.{json_delta_ops}
use yummi_lcu.LiveGame.Stream.{items_of, live_delta_fields}
use yummi_lcu.LiveGame.Receiver.{apply_live_delta_ops}
use yummi_lcu.LiveGame.Ingest.{
  full_frame, delta_frame, invalid, valid, max_live_delta_ops, list_of, kind_frame, checked_frame,
  validated_frame, Prepared, duplicate, gap, no_base, ready, failed, Relay, prepare_frame, settle,
}

pub list_of-items_of : (xs : List Value) → list_of (items_of xs) ≡ xs
list_of-items_of [] = refl
list_of-items_of (x ∷ xs) = ap (λ (ys : List Value). x ∷ ys) (list_of-items_of xs)

items_length-items_of : (xs : List Value) → items_length (items_of xs) ≡ length xs
items_length-items_of [] = refl
items_length-items_of (x ∷ xs) = ap suc (items_length-items_of xs)

-- A stream identifier in the standard form that `Uuid::to_string` gives: Python reads it as itself.
pub record IsStreamId (uuid : Bytes → Option Bytes) (id : Bytes) : Type 0 where
  pub standard : uuid id ≡ some id
  pub short : chars_count id ≤ 64

module _ (uuid : Bytes → Option Bytes) (id : Bytes) (h : IsStreamId uuid id) where
  pub validated_full :
      (fs : Fields) (seq : ℕ)
      → 0 < seq
      → validated_frame uuid (live_delta_fields none (object fs) id seq)
        ≡ valid (full_frame id seq fs)
  unfolding validated_frame checked_frame kind_frame live_delta_fields get text_eq
  validated_full fs seq pos = ground (arith, h.standard, h.short)

  pub validated_delta :
      (ps ns : Fields) (seq : ℕ)
      → 1 < seq
      → length (json_delta_ops (object ps) (object ns) []) ≤ max_live_delta_ops
      → validated_frame uuid (live_delta_fields (some (object ps)) (object ns) id seq)
        ≡ valid
            (delta_frame id seq (seq - 1) (items_of (json_delta_ops (object ps) (object ns) [])))
  unfolding validated_frame checked_frame kind_frame live_delta_fields get text_eq
  validated_delta ps ns seq pos few =
      let ops = json_delta_ops (object ps) (object ns) [] in
      ground (arith, h.standard, h.short, items_length-items_of ops)

  pub validated_long :
      (ps ns : Fields) (seq : ℕ)
      → 1 < seq
      → max_live_delta_ops < length (json_delta_ops (object ps) (object ns) [])
      → validated_frame uuid (live_delta_fields (some (object ps)) (object ns) id seq) ≡ invalid
  unfolding validated_frame checked_frame kind_frame live_delta_fields get text_eq
  validated_long ps ns seq pos many =
      let ops = json_delta_ops (object ps) (object ns) [] in
      ground (arith, h.standard, h.short, items_length-items_of ops)

-- When a delta is ready, and what a settled frame leaves in the store.
pub prepare_ready :
    (kept : Option (ℕ × Fields)) (id : Bytes) (seq base seq' : ℕ) (ops : Items) (state : Fields)
    → prepare_frame kept (delta_frame id seq base ops) ≡ ready seq' state
    → (old : Fields) × (kept ≡ some (base, old))
      × (apply_live_delta_ops old (list_of ops) ≡ some state)
      × (seq' ≡ seq)
unfolding prepare_frame
prepare_ready none id seq base seq' ops state h = absurd (ground arith)
prepare_ready (some (current, old)) id seq base seq' ops state h =
    elim (Option-cases (apply_live_delta_ops old (list_of ops))) [
      | inl e ↦ absurd (ground arith)
      | inr (s, e) ↦ (old, ground arith, ground arith, ground arith)
    ]

pub settle_stored :
    (raw id : Bytes) (handled : Bool) (p : Prepared) (r : Relay)
    → ((settle raw id handled p r).0.stored id ≡ r.stored id)
      ⊎ ((seq : ℕ) × ((state : Fields) × ((p ≡ ready seq state)
              × ((settle raw id handled p r).0.stored id ≡ some (seq, state)))))
unfolding settle
settle_stored raw id handled duplicate r = inl refl
settle_stored raw id handled (gap a b) r = inl refl
settle_stored raw id handled no_base r = inl refl
settle_stored raw id handled failed r = inl refl
settle_stored raw id true (ready seq state) r = inr (seq, (state, (refl, rw (text_eq_refl id))))
settle_stored raw id false (ready seq state) r = inl refl

pub settle_other :
    (raw id j : Bytes) (handled : Bool) (p : Prepared) (r : Relay)
    → text_eq id j ≡ false
    → (settle raw id handled p r).0.stored j ≡ r.stored j
unfolding settle
settle_other raw id j handled duplicate r h = refl
settle_other raw id j handled (gap a b) r h = refl
settle_other raw id j handled no_base r h = refl
settle_other raw id j handled failed r h = refl
settle_other raw id j true (ready seq state) r h = rw h
settle_other raw id j false (ready seq state) r h = refl
