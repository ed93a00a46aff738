-- ===== src/LiveGame/Ingest/Handled.antt =====
-- What the handler does with a frame that passes the check, and with the others.
use yummi_lcu.Common.{
  ℕ, zero, suc, Bool, Bytes, Option, none, some, get_elem?, List, [], ◌∷◌, ◌≡◌, ◌⊎◌, inl, inr, refl,
  arith,
}
use yummi_lcu.Json.{Fields}
use yummi_lcu.LiveGame.Ingest.{
  Frame, full_frame, frame_stream, Checked, legacy, invalid, valid, raw_stream, validated_frame,
  ready, Relay, prepare_frame, settle, on_live_game_update,
}

pub some-inj : {A : Type 0} {a b : A} → some a ≡ some b → a ≡ b
some-inj e = cc

pub get_elem?_before :
    (m : ℕ) (xs : List Fields) (v : Fields)
    → get_elem? xs (suc m) ≡ some v
    → (u : Fields) × (get_elem? xs m ≡ some u)
get_elem?_before m [] v h = absurd (cc)
get_elem?_before zero (x ∷ xs) v h = (x, refl)
get_elem?_before (suc m) (x ∷ xs) v h = get_elem?_before m xs v h

module _ (uuid : Bytes → Option Bytes) (handled : Bool) (payload : Fields) (r : Relay) where
  pub on_valid :
      (f : Frame)
      → validated_frame uuid payload ≡ valid f
      → on_live_game_update uuid handled payload r
        ≡ settle
            (raw_stream payload)
            (frame_stream f)
            handled
            (prepare_frame (r.stored (frame_stream f)) f)
            r
  unfolding on_live_game_update
  on_valid f e = rw (e, on_live_game_update)

  pub on_invalid :
      validated_frame uuid payload ≡ invalid → (on_live_game_update uuid handled payload r).0 ≡ r
  unfolding on_live_game_update
  on_invalid e = rw (e, on_live_game_update)

  pub on_legacy :
      validated_frame uuid payload ≡ legacy → (on_live_game_update uuid handled payload r).0 ≡ r
  unfolding on_live_game_update
  on_legacy e = rw (e, on_live_game_update)

pub Checked-cases : (c : Checked) → (c ≡ legacy) ⊎ ((c ≡ invalid) ⊎ ((f : Frame) × (c ≡ valid f)))
Checked-cases legacy = inl refl
Checked-cases invalid = inr (inl refl)
Checked-cases (valid f) = inr (inr (f, refl))

pub prepare_full :
    (kept : Option (ℕ × Fields)) (id : Bytes) (seq seq' : ℕ) (fs fs' : Fields)
    → prepare_frame kept (full_frame id seq fs) ≡ ready seq' fs'
    → (seq' ≡ seq) × (fs' ≡ fs)
unfolding prepare_frame
prepare_full none id seq seq' fs fs' h = (ground arith, ground arith)
prepare_full (some (current, old)) id seq seq' fs fs' h = (ground arith, ground arith)
