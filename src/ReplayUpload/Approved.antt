-- ===== src/ReplayUpload/Approved.antt =====
-- A replay is downloaded only for the current game, and only after the relay said that it is wanted.
use yummi_lcu.Common.{
  ℕ, ◌≤◌, Bool, true, false, not, ◌&&◌, Bytes, text_eq, text_eq_iff, Option, none, some, any,
  is_none, is_some_and, ltb, ◌-◌, length, List, [], ◌∷◌, ◌++◌, ◌≡◌, inl, inr, refl, arith,
  length-append, length-drop, Bool-cases, Option-cases, subst,
}
use yummi_lcu.ReplayUpload.{
  LcuIdentity, Note, Poller, diagnostic, enter_game, observe_connection, observe_disconnected,
  discover, download, next_action, give_up, set_rofl_upload_decision, retry_rofl_upload_check,
  is_game, same_identity, asked, timed_out,
}
use yummi_lcu.ReplayUpload.Ops.{
  Op, entered, connect, disconnect, found, polled, ended, decided, retried, sent, step, run,
}

-- The relay said yes for the game.
abbrev pub is_approval : Bytes → Op → Bool
is_approval g (decided h true) = text_eq h g
is_approval g _ = false

-- An authorized game is the current one, it was approved, and the log is bounded.
pub record IsApproved (before : List Op) (p : Poller) : Type 0 where
  pub current : (g : Bytes) → p.rofl_upload_authorized_game_id ≡ some g → p.rofl_match_hint ≡ some g
  pub allowed :
      (g : Bytes) → p.rofl_upload_authorized_game_id ≡ some g → any (is_approval g) before ≡ true
  pub short : length p.diagnostics ≤ 64

diagnostic-IsApproved :
    (n : Note) (before : List Op) (p : Poller)
    → IsApproved before p
    → IsApproved before (diagnostic n p)
unfolding diagnostic
diagnostic-IsApproved n before p h = record {
  current = h.current;
  allowed = h.allowed;
  short = ground (
    arith,
    length-append p.diagnostics (n ∷ []),
    length-drop 1 (p.diagnostics ++ (n ∷ [])),
    h.short,
  );
}

IsApproved-cons :
    (op : Op) (before : List Op) (p : Poller) → IsApproved before p → IsApproved (op ∷ before) p
IsApproved-cons op before p h = record {
  current = h.current;
  allowed = λ g e. ground (arith, h.allowed g e);
  short = h.short;
}

-- Nothing is authorized.
none-IsApproved :
    (before : List Op) (p : Poller)
    → p.rofl_upload_authorized_game_id ≡ none
    → length p.diagnostics ≤ 64
    → IsApproved before p
none-IsApproved before p e short = record {
  current = λ g f. absurd (ground arith);
  allowed = λ g f. absurd (ground arith);
  short = short;
}

some_same : {g k : Bytes} → some g ≡ some k → g ≡ k
some_same e = cc

hint_is : (hint : Option Bytes) (g k : Bytes) → is_game hint g ≡ true → g ≡ k → hint ≡ some k
hint_is none g k h e = absurd (cc)
hint_is (some j) g k h e = ground (arith, text_eq_iff j g)

module _ (before : List Op) (p : Poller) (h : IsApproved before p) where
  enter_game-IsApproved : IsApproved before (enter_game p)
  unfolding enter_game
  enter_game-IsApproved = none-IsApproved before (enter_game p) refl h.short

  observe_connection-IsApproved : (i : LcuIdentity) → IsApproved before (observe_connection i p)
  unfolding observe_connection enter_game
  observe_connection-IsApproved i = elim (Bool-cases (same_identity p.connection_identity i)) [
    | inl e ↦ rw (e, observe_connection) h
    | inr e ↦
        rw (e, observe_connection)
          (diagnostic-IsApproved _ before _ (none-IsApproved before _ refl h.short))
  ]

  observe_disconnected-IsApproved : IsApproved before (observe_disconnected p)
  unfolding observe_disconnected enter_game
  observe_disconnected-IsApproved = elim (Bool-cases (is_none p.connection_identity)) [
    | inl e ↦ rw (e, observe_disconnected) h
    | inr e ↦
        rw (e, observe_disconnected)
          (diagnostic-IsApproved _ before _ (none-IsApproved before _ refl h.short))
  ]

  discover-IsApproved : (g : Bytes) (now : ℕ) → IsApproved before (discover g now p)
  unfolding discover
  discover-IsApproved g now =
      elim (Bool-cases
        (not (is_game p.rofl_preflight_resolved_game_id g) && not (is_game p.rofl_match_hint g))) [
          | inl e ↦
              rw (e, discover)
                (diagnostic-IsApproved _ before _ (none-IsApproved before _ refl h.short))
          | inr e ↦ rw (e, discover) h
        ]

  asked-IsApproved :
      (g : Bytes)
      → IsApproved before
          (diagnostic (asked g) (record p { rofl_preflight_requested_game_id = some g }))
  asked-IsApproved g =
      diagnostic-IsApproved (asked g) before _
        record { current = h.current; allowed = h.allowed; short = h.short }

  next_action-IsApproved : IsApproved before (next_action p).0
  unfolding next_action
  next_action-IsApproved = elim (Option-cases p.rofl_match_hint) [
    | inl e ↦ rw (e, next_action) h
    | inr (g, e) ↦
        rw (e, next_action)
          elim (Bool-cases (is_game p.rofl_sent_game_id g)) [
            | inl a ↦ rw a h
            | inr a ↦ rw a elim (Bool-cases (is_game p.rofl_upload_authorized_game_id g)) [
              | inl b ↦ rw b h
              | inr b ↦ rw b elim (Bool-cases (is_game p.rofl_preflight_requested_game_id g)) [
                | inl c ↦ rw c h
                | inr c ↦ rw c (asked-IsApproved g)
              ]
            ]
          ]
  ]

  timed_out-IsApproved : (g : Bytes) → length (diagnostic (timed_out g) p).diagnostics ≤ 64
  timed_out-IsApproved g = (diagnostic-IsApproved (timed_out g) before p h).short

  give_up-IsApproved : (now : ℕ) → IsApproved before (give_up now p)
  unfolding give_up
  give_up-IsApproved now = elim (Option-cases p.rofl_match_hint) [
    | inl e ↦ rw (e, give_up) h
    | inr (g, e) ↦
        rw (e, give_up)
          elim (Bool-cases (
            is_some_and p.rofl_recovery_started_at (λ started. ltb 300000 (now - started))
            && not (is_game p.rofl_sent_game_id g))) [
              | inl a ↦ rw a (none-IsApproved before _ refl (timed_out-IsApproved g))
              | inr a ↦ rw a h
            ]
  ]

  retry-IsApproved : (g : Bytes) → IsApproved before (retry_rofl_upload_check g p)
  unfolding retry_rofl_upload_check
  retry-IsApproved g =
      elim (Bool-cases
        (is_game p.rofl_match_hint g && not (is_game p.rofl_upload_authorized_game_id g))) [
          | inl e ↦
              rw (e, retry_rofl_upload_check)
                (diagnostic-IsApproved _ before _
                  record { current = h.current; allowed = h.allowed; short = h.short })
          | inr e ↦ rw (e, retry_rofl_upload_check) h
        ]

  decision-IsApproved :
      (g : Bytes) (needed : Bool)
      → IsApproved (decided g needed ∷ before) (set_rofl_upload_decision g needed p)
  unfolding set_rofl_upload_decision
  decision-IsApproved g needed = elim (Bool-cases (is_game p.rofl_match_hint g)) [
    | inr e ↦
        rw (e, set_rofl_upload_decision)
          (diagnostic-IsApproved _ _ p (IsApproved-cons (decided g needed) before p h))
    | inl e ↦ elim (Bool-cases needed) [
      | inr f ↦
          rw (e, f, set_rofl_upload_decision)
            (diagnostic-IsApproved _ _ _ (none-IsApproved _ _ refl h.short))
      | inl f ↦
          rw (e, f, set_rofl_upload_decision)
            (diagnostic-IsApproved _ _ _ record {
              current = λ k same. hint_is p.rofl_match_hint g k e (some_same same);
              allowed = λ k same. ground (arith, text_eq_iff g k, some_same same);
              short = h.short;
            })
    ]
  ]

step-IsApproved :
    (op : Op) (before : List Op) (p : Poller)
    → IsApproved before p
    → IsApproved (op ∷ before) (step op p)
unfolding step
step-IsApproved entered before p h = IsApproved-cons _ before _ (enter_game-IsApproved before p h)
step-IsApproved (connect i) before p h =
    IsApproved-cons _ before _ (observe_connection-IsApproved before p h i)
step-IsApproved disconnect before p h =
    IsApproved-cons _ before _ (observe_disconnected-IsApproved before p h)
step-IsApproved (found g now) before p h =
    IsApproved-cons _ before _ (discover-IsApproved before p h g now)
step-IsApproved polled before p h = IsApproved-cons _ before _ (next_action-IsApproved before p h)
step-IsApproved (ended now) before p h =
    IsApproved-cons _ before _ (give_up-IsApproved before p h now)
step-IsApproved (decided g needed) before p h = decision-IsApproved before p h g needed
step-IsApproved (retried g) before p h = IsApproved-cons _ before _ (retry-IsApproved before p h g)
step-IsApproved (sent g) before p h =
    IsApproved-cons _ before _ record { current = h.current; allowed = h.allowed; short = h.short }

run_keeps :
    (p : Poller)
    → p.rofl_upload_authorized_game_id ≡ none
    → length p.diagnostics ≤ 64
    → (before : List Op) → IsApproved before (run before p)
unfolding run
run_keeps p e short [] = none-IsApproved [] p e short
run_keeps p e short (op ∷ before) =
    step-IsApproved op before (run before p) (run_keeps p e short before)

game_is : (o : Option Bytes) (g : Bytes) → is_game o g ≡ true → o ≡ some g
game_is none g h = absurd (cc)
game_is (some j) g h = ground (arith, text_eq_iff j g)

-- The download is of an authorized game.
download_authorized :
    (p : Poller) (g : Bytes)
    → (next_action p).1 ≡ download g
    → p.rofl_upload_authorized_game_id ≡ some g
unfolding next_action
download_authorized p g d = elim (Option-cases p.rofl_match_hint) [
  | inl e ↦ absurd (ground arith)
  | inr (h, e) ↦
      let both : (h ≡ g) × (is_game p.rofl_upload_authorized_game_id h ≡ true) = ground arith in
      game_is p.rofl_upload_authorized_game_id g
        (subst (λ (k : Bytes). is_game p.rofl_upload_authorized_game_id k ≡ true) both.0 both.1)
]

-- From a poller that has nothing authorized and at most 64 diagnostics, after any operations in any
-- order: the log stays within 64 entries, and where a round goes on to the download of a replay, it is
-- the replay of the current game, and the relay has answered for that game that it is wanted.
pub run-IsApproved :
    (p : Poller)
    → p.rofl_upload_authorized_game_id ≡ none
    → length p.diagnostics ≤ 64
    → (before : List Op)
    → (length (run before p).diagnostics ≤ 64)
      × ((g : Bytes)
          → (next_action (run before p)).1 ≡ download g
          → ((run before p).rofl_match_hint ≡ some g) × (any (is_approval g) before ≡ true))
run-IsApproved p e short before =
    let h = run_keeps p e short before in
    (
      h.short,
      λ g d.
          let authorized = download_authorized (run before p) g d in
          (h.current g authorized, h.allowed g authorized),
    )
