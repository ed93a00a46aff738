-- ===== src/GameResult/Consistent.antt =====
-- `has_consistent_eog_result_participants` against what a decided game is.
use yummi_lcu.Common.{
  ℕ, ◌+◌, ◌≤◌, Bool, true, false, not, if◌then◌else◌, Bytes, Option, none, some, any, All, length,
  List, [], ◌∷◌, ◌≡◌, ◌↔◌, ◌⊎◌, inl, inr, refl, arith, Option-cases,
}
use yummi_lcu.Json.{array, Items}
use yummi_lcu.GameResult.{
  Outcome, set_result, scan, decided, outcomes, has_consistent_eog_result_participants,
}

abbrev is_blue : Outcome → Bool
is_blue (team, won) = team

abbrev is_red : Outcome → Bool
is_red (team, won) = not team

-- One team won and the other lost, by every row that counts, of which there are at least nine, of both
-- teams.
pub record IsDecided (rows : List Outcome) : Type 0 where
  pub blue_won : Bool
  pub agreed : All (λ (o : Outcome). o.1 ≡ (if o.0 then blue_won else not blue_won)) rows
  pub enough : 9 ≤ length rows
  pub has_blue : any is_blue rows ≡ true
  pub has_red : any is_red rows ≡ true

-- The loop where the rows agree.
scan_agreed :
    (b : Bool) (rows : List Outcome) (count : ℕ) (blue red : Option Bool)
    → All (λ (o : Outcome). o.1 ≡ (if o.0 then b else not b)) rows
    → (blue ≡ none) ⊎ (blue ≡ some b)
    → (red ≡ none) ⊎ (red ≡ some (not b))
    → scan rows count blue red
      ≡ some (
        count + length rows,
        (if any is_blue rows then some b else blue),
        (if any is_red rows then some (not b) else red),
      )
unfolding scan set_result
scan_agreed b [] count blue red h p q = ground arith
scan_agreed true ((true, true) ∷ rows) count blue red h p q =
    ground (arith, scan_agreed true rows (count + 1) (some true) red h.1 (inr refl) q)
scan_agreed false ((true, false) ∷ rows) count blue red h p q =
    ground (arith, scan_agreed false rows (count + 1) (some false) red h.1 (inr refl) q)
scan_agreed true ((false, false) ∷ rows) count blue red h p q =
    ground (arith, scan_agreed true rows (count + 1) blue (some false) h.1 p (inr refl))
scan_agreed false ((false, true) ∷ rows) count blue red h p q =
    ground (arith, scan_agreed false rows (count + 1) blue (some true) h.1 p (inr refl))
scan_agreed true ((true, false) ∷ rows) count blue red h p q = absurd (ground arith)
scan_agreed false ((true, true) ∷ rows) count blue red h p q = absurd (ground arith)
scan_agreed true ((false, true) ∷ rows) count blue red h p q = absurd (ground arith)
scan_agreed false ((false, false) ∷ rows) count blue red h p q = absurd (ground arith)

-- What the loop has seen when it reaches its end.
record IsSeen (rows : List Outcome) (count : ℕ) (blue red : Option Bool) (n : ℕ)
    (blue' red' : Option Bool) : Type 0 where
  counted : n ≡ count + length rows
  agree : All (λ (o : Outcome). (if o.0 then blue' else red') ≡ some o.1) rows
  kept_blue : (w : Bool) → blue ≡ some w → blue' ≡ some w
  kept_red : (w : Bool) → red ≡ some w → red' ≡ some w
  new_blue : (any is_blue rows ≡ true) ⊎ (blue' ≡ blue)
  new_red : (any is_red rows ≡ true) ⊎ (red' ≡ red)

set_result_lem :
    (won : Bool) (old new : Option Bool)
    → set_result won old ≡ some new
    → (new ≡ some won) × ((old ≡ none) ⊎ (old ≡ some won))
unfolding set_result
set_result_lem won none new h = (ground arith, inl refl)
set_result_lem true (some true) new h = (ground arith, inr refl)
set_result_lem false (some false) new h = (ground arith, inr refl)
set_result_lem true (some false) new h = absurd (cc)
set_result_lem false (some true) new h = absurd (cc)

scan-IsSeen :
    (rows : List Outcome) (count n : ℕ) (blue red blue' red' : Option Bool)
    → scan rows count blue red ≡ some (n, blue', red')
    → IsSeen rows count blue red n blue' red'
unfolding scan
scan-IsSeen [] count n blue red blue' red' h = record {
  counted = ground arith;
  agree = tt;
  kept_blue = λ w e. ground arith;
  kept_red = λ w e. ground arith;
  new_blue = inr (ground arith);
  new_red = inr (ground arith);
}
scan-IsSeen ((true, won) ∷ rows) count n blue red blue' red' h =
    elim (Option-cases (set_result won blue)) [
      | inl e ↦ absurd (ground arith)
      | inr (next, e) ↦
          let (now, before) = set_result_lem won blue next e in
          let seen = scan-IsSeen rows (count + 1) n next red blue' red' (rw e at h) in
          record {
            counted = omega (arith, seen.counted);
            agree = (seen.kept_blue won now, seen.agree);
            kept_blue = λ w f. ground (arith, seen.kept_blue won now);
            kept_red = seen.kept_red;
            new_blue = inl refl;
            new_red = seen.new_red;
          }
    ]
scan-IsSeen ((false, won) ∷ rows) count n blue red blue' red' h =
    elim (Option-cases (set_result won red)) [
      | inl e ↦ absurd (ground arith)
      | inr (next, e) ↦
          let (now, before) = set_result_lem won red next e in
          let seen = scan-IsSeen rows (count + 1) n blue next blue' red' (rw e at h) in
          record {
            counted = omega (arith, seen.counted);
            agree = (seen.kept_red won now, seen.agree);
            kept_blue = seen.kept_blue;
            kept_red = λ w f. ground (arith, seen.kept_red won now);
            new_blue = seen.new_blue;
            new_red = inl refl;
          }
    ]

All-agreed :
    (b : Bool) (rows : List Outcome)
    → All (λ (o : Outcome). (if o.0 then some b else some (not b)) ≡ some o.1) rows
    → All (λ (o : Outcome). o.1 ≡ (if o.0 then b else not b)) rows
All-agreed b [] h = tt
All-agreed b ((true, won) ∷ rows) h = (ground arith, All-agreed b rows h.1)
All-agreed b ((false, won) ∷ rows) h = (ground arith, All-agreed b rows h.1)

decided-IsDecided :
    (rows : List Outcome) (n : ℕ) (blue red : Option Bool)
    → IsSeen rows 0 none none n blue red
    → decided (n, blue, red) ≡ true
    → IsDecided rows
unfolding decided
decided-IsDecided rows n none red s h = absurd (ground arith)
decided-IsDecided rows n (some b) none s h = absurd (ground arith)
decided-IsDecided rows n (some true) (some true) s h = absurd (ground arith)
decided-IsDecided rows n (some false) (some false) s h = absurd (ground arith)
decided-IsDecided rows n (some true) (some false) s h = record {
  blue_won = true;
  agreed = All-agreed true rows s.agree;
  enough = ground (arith, s.counted);
  has_blue = elim s.new_blue [ inl e ↦ e | inr e ↦ absurd (cc) ];
  has_red = elim s.new_red [ inl e ↦ e | inr e ↦ absurd (cc) ];
}
decided-IsDecided rows n (some false) (some true) s h = record {
  blue_won = false;
  agreed = All-agreed false rows s.agree;
  enough = ground (arith, s.counted);
  has_blue = elim s.new_blue [ inl e ↦ e | inr e ↦ absurd (cc) ];
  has_red = elim s.new_red [ inl e ↦ e | inr e ↦ absurd (cc) ];
}

decided_agreed : (b : Bool) (n : ℕ) → 9 ≤ n → decided (n, some b, some (not b)) ≡ true
unfolding decided
decided_agreed true n h = ground arith
decided_agreed false n h = ground arith

-- A list of participants is accepted by `has_consistent_eog_result_participants` exactly if the rows
-- that count are nine at least, of both teams, and all say of one team that it won and of the other
-- that it lost.
pub has_consistent_eog_result_participants_iff :
    (trim : Bytes → Bytes) (rows : Items)
    → (has_consistent_eog_result_participants trim (some (array rows)) ≡ true)
      ↔ IsDecided (outcomes trim rows)
unfolding has_consistent_eog_result_participants
has_consistent_eog_result_participants_iff trim rows =
    let os = outcomes trim rows in
    (
      (λ h. elim (Option-cases (scan os 0 none none)) [
        | inl e ↦ absurd (ground arith)
        | inr ((n, blue, red), e) ↦
            decided-IsDecided os n blue red (scan-IsSeen os 0 n none none blue red e) (rw e at h)
      ]),
      λ d.
          let ended = scan_agreed d.blue_won os 0 none none d.agreed (inl refl) (inl refl) in
          rw ended (
            rw (d.has_blue, d.has_red)
              (decided_agreed d.blue_won (0 + length os) (omega (arith, d.enough)))),
    )
