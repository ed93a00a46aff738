-- ===== src/GameResult/Tests.antt =====
-- A finished game of ten players, a report that contradicts itself, and the timing of the recovery.
use yummi_lcu.Common.{ℕ, Bool, true, false, Bytes, codes, text_eq, none, some, [], ◌≡◌, ◌↔◌, refl}
use yummi_lcu.Json.{Value, bool, pos_int, text, array, object, Items, nil, cons, end, field, get}
use yummi_lcu.CommandAuth.Canonical.{show_u64}
use yummi_lcu.GameResult.{
  outcomes, has_consistent_eog_result_participants, eog_result_evidence_source, recent_match,
  should_attempt_eog_recovery,
}
use yummi_lcu.GameResult.Consistent.{IsDecided, has_consistent_eog_result_participants_iff}

abbrev row : ℕ → Bool → Value
row team won = object (
    field (codes "gameName") (text (codes "a")) (
      field (codes "tagLine") (text (codes "b"))
        (field (codes "teamId") (pos_int team) (field (codes "won") (bool won) end))))

-- Five rows of a team.
abbrev five : ℕ → Bool → Items → Items
five team won rest =
    cons (row team won)
      (cons (row team won) (cons (row team won) (cons (row team won) (cons (row team won) rest))))

abbrev ten : Items
ten = five 100 true (five 200 false nil)

abbrev keep : Bytes → Bytes
keep s = s

ten_is_consistent : has_consistent_eog_result_participants keep (some (array ten)) ≡ true
unfolding has_consistent_eog_result_participants get text_eq
ten_is_consistent = refl

-- A row of the losing team that says it won.
contradiction :
    has_consistent_eog_result_participants keep
      (some (array (cons (row 200 true) (five 100 true (five 200 false nil)))))
    ≡ false
unfolding has_consistent_eog_result_participants get text_eq
contradiction = refl

has_consistent_eog_result_participants_iff_example :
    (has_consistent_eog_result_participants keep (some (array ten)) ≡ true)
    ↔ IsDecided (outcomes keep ten)
has_consistent_eog_result_participants_iff_example =
    has_consistent_eog_result_participants_iff keep ten

-- The end-of-game report of another game does not count; the latest match does.
abbrev report : Value
report = object (
    field (codes "expectedGameId") (pos_int 7) (
      field (codes "gameId") (pos_int 6) (
        field (codes "participants") (array ten) (
          field (codes "recentMatch")
            (object
              (field (codes "gameId") (pos_int 7) (field (codes "participants") (array ten) end)))
            end))))

latest_counts : eog_result_evidence_source keep (λ x. []) report ≡ some recent_match
unfolding eog_result_evidence_source get text_eq show_u64
latest_counts = refl

-- Entering EndOfGame asks at once; in the lobby the recovery lasts 90 seconds.
at_once :
    should_attempt_eog_recovery
      (codes "EndOfGame")
      (some (codes "WaitingForStats"))
      false
      (some 10)
      (some 10)
      none
    ≡ true
unfolding should_attempt_eog_recovery text_eq
at_once = refl

too_late :
    should_attempt_eog_recovery
      (codes "Lobby")
      (some (codes "EndOfGame"))
      false
      none
      (some 90001)
      (some (codes "7"))
    ≡ false
unfolding should_attempt_eog_recovery text_eq
too_late = refl
