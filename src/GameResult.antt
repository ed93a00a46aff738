-- ===== src/GameResult.antt =====
-- lcu/events.rs: which report of a finished game counts as its result, and when the agent asks for it
-- again. `trim` stands for `str::trim`, `show_float` for the text of a float. Times are milliseconds.
pub mod Consistent
mod Tests
use yummi_lcu.Common.{
  ℕ, suc, ◌+◌, ◌-◌, Bool, true, false, not, ◌&&◌, ◌||◌, ltb, leb, ◌==◌, if◌then◌else◌, Bytes, codes,
  text_eq, Option, none, some, and_then, is_some, is_none, is_some_and, any, List, [], ◌∷◌,
}
use yummi_lcu.Json.{
  Value, bool, pos_int, neg_int, float, text, array, object, Items, nil, cons, Fields, get,
  as_object, as_str, as_i64,
}
use yummi_lcu.CommandAuth.Canonical.{show_u64}
use yummi_lcu.Relay.Protocol.{is_empty}

abbrev pub as_bool : Value → Option Bool
as_bool (bool b) = some b
as_bool _ = none

abbrev as_array : Value → Option Items
as_array (array xs) = some xs
as_array _ = none

-- `row.get(k).and_then(Value::as_str)`, and so on.
abbrev value_get : Bytes → Value → Option Value
value_get k v = and_then (as_object v) (get k)

abbrev pub is_i64 : ℕ → Bool × ℕ → Bool
is_i64 n (below, m) = not below && m == n

-- Rows that count: the team (`true` for blue) and whether it won.
abbrev pub Outcome : Type 0
Outcome = Bool × Bool

-- `Some` of a team of two known numbers.
unfoldable pub team_of : Bool × ℕ → Option Bool
team_of id = if is_i64 100 id then some true else if is_i64 200 id then some false else none

-- The loop over the rows that count: their number and the result of each team, unless two rows of a
-- team disagree.
unfoldable pub set_result : Bool → Option Bool → Option (Option Bool)
set_result won none = some (some won)
set_result true (some true) = some (some true)
set_result false (some false) = some (some false)
set_result true (some false) = none
set_result false (some true) = none

unfoldable pub scan :
    List Outcome → ℕ → Option Bool → Option Bool → Option (ℕ × Option Bool × Option Bool)
unfolding set_result
scan [] count blue red = some (count, blue, red)
scan ((true, won) ∷ rows) count blue red =
    and_then (set_result won blue) λ blue'. scan rows (count + 1) blue' red
scan ((false, won) ∷ rows) count blue red =
    and_then (set_result won red) λ red'. scan rows (count + 1) blue red'

abbrev differ : Option Bool → Option Bool → Bool
differ (some true) (some false) = true
differ (some false) (some true) = true
differ _ _ = false

-- At least nine rows, a result for each team, and not the same one.
unfoldable pub decided : ℕ × Option Bool × Option Bool → Bool
decided (count, blue, red) = leb 9 count && differ blue red

abbrev is_phase : Bytes → List Bytes → Bool
is_phase phase names = any (text_eq phase) names

unfoldable pub is_eog_phase : Bytes → Bool
is_eog_phase phase =
    is_phase phase (codes "PreEndOfGame" ∷ (codes "EndOfGame" ∷ (codes "WaitingForStats" ∷ [])))

-- `should_attempt_eog_recovery`; the times are how long ago the last attempt and the recovery began.
unfoldable pub should_attempt_eog_recovery :
    Bytes → Option Bytes → Bool → Option ℕ → Option ℕ → Option Bytes → Bool
unfolding is_eog_phase
should_attempt_eog_recovery phase previous eog_sent since_attempt since_start expected =
    let in_eog_phase = is_eog_phase phase in
    let postgame_grace =
      is_phase phase (codes "Lobby" ∷ (codes "None" ∷ []))
      && (is_some_and since_start (λ t. leb t 90000) && is_some expected) in
    let from_game =
      is_none previous
      || is_some_and previous λ p. is_phase p (
          codes "InProgress"
          ∷ (codes "PreEndOfGame" ∷ (codes "EndOfGame" ∷ (codes "WaitingForStats" ∷ [])))) in
    if eog_sent
    then false
    else if not in_eog_phase && not postgame_grace
    then false
    else if in_eog_phase && (not from_game && is_none since_start)
    then false
    else if text_eq phase (codes "EndOfGame")
        && not (is_some_and previous (λ p. text_eq p (codes "EndOfGame")))
    then true
    else elim since_attempt [ none ↦ true | some t ↦ leb 5000 t ]

-- The names of `eog_result_evidence_source`.
pub data Evidence : Type 0 where
  eog_stats recent_match recent_match_game_id : Evidence

abbrev ids_match : Option Bytes → Option Bytes → Bool
ids_match none actual = true
ids_match (some expected) none = false
ids_match (some expected) (some actual) = text_eq expected actual

abbrev or_id : Option Bytes → Option Bytes → Option Bytes
or_id none other = other
or_id (some id) other = some id

module _ (trim : Bytes → Bytes) where
  abbrev is_text : Option Value → Bool
  is_text v = is_some_and (and_then v as_str) λ s. not (is_empty (trim s))

  -- A row of `has_consistent_eog_result_participants` that the loop does not pass over.
  unfoldable pub row_outcome : Value → Option Outcome
  unfolding team_of
  row_outcome row = and_then (as_object row) λ fs.
      and_then (and_then (get (codes "teamId") fs) as_i64) λ team_id.
        and_then (and_then (get (codes "won") fs) as_bool) λ won.
          if not (is_text (get (codes "gameName") fs)) || not (is_text (get (codes "tagLine") fs))
          then none
          else and_then {B = Outcome} (team_of team_id) λ team. some (team, won)

  unfoldable pub outcomes : Items → List Outcome
  unfolding row_outcome
  outcomes nil = []
  outcomes (cons row rows) = elim (row_outcome row) [
    | none ↦ outcomes rows
    | some o ↦ o ∷ outcomes rows
  ]

  unfoldable pub has_consistent_eog_result_participants : Option Value → Bool
  unfolding outcomes scan decided
  has_consistent_eog_result_participants value =
      is_some_and (and_then value as_array)
        λ rows. is_some_and (scan (outcomes rows) 0 none none) decided

  abbrev is_winner_row : Value → Bool
  is_winner_row row = is_some_and (as_object row) λ fs.
      is_text (get (codes "gameName") fs)
      && (is_text (get (codes "tagLine") fs)
          && (is_some_and (and_then (get (codes "teamId") fs) as_i64)
                (λ id. is_i64 100 id || is_i64 200 id)
              && is_some (and_then (get (codes "won") fs) as_bool)))

  abbrev any_item : (Value → Bool) → Items → Bool
  any_item test nil = false
  any_item test (cons x xs) = test x || any_item test xs

  unfoldable pub has_recent_match_winner_hint : Option Value → Bool
  has_recent_match_winner_hint value =
      is_some_and (and_then value as_array) (any_item is_winner_row)

module _ (trim : Bytes → Bytes) (show_float : ℕ → Bytes) where
  unfoldable pub json_scalar_id : Option Value → Option Bytes
  json_scalar_id none = none
  json_scalar_id (some (text s)) = if is_empty (trim s) then none else some (trim s)
  json_scalar_id (some (pos_int n)) = some (show_u64 n)
  json_scalar_id (some (neg_int n)) = some (b'-' ∷ show_u64 (suc n))
  json_scalar_id (some (float x)) = some (show_float x)
  json_scalar_id (some _) = none

  unfoldable pub eog_result_evidence_source : Value → Option Evidence
  unfolding has_consistent_eog_result_participants has_recent_match_winner_hint json_scalar_id
  eog_result_evidence_source payload =
      let expected = json_scalar_id (value_get (codes "expectedGameId") payload) in
      let actual = json_scalar_id (value_get (codes "gameId") payload) in
      if ids_match expected actual
        && has_consistent_eog_result_participants trim (value_get (codes "participants") payload)
      then some eog_stats
      else (and_then (and_then (value_get (codes "recentMatch") payload) as_object) λ recent.
          and_then (or_id expected actual) λ id.
            and_then (json_scalar_id (get (codes "gameId") recent)) λ recent_id.
              if not (text_eq id recent_id)
              then none
              else if has_consistent_eog_result_participants trim
                  (get (codes "participants") recent)
              then some recent_match
              else if has_recent_match_winner_hint trim (get (codes "participants") recent)
              then some recent_match_game_id
              else none)
