-- ===== src/Relay/ReplayBuffer/Ids.antt =====
-- Lemmas on the identifiers of a list of events.
use yummi_lcu.Common.{
  ◌≡◌, refl, inl, inr, Bool, false, ◌||◌, List, [], ◌∷◌, ◌++◌, ◌-◌, String, arith, length, retain,
  str_eq_iff, Bool-cases,
}
use yummi_lcu.Relay.ReplayBuffer.{Event, has_id, pop_front}

-- No identifier occurs twice.
abbrev pub HasDistinctIds : List Event → Type 0
HasDistinctIds [] = Unit
HasDistinctIds (e ∷ es) = (has_id e.event_id es ≡ false) × HasDistinctIds es

pub has_id-append :
    (id : String) (es fs : List Event) → has_id id (es ++ fs) ≡ (has_id id es || has_id id fs)
has_id-append id [] fs = refl
has_id-append id (e ∷ es) fs = ground (arith, has_id-append id es fs)

has_id-retain_other :
    (id : String) (p : Event → Bool) (es : List Event)
    → has_id id es ≡ false
    → has_id id (retain p es) ≡ false
unfolding retain
has_id-retain_other id p [] h = refl
has_id-retain_other id p (e ∷ es) h = ground (arith, has_id-retain_other id p es)

pub retain-HasDistinctIds :
    (p : Event → Bool) (es : List Event) → HasDistinctIds es → HasDistinctIds (retain p es)
unfolding retain
retain-HasDistinctIds p [] d = tt
retain-HasDistinctIds p (e ∷ es) (h, d) = elim (Bool-cases (p e)) [
  | inl kept ↦ rw kept (has_id-retain_other e.event_id p es h, retain-HasDistinctIds p es d)
  | inr gone ↦ rw gone (retain-HasDistinctIds p es d)
]

pub append-HasDistinctIds :
    (es : List Event) (e : Event)
    → has_id e.event_id es ≡ false
    → HasDistinctIds es
    → HasDistinctIds (es ++ e ∷ [])
append-HasDistinctIds [] e h d = (refl, tt)
append-HasDistinctIds (x ∷ es) e h (fresh, d) = (
  ground (
    arith,
    has_id-append x.event_id es (e ∷ []),
    str_eq_iff x.event_id e.event_id,
    str_eq_iff e.event_id x.event_id,
  ),
  append-HasDistinctIds es e (ground arith) d,
)

pub pop_front-HasDistinctIds : (es : List Event) → HasDistinctIds es → HasDistinctIds (pop_front es)
unfolding pop_front
pop_front-HasDistinctIds [] d = tt
pop_front-HasDistinctIds (e ∷ es) (h, d) = d

pub not_has_id-pop_front :
    (id : String) (es : List Event) → has_id id es ≡ false → has_id id (pop_front es) ≡ false
unfolding pop_front
not_has_id-pop_front id [] h = refl
not_has_id-pop_front id (e ∷ es) h = ground arith

pub length-pop_front : (es : List Event) → length (pop_front es) ≡ length es - 1
unfolding pop_front
length-pop_front [] = omega arith
length-pop_front (e ∷ es) = omega arith
