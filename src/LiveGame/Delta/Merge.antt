-- ===== src/LiveGame/Delta/Merge.antt =====
-- The keys that `json_delta_ops` walks, sorted and without repeats, and what a walk over them leaves of
-- the previous object.
use yummi_lcu.Common.{
  Bool, true, false, not, ◌&&◌, ◌||◌, if◌then◌else◌, Bytes, text_eq, text_eq_iff, none, some,
  is_some, all, List, [], ◌∷◌, ◌++◌, ◌≡◌, refl, inl, inr, Bool-cases, Option-cases, arith,
}
use yummi_lcu.Json.{Fields, end, field, get}
use yummi_lcu.CommandAuth.Canonical.{text_ltb}
use yummi_lcu.LiveGame.Dict.{
  text_ltb_irrefl, text_ltb_trans, text_ltb_total, is_sorted, insert, delete, get-insert,
  get-delete, is_sorted-insert, is_sorted-delete, fields_ext,
}
use yummi_lcu.LiveGame.Delta.{keys, insert_key, sort_keys, cons_new, dedup, merged_keys}

unfoldable pub contains : Bytes → List Bytes → Bool
contains k [] = false
contains k (j ∷ ks) = text_eq j k || contains k ks

-- No key comes twice.
unfoldable pub is_distinct : List Bytes → Bool
unfolding contains
is_distinct [] = true
is_distinct (k ∷ ks) = not (contains k ks) && is_distinct ks

-- No key is above a later one; every key is below the later ones.
rises : Bytes → List Bytes → Bool
rises k ks = all (λ j. not (text_ltb j k)) ks

is_rising : List Bytes → Bool
is_rising [] = true
is_rising (k ∷ ks) = rises k ks && is_rising ks

is_ascending : List Bytes → Bool
is_ascending [] = true
is_ascending (k ∷ ks) = all (text_ltb k) ks && is_ascending ks

contains-append :
    (k : Bytes) (ks js : List Bytes) → contains k (ks ++ js) ≡ (contains k ks || contains k js)
unfolding contains
contains-append k [] js = refl
contains-append k (i ∷ ks) js = ground (arith, contains-append k ks js)

contains-insert_key :
    (k j : Bytes) (ks : List Bytes) → contains k (insert_key j ks) ≡ (text_eq j k || contains k ks)
unfolding contains insert_key
contains-insert_key k j [] = refl
contains-insert_key k j (i ∷ ks) = ground (arith, contains-insert_key k j ks)

contains-sort_keys : (k : Bytes) (ks : List Bytes) → contains k (sort_keys ks) ≡ contains k ks
unfolding contains sort_keys
contains-sort_keys k [] = refl
contains-sort_keys k (i ∷ ks) =
    ground (arith, contains-insert_key k i (sort_keys ks), contains-sort_keys k ks)

contains-cons_new :
    (k j : Bytes) (ks : List Bytes) → contains k (cons_new j ks) ≡ (text_eq j k || contains k ks)
unfolding contains cons_new
contains-cons_new k j [] = refl
contains-cons_new k j (i ∷ ks) = ground (arith, text_eq_iff j i)

contains-dedup : (k : Bytes) (ks : List Bytes) → contains k (dedup ks) ≡ contains k ks
unfolding contains dedup
contains-dedup k [] = refl
contains-dedup k (i ∷ ks) = ground (arith, contains-cons_new k i (dedup ks), contains-dedup k ks)

contains-keys : (k : Bytes) (fs : Fields) → contains k (keys fs) ≡ is_some (get k fs)
unfolding contains get
contains-keys k end = refl
contains-keys k (field j v fs) = ground (arith, contains-keys k fs)

rises_trans :
    (i k : Bytes) (ks : List Bytes) → text_ltb k i ≡ false → rises k ks ≡ true → rises i ks ≡ true
unfolding rises
rises_trans i k [] h r = refl
rises_trans i k (j ∷ ks) h r =
    ground (arith, rises_trans i k ks h, text_ltb_trans j i k, text_ltb_total i k)

rises-insert_key :
    (i k : Bytes) (ks : List Bytes)
    → text_ltb k i ≡ false
    → rises i ks ≡ true
    → rises i (insert_key k ks) ≡ true
unfolding rises insert_key
rises-insert_key i k [] h r = ground arith
rises-insert_key i k (j ∷ ks) h r = ground (arith, rises-insert_key i k ks h)

ltb_asym : (s t : Bytes) → text_ltb s t ≡ true → text_ltb t s ≡ false
ltb_asym s t h = elim (Bool-cases (text_ltb t s)) [
  | inl e ↦ ground (arith, text_ltb_trans s t s, text_ltb_irrefl s)
  | inr e ↦ e
]

is_rising-insert_key :
    (k : Bytes) (ks : List Bytes) → is_rising ks ≡ true → is_rising (insert_key k ks) ≡ true
unfolding is_rising insert_key rises
is_rising-insert_key k [] h = refl
is_rising-insert_key k (j ∷ ks) h =
    unfold rises in
    ground
      (arith, is_rising-insert_key k ks, rises-insert_key j k ks, rises_trans k j ks, ltb_asym j k)

is_rising-sort_keys : (ks : List Bytes) → is_rising (sort_keys ks) ≡ true
unfolding sort_keys
is_rising-sort_keys [] = unfold is_rising in refl
is_rising-sort_keys (k ∷ ks) = is_rising-insert_key k (sort_keys ks) (is_rising-sort_keys ks)

rises-cons_new :
    (i k : Bytes) (ks : List Bytes) → rises i (k ∷ ks) ≡ true → rises i (cons_new k ks) ≡ true
unfolding rises cons_new
rises-cons_new i k [] r = r
rises-cons_new i k (j ∷ ks) r = ground arith

rises-dedup : (i : Bytes) (ks : List Bytes) → rises i ks ≡ true → rises i (dedup ks) ≡ true
unfolding rises dedup
rises-dedup i [] r = refl
rises-dedup i (k ∷ ks) r = rises-cons_new i k (dedup ks) (ground (arith, rises-dedup i ks))

above_trans :
    (i k : Bytes) (ks : List Bytes)
    → text_ltb i k ≡ true
    → all (text_ltb k) ks ≡ true
    → all (text_ltb i) ks ≡ true
above_trans i k [] h r = refl
above_trans i k (j ∷ ks) h r = ground (arith, above_trans i k ks h, text_ltb_trans i k j)

is_ascending-cons_new :
    (k : Bytes) (ks : List Bytes)
    → rises k ks ≡ true
    → is_ascending ks ≡ true
    → is_ascending (cons_new k ks) ≡ true
unfolding rises is_ascending cons_new
is_ascending-cons_new k [] r a = refl
is_ascending-cons_new k (j ∷ ks) r a =
    ground (arith, text_ltb_total k j, text_eq_iff k j, above_trans k j ks)

is_ascending-dedup : (ks : List Bytes) → is_rising ks ≡ true → is_ascending (dedup ks) ≡ true
unfolding is_rising dedup
is_ascending-dedup [] h = unfold is_ascending in refl
is_ascending-dedup (k ∷ ks) h =
    ground (arith, is_ascending-cons_new k (dedup ks), rises-dedup k ks, is_ascending-dedup ks)

not_contains_above :
    (k : Bytes) (ks : List Bytes) → all (text_ltb k) ks ≡ true → contains k ks ≡ false
unfolding contains
not_contains_above k [] h = refl
not_contains_above k (j ∷ ks) h =
    ground (arith, not_contains_above k ks, text_eq_iff j k, text_ltb_irrefl k)

is_distinct-ascending : (ks : List Bytes) → is_ascending ks ≡ true → is_distinct ks ≡ true
unfolding is_ascending is_distinct
is_distinct-ascending [] h = refl
is_distinct-ascending (k ∷ ks) h = ground (arith, is_distinct-ascending ks, not_contains_above k ks)

-- `sort` and `dedup` leave each key of the two objects once.
pub is_distinct-merged_keys : (ps ns : Fields) → is_distinct (merged_keys ps ns) ≡ true
unfolding merged_keys
is_distinct-merged_keys ps ns =
    is_distinct-ascending (merged_keys ps ns) (
      is_ascending-dedup (sort_keys (keys ps ++ keys ns))
        (is_rising-sort_keys (keys ps ++ keys ns)))

pub contains-merged_keys :
    (k : Bytes) (ps ns : Fields)
    → contains k (merged_keys ps ns) ≡ (is_some (get k ps) || is_some (get k ns))
unfolding merged_keys
contains-merged_keys k ps ns = ground (
  arith,
  contains-dedup k (sort_keys (keys ps ++ keys ns)),
  contains-sort_keys k (keys ps ++ keys ns),
  contains-append k (keys ps) (keys ns),
  contains-keys k ps,
  contains-keys k ns,
)

-- One key brought to what the next object holds under it.
unfoldable pub sync_key : Bytes → Fields → Fields → Fields
unfolding insert delete
sync_key k ns cur = elim (get k ns) [ none ↦ delete k cur | some w ↦ insert k w cur ]

unfoldable pub sync_keys : List Bytes → Fields → Fields → Fields
unfolding sync_key
sync_keys [] ns cur = cur
sync_keys (k ∷ ks) ns cur = sync_keys ks ns (sync_key k ns cur)

pub get-sync_key :
    (j k : Bytes) (ns cur : Fields)
    → is_sorted cur ≡ true
    → get j (sync_key k ns cur) ≡ (if text_eq k j then get k ns else get j cur)
unfolding sync_key
get-sync_key j k ns cur s = elim (Option-cases (get k ns)) [
  | inl e ↦ rw (e, sync_key) (get-delete k j cur s)
  | inr (w, e) ↦ rw (e, sync_key) (get-insert k j w cur)
]

pub is_sorted-sync_key :
    (k : Bytes) (ns cur : Fields) → is_sorted cur ≡ true → is_sorted (sync_key k ns cur) ≡ true
unfolding sync_key
is_sorted-sync_key k ns cur s = elim (Option-cases (get k ns)) [
  | inl e ↦ rw (e, sync_key) (is_sorted-delete k cur s)
  | inr (w, e) ↦ rw (e, sync_key) (is_sorted-insert k w cur s)
]

get-sync_keys :
    (j : Bytes) (ks : List Bytes) (ns cur : Fields)
    → is_sorted cur ≡ true
    → get j (sync_keys ks ns cur) ≡ (if contains j ks then get j ns else get j cur)
unfolding sync_keys contains
get-sync_keys j [] ns cur s = refl
get-sync_keys j (k ∷ ks) ns cur s = ground (
  arith,
  get-sync_keys j ks ns (sync_key k ns cur),
  is_sorted-sync_key k ns cur s,
  get-sync_key j k ns cur s,
  text_eq_iff k j,
)

is_sorted-sync_keys :
    (ks : List Bytes) (ns cur : Fields)
    → is_sorted cur ≡ true
    → is_sorted (sync_keys ks ns cur) ≡ true
unfolding sync_keys
is_sorted-sync_keys [] ns cur s = s
is_sorted-sync_keys (k ∷ ks) ns cur s =
    is_sorted-sync_keys ks ns (sync_key k ns cur) (is_sorted-sync_key k ns cur s)

-- The walk over all keys turns the previous object into the next one.
pub sync_keys-merged_keys :
    (ps ns : Fields)
    → is_sorted ps ≡ true
    → is_sorted ns ≡ true
    → sync_keys (merged_keys ps ns) ns ps ≡ ns
sync_keys-merged_keys ps ns s t =
    fields_ext (sync_keys (merged_keys ps ns) ns ps) ns
      (is_sorted-sync_keys (merged_keys ps ns) ns ps s) t
      λ k. ground (arith, get-sync_keys k (merged_keys ps ns) ns ps s, contains-merged_keys k ps ns)
