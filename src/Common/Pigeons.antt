-- ===== src/Common/Pigeons.antt =====
-- A list of distinct numbers in a range of `k` values has at most `k` entries, and with `k` entries
-- it has them all; with fewer it misses one.
use Prim.Native.Nat.{ℕ, zero, suc, ◌+◌, ◌≤◌, ◌<◌}
use mathlib.Core.Path.{◌≡◌, refl}
use mathlib.Core.Logic.{inl, inr}
use mathlib.Core.Bool.{Bool, true, false, not}
use mathlib.Core.List.{List, [], ◌∷◌}
use native.Mathlib.Omega.{arith}
use yummi_lcu.Common.Tests.{◌==◌, Bool-cases}
use yummi_lcu.Common.Lists.{length, any, retain, All}

abbrev pub has : ℕ → List ℕ → Bool
has n = any (λ x. x == n)

abbrev pub AreDistinct : List ℕ → Type 0
AreDistinct [] = Unit
AreDistinct (x ∷ xs) = (has x xs ≡ false) × AreDistinct xs

abbrev pub AreWithin : ℕ → ℕ → List ℕ → Type 0
AreWithin lo k = All (λ x. (lo ≤ x) × (x < lo + k))

without : ℕ → List ℕ → List ℕ
without v = retain (λ x. not (x == v))

length-without_new : (v : ℕ) (xs : List ℕ) → has v xs ≡ false → length (without v xs) ≡ length xs
unfolding without retain
length-without_new v [] h = refl
length-without_new v (x ∷ xs) h = ground (arith, length-without_new v xs)

length-without : (v : ℕ) (xs : List ℕ) → AreDistinct xs → length xs ≤ suc (length (without v xs))
unfolding without retain
length-without v [] d = omega arith
length-without v (x ∷ xs) (h, d) = ground (arith, length-without v xs d, length-without_new v xs)

not_has-without : (n v : ℕ) (xs : List ℕ) → has n xs ≡ false → has n (without v xs) ≡ false
unfolding without retain
not_has-without n v [] h = refl
not_has-without n v (x ∷ xs) h = ground (arith, not_has-without n v xs)

without-AreDistinct : (v : ℕ) (xs : List ℕ) → AreDistinct xs → AreDistinct (without v xs)
unfolding without retain
without-AreDistinct v [] d = tt
without-AreDistinct v (x ∷ xs) (h, d) =
    ground (arith, without-AreDistinct v xs d, not_has-without x v xs h)

without-AreWithin :
    (lo k : ℕ) (xs : List ℕ) → AreWithin lo (suc k) xs → AreWithin lo k (without (lo + k) xs)
unfolding without retain
without-AreWithin lo k [] w = tt
without-AreWithin lo k (x ∷ xs) (h, w) = ground (arith, without-AreWithin lo k xs w)

pub length-AreWithin : (lo k : ℕ) (xs : List ℕ) → AreDistinct xs → AreWithin lo k xs → length xs ≤ k
length-AreWithin lo zero [] d w = omega arith
length-AreWithin lo zero (x ∷ xs) d (h, w) = absurd (omega arith)
length-AreWithin lo (suc k) xs d w = omega (
  arith,
  length-without (lo + k) xs d,
  length-AreWithin lo k (without (lo + k) xs) (without-AreDistinct (lo + k) xs d)
      (without-AreWithin lo k xs w),
)

pub has_of_length :
    (lo k : ℕ) (xs : List ℕ) (n : ℕ)
    → AreDistinct xs
    → AreWithin lo k xs
    → length xs ≡ k
    → lo ≤ n
    → n < lo + k
    → has n xs ≡ true
has_of_length lo k xs n d w full p q = elim (Bool-cases (has n xs)) [
  | inl found ↦ found
  | inr missing ↦ absurd (omega (arith, length-AreWithin lo k (n ∷ xs) (missing, d) ((p, q), w)))
]

length-without_old :
    (v : ℕ) (xs : List ℕ) → has v xs ≡ true → suc (length (without v xs)) ≤ length xs
unfolding without retain
length-without_old v [] h = absurd (cc)
length-without_old v (x ∷ xs) h = elim (Bool-cases (has v xs)) [
  | inl old ↦ ground (arith, length-without_old v xs old)
  | inr new ↦ ground (arith, length-without_new v xs new)
]

has-without :
    (n v : ℕ) (xs : List ℕ) → (n == v) ≡ false → has n (without v xs) ≡ false → has n xs ≡ false
unfolding without retain
has-without n v [] other h = refl
has-without n v (x ∷ xs) other h = ground (arith, has-without n v xs)

pub misses :
    (lo k : ℕ) (xs : List ℕ)
    → AreDistinct xs
    → AreWithin lo k xs
    → length xs < k
    → (n : ℕ) × (lo ≤ n) × (n < lo + k) × (has n xs ≡ false)
misses lo zero xs d w short = absurd (omega arith)
misses lo (suc k) xs d w short = elim (Bool-cases (has (lo + k) xs)) [
  | inr missing ↦ (lo + k, omega arith, omega arith, missing)
  | inl old ↦
      let (n, low, high, missing) =
        misses lo k (without (lo + k) xs) (without-AreDistinct (lo + k) xs d)
          (without-AreWithin lo k xs w)
          (omega (arith, short, length-without_old (lo + k) xs old)) in
      (n, low, omega arith, has-without n (lo + k) xs (ground arith) missing)
]
