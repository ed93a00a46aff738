-- ===== src/Updater/Order.antt =====
-- updater.rs: the order of versions and of release numbers, and what `is_newer_target` makes of it.
use yummi_lcu.Common.{
  ℕ, ◌≡◌, refl, ◌⊎◌, inl, inr, true, false, List, [], ◌∷◌, Option, none, some, arith, codes,
  text_eq, unwrap_or, Bool-cases, Option-cases, List-cases,
}
use yummi_lcu.Updater.{
  Version, version_lt, version_eq, numbers_lt, UpdateTarget, Installed, Libraries, version_tuple,
  both_newer, newer_prerelease, newer_of, is_newer_target, numeric_identifier, release_sequence,
}

numbers_lt_irrefl : (xs : List ℕ) → numbers_lt xs xs ≡ false
unfolding numbers_lt
numbers_lt_irrefl [] = refl
numbers_lt_irrefl (x ∷ xs) = ground (arith, numbers_lt_irrefl xs)

numbers_lt_trans :
    (xs ys zs : List ℕ)
    → numbers_lt xs ys ≡ true
    → numbers_lt ys zs ≡ true
    → numbers_lt xs zs ≡ true
unfolding numbers_lt
numbers_lt_trans [] ys [] h k = elim (List-cases ys) [
  | inl e ↦ absurd (ground arith)
  | inr (y, (rest, e)) ↦ absurd (ground arith)
]
numbers_lt_trans [] ys (z ∷ zs) h k = refl
numbers_lt_trans (x ∷ xs) [] zs h k = absurd (ground arith)
numbers_lt_trans (x ∷ xs) (y ∷ ys) [] h k = absurd (ground arith)
numbers_lt_trans (x ∷ xs) (y ∷ ys) (z ∷ zs) h k = ground (arith, numbers_lt_trans xs ys zs)

version_eq_refl : (v : Version) → version_eq v v ≡ true
unfolding version_eq
version_eq_refl (a, (b, c)) = ground arith

version_eq_eq : (v w : Version) → version_eq v w ≡ true → v ≡ w
unfolding version_eq
version_eq_eq (a, (b, c)) (x, (y, z)) h = ground arith

version_lt_asym : (v w : Version) → version_lt v w ≡ true → version_lt w v ≡ false
unfolding version_lt
version_lt_asym (a, (b, c)) (x, (y, z)) h = ground arith

both_newer_same :
    (lib : Libraries) (o : Option (List ℕ)) → unwrap_or (both_newer lib o o) false ≡ false
unfolding both_newer
both_newer_same lib none = refl
both_newer_same lib (some xs) = numbers_lt_irrefl xs

module _ (lib : Libraries) where
  newer_prerelease_same :
      (o p : Option (List ℕ))
      → unwrap_or (both_newer lib o o) (unwrap_or (both_newer lib p p) false) ≡ false
  unfolding both_newer
  newer_prerelease_same none p = both_newer_same lib p
  newer_prerelease_same (some xs) p = numbers_lt_irrefl xs

  -- A release that has been installed is not newer than itself: the agent does not install it again.
  pub is_newer_target_installed :
      (target : UpdateTarget) (here : Installed)
      → here.version ≡ target.version
      → target.release_label ≡ some here.release_label
      → target.build_id ≡ some here.build_id
      → is_newer_target lib target here ≡ false
  unfolding is_newer_target newer_of newer_prerelease
  is_newer_target_installed target here v l b =
      elim (Option-cases (version_tuple lib target.version)) [
        | inl bad ↦ rw (v, bad) refl
        | inr (remote, read) ↦
            rw (v, l, b, read, version_eq_refl remote)
              (ground (
                arith,
                newer_prerelease_same
                    (release_sequence lib here.release_label target.version (lib.trim here.channel))
                    (numeric_identifier lib here.build_id),
              ))
      ]

  -- A release that counts as newer has a version that reads, and one that is not below the installed
  -- version; if the versions are equal, the channel is not the stable one.
  pub is_newer_target_up :
      (target : UpdateTarget) (here : Installed)
      → is_newer_target lib target here ≡ true
      → (remote : Version) × ((local : Version) × ((version_tuple lib target.version ≡ some remote)
            × ((version_tuple lib here.version ≡ some local)
                × ((version_lt remote local ≡ false)
                    × ((version_lt local remote ≡ true)
                        ⊎ ((remote ≡ local)
                            × (text_eq (lib.trim here.channel) (codes "stable") ≡ false)))))))
  unfolding is_newer_target newer_of
  is_newer_target_up target here h = elim (Option-cases (version_tuple lib target.version)) [
    | inl bad ↦ absurd (ground arith)
    | inr (remote, read) ↦ elim (Option-cases (version_tuple lib here.version)) [
      | inl bad ↦ absurd (ground arith)
      | inr (local, found) ↦ elim (Bool-cases (version_eq remote local)) [
        | inl same ↦ (
          remote,
          (
            local,
            (
              read,
              (
                found,
                (
                  ground (arith, version_eq_eq remote local, version_lt_asym remote remote),
                  inr (version_eq_eq remote local same, ground arith),
                ),
              ),
            ),
          ),
        )
        | inr other ↦
            let up : version_lt local remote ≡ true = ground arith in
            (remote, (local, (read, (found, (version_lt_asym local remote up, inl up)))))
      ]
    ]
  ]
