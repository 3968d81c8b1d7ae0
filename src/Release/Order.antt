-- ===== src/Release/Order.antt =====
-- internal/common/release/release.go: the releases in a line, two a year.
use c5c3_forge.Prelude.{ℕ, ◌+◌, ◌*◌, ◌≤◌, ◌<◌, ◌≡◌, ◌↔◌, true, arith}
use c5c3_forge.Release.{Release, is_sequential_upgrade, is_downgrade, is_patch_only}

-- The place of a release in the line of all releases.
abbrev pub ordinal : Release → ℕ
ordinal r = 2 * r.year + r.minor

-- What ParseRelease guarantees of the minor.
pub record IsValid (r : Release) : Type 0 where
  pub year : 2010 ≤ r.year
  pub minor_from : 1 ≤ r.minor
  pub minor_to : r.minor ≤ 2

module _ (from to : Release) (f : IsValid from) (t : IsValid to) where
  sequential_next : is_sequential_upgrade from to ≡ true → ordinal to ≡ ordinal from + 1
  unfolding is_sequential_upgrade
  sequential_next h = ground arith

  next_sequential : ordinal to ≡ ordinal from + 1 → is_sequential_upgrade from to ≡ true
  unfolding is_sequential_upgrade
  next_sequential h = ground arith

  -- For two valid releases: an upgrade is sequential exactly when the target is the next release
  -- of the line, a downgrade exactly when it is an earlier one, and patch-only exactly when it is
  -- the same one.
  pub transition_iff :
      ((is_sequential_upgrade from to ≡ true) ↔ (ordinal to ≡ ordinal from + 1))
      × ((is_downgrade from to ≡ true) ↔ (ordinal to < ordinal from))
      × ((is_patch_only from to ≡ true) ↔ (ordinal to ≡ ordinal from))
  unfolding is_downgrade is_patch_only
  transition_iff = (
    (sequential_next, next_sequential),
    (λ h. ground arith, λ h. ground arith),
    (λ h. ground arith, λ h. ground arith),
  )
