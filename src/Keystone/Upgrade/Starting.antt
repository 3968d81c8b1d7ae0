-- ===== src/Keystone/Upgrade/Starting.antt =====
-- operators/keystone/internal/controller/reconcile_upgrade.go, isUpgrade and initiateUpgrade: the
-- first move of an upgrade, and the tags that are none.
use c5c3_forge.Prelude.{
  ◌≡◌, ◌≢◌, refl, inl, inr, false, String, arith, Bool-cases, str_eq-cases, str_eq_ne,
}
use c5c3_forge.Kube.Error.{Answer, ok, err}
use c5c3_forge.Kube.Condition.{ConditionMeta}
use c5c3_forge.Release.{Release, parse_release, is_sequential_upgrade, is_downgrade}
use c5c3_forge.Keystone.State.{no_phase, Keystone}
use c5c3_forge.Keystone.Upgrade.{
  is_upgrade, initiate_upgrade, by_path, by_target, by_installed, patch_differs,
}
use c5c3_forge.Release.Transition.{Minor, first, same_tag, patched}
use c5c3_forge.Keystone.Upgrade.Phases.{view, Move, stays, starts}

module _ {W : Type 0} (m : ConditionMeta) where
  by_path-Move :
      (from to : Release) (k : Keystone W)
      → k.upgrade_phase ≡ no_phase
      → parse_release k.flow.installed_release ≡ ok from
      → parse_release k.tag ≡ ok to
      → Move k.tag (view k) (view (by_path m from to k).0)
  by_path-Move from to k idle e t = elim (Bool-cases (is_downgrade from to)) [
    | inl d ↦ rw d (stays refl)
    | inr d ↦ elim (Bool-cases (is_sequential_upgrade from to)) [
      | inl n ↦
          rw (d, n)
            (starts idle
              record {
                from_release = from;
                to_release = to;
                from_parsed = e;
                to_parsed = t;
                next = n;
              }
              refl)
      | inr n ↦ rw (d, n) (stays refl)
    ]
  ]

  by_target-Move :
      (from : Release) (to : Answer Release) (k : Keystone W)
      → k.upgrade_phase ≡ no_phase
      → parse_release k.flow.installed_release ≡ ok from
      → parse_release k.tag ≡ to
      → Move k.tag (view k) (view (by_target m from to k).0)
  by_target-Move from (err x) k idle e t = stays refl
  by_target-Move from (ok to) k idle e t = by_path-Move from to k idle e t

  by_installed-Move :
      (from : Answer Release) (k : Keystone W)
      → k.upgrade_phase ≡ no_phase
      → parse_release k.flow.installed_release ≡ from
      → Move k.tag (view k) (view (by_installed m from k).0)
  by_installed-Move (err x) k idle e = stays refl
  by_installed-Move (ok from) k idle e = by_target-Move from (parse_release k.tag) k idle e refl

  -- An upgrade starts only from an installed release to the next one.
  pub initiate_upgrade-Move :
      (k : Keystone W)
      → k.upgrade_phase ≡ no_phase
      → Move k.tag (view k) (view (initiate_upgrade m k).0)
  unfolding initiate_upgrade
  initiate_upgrade-Move k idle =
      by_installed-Move (parse_release k.flow.installed_release) k idle refl

patch_differs-Minor :
    (from to : String) (a b : Answer Release)
    → parse_release from ≡ a
    → parse_release to ≡ b
    → patch_differs a b ≡ false
    → Minor from to
patch_differs-Minor from to (err x) b p q h = absurd (ground (arith, h))
patch_differs-Minor from to (ok a) (err x) p q h = absurd (ground (arith, h))
patch_differs-Minor from to (ok a) (ok b) p q h = patched a b p q (ground (arith, h))

-- Where isUpgrade says no, the tag may be recorded without an upgrade.
pub is_upgrade-Minor :
    {W : Type 0} (k : Keystone W)
    → k.tag ≢ ""
    → is_upgrade k ≡ false
    → Minor k.flow.installed_release k.tag
unfolding is_upgrade
is_upgrade-Minor k ne h = elim (str_eq-cases k.flow.installed_release "") [
  | inl (_, e) ↦ first e
  | inr (i, _) ↦ elim (str_eq-cases k.tag k.flow.installed_release) [
    | inl (_, e) ↦ same_tag e
    | inr (t, _) ↦
        patch_differs-Minor k.flow.installed_release k.tag _ _ refl refl
          (rw (str_eq_ne ne, i, t) at h)
  ]
]
