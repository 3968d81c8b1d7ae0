-- ===== src/Rotation/Guard.antt =====
-- internal/common/rotation/rotation.go: what a commit writes to the cluster.
use c5c3_forge.Prelude.{
  String, ℕ, ◌≡◌, refl, Bool, true, false, not, ◌&&◌, [], Option, none, some, if_cases, str_eq,
}
use c5c3_forge.Kube.Error.{Error, Answer, ok, err, is_not_found, is_conflict}
use c5c3_forge.Rotation.{
  Secret, SecretClient, annotation_of, CommitSpec, Commit, already_committed, committed,
  after_staging_delete, after_target_update, by_validity, by_time, commit_staged,
}

-- A property of the cluster that these writes do not break: an Update with a valid payload; and, of
-- a Secret whose name is a staging Secret's, an Update with no payload and the deletion.
pub record Guarded {W : Type 0} (client : SecretClient W) (spec : CommitSpec)
    (Staging : String → Type 0) (P : W → Type 0) : Type 0 where
  pub valid : (w : W) (s : Secret) → spec.validate s.payload ≡ none → P w → P (client.update w s).0
  pub empty : (w : W) (s : Secret) → Staging s.name → s.payload ≡ [] → P w → P (client.update w s).0
  pub delete : (w : W) (s : Secret) → Staging s.name → P w → P (client.delete_unchanged w s).0

module _ {W : Type 0} {client : SecretClient W} {spec : CommitSpec} {Staging : String → Type 0}
    {P : W → Type 0} (guarded : Guarded client spec Staging P) where
  after_staging_delete-P :
      (already : Bool) (c : Commit W) (r : W × Option Error)
      → P r.0
      → P (after_staging_delete client spec already c r).0.cluster
  after_staging_delete-P true c (w, none) h = h
  after_staging_delete-P false c (w, none) h = h
  after_staging_delete-P true c (w, some e) h =
      if_cases {A = Commit W × Answer Bool} (λ r. P r.0.cluster)
        (not (is_not_found e) && not (is_conflict e)) (λ _. h) (λ _. h)
  after_staging_delete-P false c (w, some e) h =
      if_cases {A = Commit W × Answer Bool} (λ r. P r.0.cluster)
        (not (is_not_found e) && not (is_conflict e)) (λ _. h) (λ _. h)

  after_target_update-P :
      (c : Commit W) (r : W × Option Error)
      → Staging c.staging.name
      → P r.0
      → P (after_target_update client spec c r).0.cluster
  after_target_update-P c (w, some e) named h = h
  after_target_update-P c (w, none) named h =
      after_staging_delete-P false (record c { cluster = w }) _ (guarded.delete w c.staging named h)

  by_validity-P :
      (c : Commit W) (v : Option Error)
      → spec.validate c.staging.payload ≡ v
      → Staging c.staging.name
      → P c.cluster
      → P (by_validity client spec c v).0.cluster
  by_validity-P c (some e) valid named h =
      if_cases {A = Commit W × Answer Bool} (λ r. P r.0.cluster) spec.clear_staging_on_reject
        (λ _. guarded.empty c.cluster _ named refl h) (λ _. h)
  by_validity-P c none valid named h =
      if_cases {A = Commit W × Answer Bool} (λ r. P r.0.cluster)
        (already_committed client spec c.staging c.target)
        (λ _. after_staging_delete-P true c _ (guarded.delete c.cluster c.staging named h))
        (λ _.
          after_target_update-P (record c { target = committed client spec c.staging c.target }) _
            named (guarded.valid c.cluster _ valid h))

  by_time-P :
      (c : Commit W) (a : Answer ℕ)
      → Staging c.staging.name
      → P c.cluster
      → P (by_time client spec c a).0.cluster
  by_time-P c (err e) named h = h
  by_time-P c (ok t) named h = by_validity-P c _ refl named h

  pub commit_staged-P :
      (c : Commit W)
      → Staging c.staging.name
      → P c.cluster
      → P (commit_staged client spec c).0.cluster
  unfolding commit_staged
  commit_staged-P c named h =
      if_cases {A = Commit W × Answer Bool} (λ r. P r.0.cluster)
        (str_eq (annotation_of c.staging) "") (λ _. h) (λ _. by_time-P c _ named h)
