-- ===== src/Rotation/Target.antt =====
-- internal/common/rotation/rotation.go: the target of a commit that reports no rotation.
use c5c3_forge.Prelude.{
  ℕ, ◌≡◌, refl, Bool, true, false, not, ◌&&◌, Option, none, some, if_cases, str_eq,
}
use c5c3_forge.Kube.Error.{Error, Answer, ok, err, is_not_found, is_conflict}
use c5c3_forge.Rotation.{
  Secret, SecretClient, annotation_of, CommitSpec, Commit, already_committed, committed, finished,
  after_staging_delete, after_target_update, by_validity, by_time, commit_staged,
}

module _ {W : Type 0} (client : SecretClient W) (spec : CommitSpec) (target : Secret) where
  -- Where no rotation is reported, the target in memory is this one.
  abbrev Kept : Commit W × Answer Bool → Type 0
  Kept r = r.1 ≡ ok false → r.0.target ≡ target

  finished-Kept :
      (already : Bool) (c : Commit W)
      → (already ≡ true → c.target ≡ target)
      → Kept (finished client spec already c)
  finished-Kept true c h _ = h refl
  finished-Kept false c h e = absurd (cc e)

  after_staging_delete-Kept :
      (already : Bool) (c : Commit W) (r : W × Option Error)
      → (already ≡ true → c.target ≡ target)
      → Kept (after_staging_delete client spec already c r)
  after_staging_delete-Kept already c (w, none) h =
      finished-Kept already (record c { cluster = w }) h
  after_staging_delete-Kept already c (w, some e) h =
      if_cases {A = Commit W × Answer Bool} Kept (not (is_not_found e) && not (is_conflict e))
        (λ _ x. absurd (cc x)) (λ _. finished-Kept already (record c { cluster = w }) h)

  after_target_update-Kept :
      (c : Commit W) (r : W × Option Error) → Kept (after_target_update client spec c r)
  after_target_update-Kept c (w, some e) = λ x. absurd (cc x)
  after_target_update-Kept c (w, none) =
      after_staging_delete-Kept false (record c { cluster = w })
        (client.delete_unchanged w c.staging) (λ x. absurd (cc x))

  by_validity-Kept :
      (c : Commit W) (v : Option Error) → c.target ≡ target → Kept (by_validity client spec c v)
  by_validity-Kept c (some e) h =
      if_cases {A = Commit W × Answer Bool} Kept spec.clear_staging_on_reject (λ _ _. h) (λ _ _. h)
  by_validity-Kept c none h =
      if_cases {A = Commit W × Answer Bool} Kept (already_committed client spec c.staging c.target)
        (λ _.
          after_staging_delete-Kept true c (client.delete_unchanged c.cluster c.staging) (λ _. h))
        (λ _.
          after_target_update-Kept (record c { target = committed client spec c.staging c.target })
            (client.update c.cluster (committed client spec c.staging c.target)))

  by_time-Kept : (c : Commit W) (a : Answer ℕ) → c.target ≡ target → Kept (by_time client spec c a)
  by_time-Kept c (err e) h = λ _. h
  by_time-Kept c (ok t) h = by_validity-Kept c (spec.validate c.staging.payload) h

  pub commit_staged-Kept : (c : Commit W) → c.target ≡ target → Kept (commit_staged client spec c)
  unfolding commit_staged
  commit_staged-Kept c h =
      if_cases {A = Commit W × Answer Bool} Kept (str_eq (annotation_of c.staging) "") (λ _ _. h)
        (λ _. by_time-Kept c (client.parse_time (annotation_of c.staging)) h)
