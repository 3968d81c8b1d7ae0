-- ===== src/Rotation/Once.antt =====
-- internal/common/rotation/rotation.go: a staged payload is committed once.
use c5c3_forge.Prelude.{
  ℕ, ◌≡◌, ◌≢◌, refl, ap, ◌∙◌, inl, inr, Bool, true, false, not, ◌&&◌, List, [], ◌∷◌, String, Option,
  none, some, map, Bool-cases, if_cases, str_eq, eq_refl, has, Distinct, lookup, lookup-insert,
  arith,
}
use c5c3_forge.Kube.Error.{Error, Answer, ok, err, is_not_found, is_conflict}
use c5c3_forge.Rotation.{
  SecretClient, same_value, completed_annotation, annotation_of, entries_in, equal_data, CommitSpec,
  Commit, already_committed, committed, after_staging_delete, delete_staging, after_target_update,
  cleared, rejected, accepted, by_validity, by_time, commit_staged,
}

-- The keys of a Go map.
abbrev pub key_list : List (String × String) → List String
key_list = map (λ e. e.0)

entries_in_more :
    (m n : List (String × String)) (k v : String)
    → has k (key_list m) ≡ false
    → entries_in m ((k, v) ∷ n) ≡ entries_in m n
unfolding entries_in has lookup
entries_in_more [] n k v h = refl
entries_in_more ((key, value) ∷ m) n k v h = elim (Bool-cases (str_eq k key)) [
  | inl e ↦ cc (rw e at h)
  | inr e ↦
      rw e (ap (λ b. same_value value (lookup key n) && b) (entries_in_more m n k v (rw e at h)))
]

entries_in_self : (m : List (String × String)) → Distinct (key_list m) → entries_in m m ≡ true
unfolding entries_in lookup
entries_in_self [] d = refl
entries_in_self ((k, v) ∷ m) (fresh, d) =
    rw (eq_refl k, eq_refl v) (entries_in_more m m k v fresh ∙ entries_in_self m d)

-- Data whose keys differ, as those of a Go map do, equal themselves.
equal_data_refl : (m : List (String × String)) → Distinct (key_list m) → equal_data m m ≡ true
unfolding equal_data
equal_data_refl m d = rw (entries_in_self m d) (ground arith)

module _ {W : Type 0} (client : SecretClient W) (spec : CommitSpec) where
  -- What holds of a commit that was applied, and of the two Secrets after it.
  record Applied (c d : Commit W) : Type 0 where
    complete : str_eq (annotation_of c.staging) "" ≡ false
    time : ℕ
    parsed : client.parse_time (annotation_of c.staging) ≡ ok time
    valid : spec.validate c.staging.payload ≡ none
    staging : d.staging ≡ c.staging
    target : d.target ≡ committed client spec c.staging c.target

  -- The deletion of the staging Secret changes neither Secret in memory.
  SameSecrets : Commit W → Commit W → Type 0
  SameSecrets c d = (d.staging ≡ c.staging) × (d.target ≡ c.target)

  after_staging_delete-SameSecrets :
      (already : Bool) (c : Commit W) (r : W × Option Error)
      → SameSecrets c (after_staging_delete client spec already c r).0
  unfolding SameSecrets
  after_staging_delete-SameSecrets true c (w, none) = (refl, refl)
  after_staging_delete-SameSecrets false c (w, none) = (refl, refl)
  after_staging_delete-SameSecrets true c (w, some e) =
      if_cases {A = Commit W × Answer Bool} (λ r. SameSecrets c r.0)
        (not (is_not_found e) && not (is_conflict e)) (λ _. (refl, refl)) (λ _. (refl, refl))
  after_staging_delete-SameSecrets false c (w, some e) =
      if_cases {A = Commit W × Answer Bool} (λ r. SameSecrets c r.0)
        (not (is_not_found e) && not (is_conflict e)) (λ _. (refl, refl)) (λ _. (refl, refl))

  after_target_update-SameSecrets :
      (c : Commit W) (r : W × Option Error) → SameSecrets c (after_target_update client spec c r).0
  unfolding SameSecrets
  after_target_update-SameSecrets c (w, some e) = (refl, refl)
  after_target_update-SameSecrets c (w, none) =
      after_staging_delete-SameSecrets false (record c { cluster = w }) _

  -- A payload that is on the target already is not applied again.
  after_staging_delete_ne :
      (c : Commit W) (r : W × Option Error)
      → (after_staging_delete client spec true c r).1 ≢ ok true
  after_staging_delete_ne c (w, none) = λ h. cc h
  after_staging_delete_ne c (w, some e) =
      if_cases {A = Commit W × Answer Bool} (λ r. r.1 ≢ ok true)
        (not (is_not_found e) && not (is_conflict e)) (λ _ h. cc h) (λ _ h. cc h)

  accepted-Applied :
      (c : Commit W) (t : ℕ)
      → str_eq (annotation_of c.staging) "" ≡ false
      → client.parse_time (annotation_of c.staging) ≡ ok t
      → spec.validate c.staging.payload ≡ none
      → (accepted client spec c).1 ≡ ok true
      → Applied c (accepted client spec c).0
  unfolding SameSecrets
  accepted-Applied c t complete parsed valid =
      if_cases {A = Commit W × Answer Bool} (λ r. r.1 ≡ ok true → Applied c r.0)
        (already_committed client spec c.staging c.target)
        (λ _ h. absurd (after_staging_delete_ne c _ h))
        (λ _ h.
          let d = record c { target = committed client spec c.staging c.target } in
          let (s, g) = after_target_update-SameSecrets d (client.update c.cluster d.target) in
          record {
            complete = complete;
            time = t;
            parsed = parsed;
            valid = valid;
            staging = s;
            target = g;
          })

  cleared_ne : (name : String) (failure : Option Error) → cleared client spec name failure ≢ ok true
  cleared_ne name none = λ h. cc h
  cleared_ne name (some e) =
      if_cases {A = Answer Bool} (λ a. a ≢ ok true) (not (is_conflict e) && not (is_not_found e))
        (λ _ h. cc h) (λ _ h. cc h)

  rejected_ne : (c : Commit W) (e : Error) → (rejected client spec c e).1 ≢ ok true
  rejected_ne c e =
      if_cases {A = Commit W × Answer Bool} (λ r. r.1 ≢ ok true) spec.clear_staging_on_reject
        (λ _. cleared_ne _ _) (λ _ h. cc h)

  by_validity-Applied :
      (c : Commit W) (t : ℕ) (v : Option Error)
      → str_eq (annotation_of c.staging) "" ≡ false
      → client.parse_time (annotation_of c.staging) ≡ ok t
      → spec.validate c.staging.payload ≡ v
      → (by_validity client spec c v).1 ≡ ok true
      → Applied c (by_validity client spec c v).0
  by_validity-Applied c t (some e) complete parsed valid h = absurd (rejected_ne c e h)
  by_validity-Applied c t none complete parsed valid h =
      accepted-Applied c t complete parsed valid h

  by_time-Applied :
      (c : Commit W) (a : Answer ℕ)
      → str_eq (annotation_of c.staging) "" ≡ false
      → client.parse_time (annotation_of c.staging) ≡ a
      → (by_time client spec c a).1 ≡ ok true
      → Applied c (by_time client spec c a).0
  by_time-Applied c (err e) complete parsed h = cc h
  by_time-Applied c (ok t) complete parsed h = by_validity-Applied c t _ complete parsed refl h

  commit_staged-Applied :
      (c : Commit W)
      → (commit_staged client spec c).1 ≡ ok true
      → Applied c (commit_staged client spec c).0
  unfolding commit_staged
  commit_staged-Applied c =
      if_cases {A = Commit W × Answer Bool} (λ r. r.1 ≡ ok true → Applied c r.0)
        (str_eq (annotation_of c.staging) "") (λ _ h. cc h)
        (λ complete h. by_time-Applied c _ complete refl h)

  already_there :
      (c d : Commit W)
      → Applied c d
      → Distinct (key_list c.staging.payload)
      → already_committed client spec d.staging d.target ≡ true
  already_there c d a distinct =
      rw (a.staging, a.target)
        (rw
          (
            equal_data_refl c.staging.payload distinct,
            lookup-insert completed_annotation completed_annotation (annotation_of c.staging)
                c.target.annotations,
            eq_refl completed_annotation,
            eq_refl (annotation_of c.staging),
          )
          refl)

  commit_staged_again :
      (c d : Commit W)
      → Applied c d
      → Distinct (key_list c.staging.payload)
      → commit_staged client spec d ≡ delete_staging client spec true d
  unfolding commit_staged
  commit_staged_again c d a distinct =
      let complete : str_eq (annotation_of d.staging) "" ≡ false = rw a.staging a.complete in
      let parsed : client.parse_time (annotation_of d.staging) ≡ ok a.time =
        rw a.staging a.parsed in
      let valid : spec.validate d.staging.payload ≡ none = rw a.staging a.valid in
      rw (complete, parsed, valid, already_there c d a distinct) refl

  -- A staged payload is committed once: after a commit that was applied, committing the same
  -- staging Secret again, as when its deletion was refused, only retries the deletion. The keys of
  -- the payload differ, as those of a Go map do.
  pub commit_staged_once :
      (c : Commit W)
      → Distinct (key_list c.staging.payload)
      → (commit_staged client spec c).1 ≡ ok true
      → commit_staged client spec (commit_staged client spec c).0
        ≡ delete_staging client spec true (commit_staged client spec c).0
  commit_staged_once c distinct h = commit_staged_again c _ (commit_staged-Applied c h) distinct
