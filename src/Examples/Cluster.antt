-- ===== src/Examples/Cluster.antt =====
-- A cluster that keeps its Jobs in a list.
use c5c3_forge.Prelude.{
  true, false, Bool, ◌≡◌, refl, ap, inl, inr, Bool, ◌&&◌, List, [], ◌∷◌, String, none, Bool-cases,
  str_eq, eq_refl, if◌then◌else◌,
}
use c5c3_forge.Kube.Error.{is_not_found, Error, Answer, ok, err, api, not_found, reason_of}
use c5c3_forge.Job.{Job, JobApi}
use c5c3_forge.Job.Rerun.{JobLaws}
use c5c3_forge.Keystone.Database.Aborting.{DeleteLaws, IsLeaving, missing, leaving}

module _ {T : Type 0} (hash : T → String) where
  abbrev has_name : String → String → Job T → Bool
  has_name namespace name job = str_eq job.namespace namespace && str_eq job.name name

  abbrev absent_job : Error
  absent_job = api not_found "not found"

  unfoldable pub get_job : List (Job T) → String → String → Answer (Job T)
  get_job [] namespace name = err absent_job
  get_job (j ∷ js) namespace name =
      let rest = get_job js namespace name in if has_name namespace name j then ok j else rest

  unfoldable pub delete_job : List (Job T) → String → String → List (Job T)
  delete_job [] namespace name = []
  delete_job (j ∷ js) namespace name =
      let rest = delete_job js namespace name in
      if has_name namespace name j then rest else j ∷ rest

  abbrev pub fresh : Job T → Job T
  fresh job = record job { conditions = [] }

  abbrev pub cluster : JobApi (List (Job T)) T
  cluster = record {
    get = get_job;
    create = λ w job. (fresh job ∷ w, none);
    delete = λ w namespace name. (delete_job w namespace name, none);
    set_controller_reference = λ job. ok job;
    pod_spec_hash = hash;
  }

  pub get-create :
      (w w' : List (Job T)) (job : Job T)
      → fresh job ∷ w ≡ w'
      → get_job w' job.namespace job.name ≡ ok (fresh job)
  unfolding get_job
  get-create w w' job e = rw⁻¹ e (rw (eq_refl job.namespace, eq_refl job.name) refl)

  abbrev pub cluster_laws : JobLaws cluster
  cluster_laws = record {
    stored = λ w job. fresh job;
    get-create = λ w w' job e. get-create w w' job (ap (λ r. r.0) e);
    stored_annotations = λ w job. refl;
    stored_conditions = λ w job. refl;
    owned_name = λ job owned e. cc e;
    owned_namespace = λ job owned e. cc e;
  }

  get-delete_job :
      (w : List (Job T)) (namespace name : String)
      → get_job (delete_job w namespace name) namespace name ≡ err absent_job
  unfolding get_job delete_job
  get-delete_job [] namespace name = refl
  get-delete_job (j ∷ js) namespace name = elim (Bool-cases (has_name namespace name j)) [
    | inl e ↦ rw e (get-delete_job js namespace name)
    | inr e ↦ rw (e, e) (get-delete_job js namespace name)
  ]

  absent-delete_job :
      (w : List (Job T)) (namespace name ns other : String)
      → get_job w ns other ≡ err absent_job
      → get_job (delete_job w namespace name) ns other ≡ err absent_job
  unfolding get_job delete_job
  absent-delete_job [] namespace name ns other h = refl
  absent-delete_job (j ∷ js) namespace name ns other h = elim (Bool-cases (has_name ns other j)) [
    | inl e ↦ cc (rw e at h)
    | inr e ↦ elim (Bool-cases (has_name namespace name j)) [
      | inl d ↦ rw d (absent-delete_job js namespace name ns other (rw e at h))
      | inr d ↦ rw (d, e) (absent-delete_job js namespace name ns other (rw e at h))
    ]
  ]

  only_missing :
      (w : List (Job T)) (namespace name : String) {e : Error}
      → get_job w namespace name ≡ err e
      → get_job w namespace name ≡ err absent_job
  unfolding get_job
  only_missing [] namespace name h = refl
  only_missing (j ∷ js) namespace name h = elim (Bool-cases (has_name namespace name j)) [
    | inl e ↦ cc (rw e at h)
    | inr e ↦ rw e (only_missing js namespace name (rw e at h))
  ]

  -- A Job without finalizers goes at once.
  abbrev pub terminating : Job T → Bool
  terminating job = false

  not_found_missing : is_not_found absent_job ≡ true
  unfolding reason_of
  not_found_missing = refl

  is_leaving :
      {w : List (Job T)} {ns n : String}
      → get_job w ns n ≡ err absent_job
      → IsLeaving cluster terminating w ns n
  is_leaving h = missing absent_job h not_found_missing

  leaving-delete_job :
      (w : List (Job T)) (namespace name other : String)
      → IsLeaving cluster terminating w namespace other
      → IsLeaving cluster terminating (delete_job w namespace name) namespace other
  leaving-delete_job w namespace name other (missing e h n) =
      is_leaving
        (absent-delete_job w namespace name namespace other (only_missing w namespace other h))
  leaving-delete_job w namespace name other (leaving job h t) = absurd (cc t)

  pub cluster_delete_laws : DeleteLaws cluster terminating
  cluster_delete_laws = record {
    deleted = λ w namespace name e. is_leaving (get-delete_job w namespace name);
    absent = λ w namespace name x e n. absurd (cc e);
    stays = leaving-delete_job;
  }
