-- ===== src/Database/Provision/Gate.antt =====
-- internal/common/database/flow.go, ReconcileProvision: what it waits for.
use c5c3_forge.Prelude.{
  ◌≡◌, ◌≢◌, ◌↔◌, refl, sym, ap, subst, ◌∙◌, inl, inr, Bool, true, false, String, Option, none, some,
  arith, Bool-cases, List, str_eq-cases, pos,
}
use c5c3_forge.Kube.Error.{Answer, ok, err, is_not_found}
use c5c3_forge.Kube.Condition.{Condition, ConditionMeta}
use c5c3_forge.Kube.Outcome.{stops, stops-requeue_in}
use c5c3_forge.Conditions.{is_ready}
use c5c3_forge.Database.Flow.{Flow, with_cluster}
use c5c3_forge.Database.Provision.{
  ProvisionParams, ProvisionFlowParams, MariaDbApi, credentials_mode_dynamic, is_cluster_ready,
  ensure_database, ensure_database_user, reconcile_provision, provision_params, after_user,
  cluster_answer, readiness, then_grant, user_step, after_database, after_gate, by_mode,
}

module _ {W : Type 0} (m : ConditionMeta) (api : MariaDbApi W) (p : ProvisionFlowParams) where
  installed-after_user :
      (f : Flow W) (r : W × Answer Bool)
      → (after_user m api p f r).0.installed_release ≡ f.installed_release
  installed-after_user f (w, err e) = refl
  installed-after_user f (w, ok false) = refl
  installed-after_user f (w, ok true) = refl

  installed-user_step :
      (pp : ProvisionParams) (f : Flow W)
      → (user_step m api p pp f).0.installed_release ≡ f.installed_release
  installed-user_step pp f =
      elim (str_eq-cases p.database.credentials_mode credentials_mode_dynamic) [
        | inl (e, _) ↦ rw e refl
        | inr (e, _) ↦ rw e (installed-after_user f (ensure_database_user m api f.cluster pp))
      ]

  installed-after_database :
      (pp : ProvisionParams) (f : Flow W) (r : W × Answer Bool)
      → (after_database m api p pp f r).0.installed_release ≡ f.installed_release
  installed-after_database pp f (w, err e) = refl
  installed-after_database pp f (w, ok false) = refl
  installed-after_database pp f (w, ok true) = installed-user_step pp (with_cluster w f)

  installed-after_gate :
      (c : String) (f : Flow W) (r : Answer Bool)
      → (after_gate m api p c f r).0.installed_release ≡ f.installed_release
  installed-after_gate c f (err e) = refl
  installed-after_gate c f (ok false) = refl
  installed-after_gate c f (ok true) =
      installed-after_database (provision_params m api p c) f
        (ensure_database m api f.cluster (provision_params m api p c))

  installed-by_mode :
      (c : Option String) (f : Flow W)
      → (by_mode m api p c f).0.installed_release ≡ f.installed_release
  installed-by_mode none f = refl
  installed-by_mode (some c) f =
      installed-after_gate c f (is_cluster_ready m api f.cluster p.namespace c)

  pub installed-reconcile_provision :
      (f : Flow W) → (reconcile_provision m api p f).0.installed_release ≡ f.installed_release
  unfolding reconcile_provision
  installed-reconcile_provision f = installed-by_mode p.database.cluster_ref f

  -- The API server answers an object whose Ready condition is True.
  abbrev pub Ready : Answer (List Condition) → Type 0
  Ready (ok conditions) = is_ready m conditions ≡ true
  Ready (err e) = ⊥

  -- The User is ready when it is applied, and then the Grant; or the credentials are not the
  -- operator's.
  pub data UserReady (w : W) (pp : ProvisionParams) : Type 0 where
    dynamic : p.database.credentials_mode ≡ credentials_mode_dynamic → UserReady w pp
    granted :
        Ready (api.apply_user w pp).1
        → Ready (api.apply_grant (api.apply_user w pp).0 pp).1
        → UserReady w pp

  -- The database is another's; or the MariaDB cluster is ready, and then the Database when it is
  -- applied, and then the User and the Grant.
  pub data Provisioned (w : W) : Type 0 where
    brownfield : p.database.cluster_ref ≡ none → Provisioned w
    managed :
        (cluster : String)
        → p.database.cluster_ref ≡ some cluster
        → Ready (api.get_cluster w p.namespace cluster)
        → Ready (api.apply_database w (provision_params m api p cluster)).1
        → UserReady
            (api.apply_database w (provision_params m api p cluster)).0
            (provision_params m api p cluster)
        → Provisioned w

  -- What `managed` holds, for the clusterRef of the spec.
  abbrev Managed : W → Option String → Type 0
  Managed w none = Unit
  Managed w (some c) =
      Ready (api.get_cluster w p.namespace c)
      × (Ready (api.apply_database w (provision_params m api p c)).1
          × UserReady (api.apply_database w (provision_params m api p c)).0
              (provision_params m api p c))

  cluster_answer_iff :
      (c : String) (a : Answer (List Condition))
      → (cluster_answer m api p.namespace c a ≡ ok true) ↔ Ready a
  cluster_answer_iff c (ok conditions) = (λ h. cc h, λ h. ap ok h)
  cluster_answer_iff c (err e) = (
    λ h. elim (Bool-cases (is_not_found e)) [
      | inl n ↦ absurd (cc (rw n at h))
      | inr n ↦ absurd (cc (rw n at h))
    ],
    λ h. absurd h,
  )

  readiness_iff : (r : W × Answer (List Condition)) → ((readiness m api r).1 ≡ ok true) ↔ Ready r.1
  readiness_iff (w, ok conditions) = (λ h. cc h, λ h. ap ok h)
  readiness_iff (w, err e) = (λ h. absurd (cc h), λ h. absurd h)

  then_grant_iff :
      (pp : ProvisionParams) (r : W × Answer (List Condition))
      → ((then_grant m api pp (readiness m api r)).1 ≡ ok true)
        ↔ (Ready r.1 × Ready (api.apply_grant r.0 pp).1)
  then_grant_iff pp (w, err e) = (λ h. absurd (cc h), λ h. absurd h.0)
  then_grant_iff pp (w, ok conditions) = elim (Bool-cases (is_ready m conditions)) [
    | inl b ↦
        let grant = readiness_iff (api.apply_grant w pp) in
        rw b (λ h. (refl, grant.0 h), λ h. grant.1 h.1)
    | inr b ↦ rw b (λ h. absurd (cc h), λ h. absurd (cc h.0))
  ]

  module _ (waits_long : p.requeue_after ≢ pos 0) where
    after_user_iff :
        (f : Flow W) (r : W × Answer Bool)
        → (stops (after_user m api p f r).1 ≡ false) ↔ (r.1 ≡ ok true)
    after_user_iff f (w, err e) = (λ h. absurd (ground (arith, h)), λ q. absurd (cc q))
    after_user_iff f (w, ok false) = (
      λ h. absurd (ground (arith, h, stops-requeue_in p.requeue_after waits_long)),
      λ q. absurd (cc q),
    )
    after_user_iff f (w, ok true) = (λ h. refl, λ q. refl)

    user_step_iff :
        (pp : ProvisionParams) (f : Flow W)
        → (stops (user_step m api p pp f).1 ≡ false) ↔ UserReady f.cluster pp
    unfolding ensure_database_user
    user_step_iff pp f =
        let user = after_user_iff f (ensure_database_user m api f.cluster pp) in
        let grant = then_grant_iff pp (api.apply_user f.cluster pp) in
        elim (str_eq-cases p.database.credentials_mode credentials_mode_dynamic) [
          | inl (e, q) ↦ (λ h. dynamic q, λ u. rw e refl)
          | inr (e, ne) ↦ (
            λ h. by_user (grant.0 (user.0 (rw e at h))),
            λ u. rw e (user.1 (grant.1 (of_UserReady ne u))),
          )
        ]
      where
        by_user :
            Ready (api.apply_user f.cluster pp).1
              × Ready (api.apply_grant (api.apply_user f.cluster pp).0 pp).1
            → UserReady f.cluster pp
        by_user (u, g) = granted u g

        of_UserReady :
            p.database.credentials_mode ≢ credentials_mode_dynamic
            → UserReady f.cluster pp
            → Ready (api.apply_user f.cluster pp).1
              × Ready (api.apply_grant (api.apply_user f.cluster pp).0 pp).1
        of_UserReady ne (dynamic e) = absurd (ne e)
        of_UserReady ne (granted u g) = (u, g)

    after_database_iff :
        (pp : ProvisionParams) (f : Flow W) (r : W × Answer (List Condition))
        → (stops (after_database m api p pp f (readiness m api r)).1 ≡ false)
          ↔ (Ready r.1 × UserReady r.0 pp)
    after_database_iff pp f (w, err e) = (λ h. absurd (ground (arith, h)), λ h. absurd h.0)
    after_database_iff pp f (w, ok conditions) = elim (Bool-cases (is_ready m conditions)) [
      | inl b ↦
          let user = user_step_iff pp (with_cluster w f) in
          rw b (λ h. (refl, user.0 h), λ h. user.1 h.1)
      | inr b ↦ rw b (
        λ h. absurd (ground (arith, h, stops-requeue_in p.requeue_after waits_long)),
        λ h. absurd (cc h.0),
      )
    ]

    after_gate_iff :
        (c : String) (f : Flow W) (a : Answer Bool)
        → (stops (after_gate m api p c f a).1 ≡ false) ↔ (
            (a ≡ ok true)
            × (Ready (api.apply_database f.cluster (provision_params m api p c)).1
                × UserReady
                    (api.apply_database f.cluster (provision_params m api p c)).0
                    (provision_params m api p c)))
    unfolding ensure_database
    after_gate_iff c f (err e) = (λ h. absurd (ground (arith, h)), λ h. absurd (cc h.0))
    after_gate_iff c f (ok false) = (
      λ h. absurd (ground (arith, h, stops-requeue_in p.requeue_after waits_long)),
      λ h. absurd (cc h.0),
    )
    after_gate_iff c f (ok true) =
        let pp = provision_params m api p c in
        let rest = after_database_iff pp f (api.apply_database f.cluster pp) in
        (λ h. (refl, rest.0 h), λ h. rest.1 h.1)

    by_mode_iff :
        (c : Option String) (f : Flow W)
        → p.database.cluster_ref ≡ c
        → (stops (by_mode m api p c f).1 ≡ false) ↔ Provisioned f.cluster
    unfolding is_cluster_ready
    by_mode_iff none f e = (λ h. brownfield e, λ q. refl)
    by_mode_iff (some c) f e =
        let gate = after_gate_iff c f (is_cluster_ready m api f.cluster p.namespace c) in
        let cluster = cluster_answer_iff c (api.get_cluster f.cluster p.namespace c) in
        (
          λ h. let (g, (d, u)) = gate.0 h in managed c e (cluster.0 g) d u,
          λ q. let (g, (d, u)) = parts q in gate.1 (cluster.1 g, (d, u)),
        )
      where
        parts : Provisioned f.cluster → Managed f.cluster (some c)
        parts (brownfield n) = absurd (ground (arith, sym e ∙ n))
        parts (managed d q g x u) = subst (Managed f.cluster) (sym q ∙ e) (g, (x, u))

    -- Where a wait is not for the time zero, ReconcileProvision lets the pass go on exactly when
    -- the database is brownfield; or the MariaDB cluster is Ready, and so are, as the API server
    -- answers them when they are applied one after the other, the Database, and then the User and
    -- the Grant, unless the credentials are in Dynamic mode.
    pub reconcile_provision_iff :
        (f : Flow W) → (stops (reconcile_provision m api p f).1 ≡ false) ↔ Provisioned f.cluster
    unfolding reconcile_provision
    reconcile_provision_iff f = by_mode_iff p.database.cluster_ref f refl
