-- ===== src/HealthCheck/Answer.antt =====
-- internal/common/healthcheck/flow.go: what stands behind a pass of ReconcileProbe that goes on.
use c5c3_forge.Prelude.{
  ◌+◌, ◌≤◌, ◌<◌, ◌≡◌, ◌≢◌, ◌⊎◌, refl, inl, inr, true, false, List, Option, none, some, pos,
  Bool-cases, eq_iff, lookup, arith,
}
use c5c3_forge.Kube.Error.{Error}
use c5c3_forge.Kube.Condition.{Condition, ConditionMeta}
use c5c3_forge.Kube.Outcome.{stops, stops-requeue_in}
use c5c3_forge.HealthCheck.{
  ProbeEntry, fits, hit, is_success, Reply, status_code, no_reply, Meeting, ProbeFlowParams,
  ProbeState, cache_hit, by_reply, by_request, reconcile_probe,
}
use c5c3_forge.HealthCheck.Fresh.{Probes, Among, Run, cache_after, probes_after, cache_after-Among}

-- The reply is a success.
abbrev pub Success : Reply → Type 0
Success (status_code n) = (200 ≤ n) × (n < 300)
Success (no_reply e) = ⊥

-- The pass sent a request, and the service answered it with a success.
pub record Answered (t : Meeting) : Type 0 where
  pub sent : t.request_error ≡ none
  pub success : Success t.reply

-- One of the probes was a success for this CR, its UID and its endpoint, less than the TTL ago.
pub record Recent (p : ProbeFlowParams) (t : Meeting) (probes : Probes) : Type 0 where
  pub entry : ProbeEntry
  pub among : Among p.key entry probes
  pub uid : entry.uid ≡ p.uid
  pub endpoint : entry.endpoint ≡ p.probe_endpoint
  pub in_time : t.hit_at < entry.probed_at + p.cache_ttl

fits-Recent :
    (p : ProbeFlowParams) (t : Meeting) (probes : Probes) (o : Option ProbeEntry)
    → ((e : ProbeEntry) → o ≡ some e → Among p.key e probes)
    → fits p.uid p.probe_endpoint p.cache_ttl t.hit_at o ≡ true
    → Recent p t probes
fits-Recent p t probes none from h = absurd (cc h)
fits-Recent p t probes (some e) from h = record {
  entry = e;
  among = from e refl;
  uid = (eq_iff e.uid p.uid).0 (ground arith);
  endpoint = (eq_iff e.endpoint p.probe_endpoint).0 (ground arith);
  in_time = ground arith;
}

module _ (m : ConditionMeta) (p : ProbeFlowParams) (t : Meeting)
    (asks : p.requeue_after ≢ pos 0) where
  by_reply-Success :
      (reply : Reply) (parent : Option Error) (s : ProbeState)
      → stops (by_reply m p t reply parent s).1 ≡ false
      → Success reply
  unfolding is_success
  by_reply-Success (no_reply e) (some cancelled) s h = absurd (cc h)
  by_reply-Success (no_reply e) none s h = absurd (cc (stops-requeue_in p.requeue_after asks, h))
  by_reply-Success (status_code n) parent s h = elim (Bool-cases (is_success n)) [
    | inl b ↦ (ground arith, ground arith)
    | inr b ↦ absurd (cc (stops-requeue_in p.requeue_after asks, rw b at h))
  ]

  by_request-Answered :
      (s : ProbeState) (request : Option Error)
      → t.request_error ≡ request
      → stops (by_request m p t request s).1 ≡ false
      → Answered t
  by_request-Answered s (some e) q h = absurd (cc h)
  by_request-Answered s none q h = record {
    sent = q;
    success = by_reply-Success t.reply t.parent_error s h;
  }

  -- A pass that goes on has either had a success, or found a fresh one in the cache.
  ask-Answered :
      (s : ProbeState) (probes : Probes)
      → (cache_hit m p t s ≡ true → Recent p t probes)
      → stops (reconcile_probe m p t s).1 ≡ false
      → Answered t ⊎ Recent p t probes
  unfolding reconcile_probe
  ask-Answered s probes fresh h = elim (Bool-cases p.endpoint_configured) [
    | inr c ↦ absurd (cc (stops-requeue_in p.requeue_after asks, rw c at h))
    | inl c ↦ elim (Bool-cases (cache_hit m p t s)) [
      | inl x ↦ inr (fresh x)
      | inr x ↦ inl (by_request-Answered s t.request_error refl (rw (c, x) at h))
    ]
  ]

  -- Whatever passes of whatever CRs came before, from the empty cache, and whatever they met: when a
  -- pass of ReconcileProbe does not stop its chain, then it sent a request and the service answered
  -- with a status from 200 to 299, or one of the earlier passes got such an answer for the same key,
  -- UID and endpoint, less than the TTL before. The requeue interval is not zero.
  pub reconcile_probe-Fresh :
      (rs : List Run) (conds : List Condition)
      → stops (reconcile_probe m p t (record { conditions = conds; cache = cache_after m rs })).1
        ≡ false
      → Answered t ⊎ Recent p t (probes_after m rs)
  unfolding hit
  reconcile_probe-Fresh rs conds h =
      ask-Answered (record { conditions = conds; cache = cache_after m rs }) (probes_after m rs)
        (λ x.
          fits-Recent p t (probes_after m rs) (lookup p.key (cache_after m rs))
            (cache_after-Among m rs p.key) (ground arith))
        h
