-- ===== src/HealthCheck.antt =====
-- internal/common/healthcheck: the probe of a service's API, with the cache of the last successful
-- probe of each CR. Times and durations are nanoseconds; a clock reading counts from the zero time.
pub mod Answer
pub mod Fresh
use Prim.Native.String.{len, find}
use c5c3_forge.Prelude.{
  ℕ, ◌+◌, Bool, true, false, not, ◌&&◌, List, [], ◌∷◌, String, Option, none, some, ℤ, ltb, leb,
  str_eq, lookup, insert, if◌then◌else◌,
}
use c5c3_forge.Kube.Text.{concat}
use c5c3_forge.Kube.Error.{Error, wrap}
use c5c3_forge.Kube.Condition.{Condition, ConditionMeta, Status, status_true, status_false}
use c5c3_forge.Kube.Outcome.{Outcome, done, returns, fails, requeue_in}
use c5c3_forge.Conditions.{holds, set_condition, get_condition}
use c5c3_forge.Release.Atoi.{decimal}
use c5c3_forge.Database.Flow.{condition}

-- probeEntry.
pub record ProbeEntry : Type 0 where
  pub uid : String
  pub endpoint : String
  pub probed_at : ℕ

-- ProbeCache.entries. A key is the namespace and the name of a CR, as one text.
abbrev pub ProbeCache : Type 0
ProbeCache = List (String × ProbeEntry)

-- strings.Contains.
abbrev contains : String → String → Bool
contains s part = leb (find s part) (len s)

abbrev pub fits : String → String → ℕ → ℕ → Option ProbeEntry → Bool
fits uid endpoint ttl now none = false
fits uid endpoint ttl now (some entry) =
    str_eq entry.uid uid && str_eq entry.endpoint endpoint && ltb now (entry.probed_at + ttl)

-- Hit, at the time `now`: now - probedAt < ttl.
unfoldable pub hit : ProbeCache → String → String → String → ℕ → ℕ → Bool
hit cache key uid endpoint ttl now = fits uid endpoint ttl now (lookup key cache)

-- Store, at the time `now`.
unfoldable pub store : ProbeCache → String → String → String → ℕ → ProbeCache
store cache key uid endpoint now =
    insert key (record { uid = uid; endpoint = endpoint; probed_at = now }) cache

-- Evict.
unfoldable pub evict : ProbeCache → String → ProbeCache
evict [] key = []
evict (entry ∷ entries) key =
    let rest = evict entries key in if str_eq entry.0 key then rest else entry ∷ rest

-- An error of the HTTP client: what errors.Is and errors.As find in it, and its text.
pub record ProbeError : Type 0 where
  pub deadline_exceeded : Bool
  pub dns_error : Bool
  pub text : String

-- ClassifyError: the reason and the message.
unfoldable pub classify_error : ProbeError → String × String
classify_error e =
    if e.deadline_exceeded
    then ("HealthCheckTimeout", "health check timed out")
    else if e.dns_error
    then ("EndpointNotReady", "endpoint not resolvable")
    else if contains e.text "connection refused"
    then ("ConnectionFailed", concat ("connection failed: " ∷ e.text ∷ []))
    else ("HealthCheckFailed", concat ("health check failed: " ∷ e.text ∷ []))

-- What the HTTP client answers: a status code, or an error.
pub data Reply : Type 0 where
  status_code : ℕ → Reply
  no_reply : ProbeError → Reply

-- resp.StatusCode >= 200 && resp.StatusCode < 300.
unfoldable pub is_success : ℕ → Bool
is_success n = leb 200 n && ltb n 300

-- What a pass meets: the error of http.NewRequestWithContext, the reply, the error of the parent
-- context after it, and the readings of the clock in Hit and in Store.
pub record Meeting : Type 0 where
  pub request_error : Option Error
  pub reply : Reply
  pub parent_error : Option Error
  pub hit_at : ℕ
  pub stored_at : ℕ

-- ProbeFlowParams, but for the client, the cache and the conditions.
pub record ProbeFlowParams : Type 0 where
  pub key : String
  pub uid : String
  pub subject : String
  pub endpoint_configured : Bool
  pub probe_endpoint : String
  pub generation : ℕ
  pub condition_type : String
  pub healthy_reason : String
  pub unhealthy_reason : String
  pub cache_ttl : ℕ
  pub requeue_after : ℤ

-- The state of a pass: the CR's conditions and the cache, which the CRs share.
pub record ProbeState : Type 0 where
  pub conditions : List Condition
  pub cache : ProbeCache

module _ (m : ConditionMeta) (p : ProbeFlowParams) (t : Meeting) where
  -- cacheHit.
  abbrev pub cache_hit : ProbeState → Bool
  cache_hit s =
      holds (get_condition m s.conditions p.condition_type)
      && hit s.cache p.key p.uid p.probe_endpoint p.cache_ttl t.hit_at

  abbrev pub report : Status → String → String → List Condition → List Condition
  report status reason message conds =
      set_condition m conds (condition p.condition_type p.generation status reason message)

  abbrev pub healthy : List Condition → List Condition
  healthy =
      report status_true p.healthy_reason
        (concat (p.subject ∷ " is responding at " ∷ p.probe_endpoint ∷ []))

  -- A failed probe evicts.
  abbrev pub unhealthy : String → String → ProbeState → ProbeState × Outcome
  unhealthy reason message s = (
    record {
      conditions = report status_false reason message s.conditions;
      cache = evict s.cache p.key;
    },
    returns (requeue_in p.requeue_after),
  )

  abbrev pub by_reply : Reply → Option Error → ProbeState → ProbeState × Outcome
  by_reply (no_reply e) (some cancelled) s = (s, fails cancelled)
  by_reply (no_reply e) none s = unhealthy (classify_error e).0 (classify_error e).1 s
  by_reply (status_code n) parent s =
      if is_success n
      then (
        record {
          conditions = healthy s.conditions;
          cache = store s.cache p.key p.uid p.probe_endpoint t.stored_at;
        },
        done,
      )
      else unhealthy p.unhealthy_reason (concat (p.subject ∷ " returned HTTP " ∷ decimal n ∷ [])) s

  abbrev pub by_request : Option Error → ProbeState → ProbeState × Outcome
  by_request (some e) s = (s, fails (wrap "building health check request: " e))
  by_request none s = by_reply t.reply t.parent_error s

  -- ReconcileProbe.
  unfoldable pub reconcile_probe : ProbeState → ProbeState × Outcome
  reconcile_probe s =
      if not p.endpoint_configured
      then (
        record s {
          conditions =
              report status_false "EndpointNotReady" "endpoint not yet configured" s.conditions;
        },
        returns (requeue_in p.requeue_after),
      )
      else if cache_hit s
      then (record s { conditions = healthy s.conditions }, done)
      else by_request t.request_error s
