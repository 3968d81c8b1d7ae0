-- ===== src/Examples/HealthCheck.antt =====
-- The health check at concrete inputs: a CR that answers at 100, and its next pass at 150.
use c5c3_forge.Prelude.{◌≡◌, ◌≢◌, ◌⊎◌, refl, false, [], ◌∷◌, none, pos, ℕ, true}
use c5c3_forge.Kube.Outcome.{stops}
use c5c3_forge.HealthCheck.{status_code, Meeting, ProbeFlowParams, reconcile_probe, is_success}
use c5c3_forge.HealthCheck.Fresh.{Run, cache_after, probes_after}
use c5c3_forge.HealthCheck.Answer.{Answered, Recent, reconcile_probe-Fresh}
use c5c3_forge.Examples.Conditions.{meta}

abbrev keystone_probe : ProbeFlowParams
keystone_probe = record {
  key = "openstack/keystone";
  uid = "1";
  subject = "Keystone API";
  endpoint_configured = true;
  probe_endpoint = "http://keystone:5000/v3";
  generation = 1;
  condition_type = "KeystoneAPIReady";
  healthy_reason = "APIHealthy";
  unhealthy_reason = "APIUnhealthy";
  cache_ttl = 100;
  requeue_after = pos 10;
}

-- An answer with a status, by the two readings of the clock.
abbrev answer : ℕ → ℕ → ℕ → Meeting
answer code hit_at stored_at = record {
  request_error = none;
  reply = status_code code;
  parent_error = none;
  hit_at = hit_at;
  stored_at = stored_at;
}

abbrev first_run : Run
first_run = record { params = keystone_probe; meeting = answer 200 90 100; conditions = [] }

asks : keystone_probe.requeue_after ≢ pos 0
asks e = cc e

goes_on :
    stops
      (reconcile_probe meta keystone_probe
        (answer 200 150 160)
        (record { conditions = []; cache = cache_after meta (first_run ∷ []) })).1
    ≡ false
unfolding reconcile_probe is_success c5c3_forge.Examples.Conditions.find
goes_on = refl

reconcile_probe-Fresh_example :
    Answered (answer 200 150 160)
    ⊎ Recent keystone_probe (answer 200 150 160) (probes_after meta (first_run ∷ []))
reconcile_probe-Fresh_example =
    reconcile_probe-Fresh meta keystone_probe (answer 200 150 160) asks (first_run ∷ []) [] goes_on
