-- ===== src/Examples/Secrets.antt =====
-- Secret gates and routes at work.
use c5c3_forge.Prelude.{ℕ, ◌≡◌, ◌↔◌, refl, true, [], ◌∷◌, none, All, pos, lookup}
use c5c3_forge.Kube.Error.{ok, err, api, not_found, reason_of}
use c5c3_forge.Kube.Condition.{status_true}
use c5c3_forge.Conditions.Laws.{HasStatus}
use c5c3_forge.Kube.Condition.{status_false}
use c5c3_forge.Secrets.{
  SecretsClient, CredentialGateSpec, gate_credentials, gate_credential, gate_synced_secret,
  is_secret_ready, wait_for_external_secret, has_keys,
}
use c5c3_forge.Secrets.Gates.{Usable, gate_credentials_iff, gate_credentials_blocks}
use c5c3_forge.Gateway.{
  RouteClient, RouteFlowParams, reconcile_http_route, is_http_route_accepted, parent_accepted,
}
use c5c3_forge.Gateway.Exposure.{Exposed, route_shown, reconcile_http_route_iff}
use c5c3_forge.Examples.Conditions.{meta, meta_laws, cond}

-- A cluster that is a number: every Secret has a username, and no ExternalSecret exists.
abbrev usernames : SecretsClient ℕ
usernames = record {
  get_secret = λ w namespace name. ok (("username", "keystone") ∷ []);
  get_external_secret = λ w namespace name. err (api not_found "no ExternalSecret");
  get_cluster_store = λ w name. ok [];
  get_store = λ w namespace name. ok [];
}

abbrev database_secret : CredentialGateSpec
database_secret = record {
  namespace = "openstack";
  name = "ks-db";
  reason = "WaitingForDBCredentials";
  noun = "Database";
  waiting_msg = "Waiting for ESO to sync the database credentials";
  expected_keys = "username" ∷ [];
}

abbrev admin_secret : CredentialGateSpec
admin_secret = record database_secret { name = "ks-admin"; expected_keys = "password" ∷ [] }

gate_credentials_iff_example :
    ((gate_credentials usernames meta 1 "SecretsReady" 0 (database_secret ∷ []) []).1 ≡ ok true)
    ↔ All (Usable usernames 0) (database_secret ∷ [])
gate_credentials_iff_example =
    gate_credentials_iff usernames 0 meta 1 "SecretsReady" (database_secret ∷ []) []

gate_credentials_blocks_example :
    HasStatus meta
      (gate_credentials usernames meta 1 "SecretsReady" 0
        (database_secret ∷ admin_secret ∷ [])
        []).0
      "SecretsReady"
      status_false
unfolding gate_credentials gate_credential gate_synced_secret is_secret_ready
    wait_for_external_secret has_keys lookup reason_of
gate_credentials_blocks_example =
    gate_credentials_blocks usernames 0 meta 1 "SecretsReady" meta_laws
      (database_secret ∷ admin_secret ∷ []) [] refl

-- A route that its one parent has accepted.
abbrev accepting : RouteClient ℕ
accepting = record {
  apply_route = λ w. (w, ok ((cond "Accepted" status_true ∷ []) ∷ []));
  delete_route = λ w namespace name. (w, none);
}

abbrev route : RouteFlowParams
route = record {
  gateway_api_available = true;
  gateway_configured = true;
  route_name = "ks";
  route_namespace = "openstack";
  exposure_noun = "API";
  generation = 1;
  condition_type = "HTTPRouteReady";
  requeue_accepted = pos 10;
}

reconcile_http_route_iff_example :
    (route_shown meta meta_laws accepting route (reconcile_http_route meta accepting route [] 0)
      ≡ true)
    ↔ Exposed accepting 0 true true
unfolding reconcile_http_route is_http_route_accepted parent_accepted
reconcile_http_route_iff_example = reconcile_http_route_iff meta meta_laws accepting route [] 0 refl
