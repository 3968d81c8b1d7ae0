-- ===== src/Gateway.antt =====
-- internal/common/gateway: the HTTPRoute that exposes a service through a Gateway. `W` is the
-- cluster. The route that is built and applied is part of the client.
pub mod Exposure
use c5c3_forge.Prelude.{
  ℕ, Bool, true, false, not, ◌&&◌, List, [], ◌∷◌, String, Option, none, some, ℤ, str_eq,
  if◌then◌else◌,
}
use c5c3_forge.Kube.Text.{concat}
use c5c3_forge.Kube.Error.{Error, Answer, ok, err, wrap, is_not_found}
use c5c3_forge.Kube.Condition.{Condition, ConditionMeta, Status, status_true, status_false, is_true}
use c5c3_forge.Kube.Outcome.{Outcome, done, returns, fails, requeue_in}
use c5c3_forge.Conditions.{set_condition}

-- Server-Side Apply of the route, which answers with the conditions of the route's parents, and
-- client.Delete.
pub record RouteClient (W : Type 0) : Type 0 where
  pub apply_route : W → W × Answer (List (List Condition))
  pub delete_route : W → String → String → W × Option Error

-- RouteFlowParams, but for the route and the conditions.
pub record RouteFlowParams : Type 0 where
  pub gateway_api_available : Bool
  pub gateway_configured : Bool
  pub route_name : String
  pub route_namespace : String
  pub exposure_noun : String
  pub generation : ℕ
  pub condition_type : String
  pub requeue_accepted : ℤ

-- The inner loop of IsHTTPRouteAccepted.
unfoldable pub parent_accepted : List Condition → Bool
parent_accepted [] = false
parent_accepted (c ∷ cs) =
    let rest = parent_accepted cs in
    if str_eq c.type "Accepted" && is_true c.status then true else rest

-- IsHTTPRouteAccepted.
unfoldable pub is_http_route_accepted : List (List Condition) → Bool
is_http_route_accepted [] = false
is_http_route_accepted (parent ∷ parents) =
    let rest = is_http_route_accepted parents in if parent_accepted parent then true else rest

module _ {W : Type 0} (m : ConditionMeta) (c : RouteClient W) (p : RouteFlowParams) where
  abbrev pub report_route : Status → String → String → List Condition → List Condition
  report_route status reason message conds = set_condition m conds (record {
    type = p.condition_type;
    status = status;
    observed_generation = p.generation;
    last_transition_time = 0;
    reason = reason;
    message = message;
  })

  abbrev pub not_required : List Condition → List Condition
  not_required =
      report_route status_true "HTTPRouteNotRequired" (
        concat ("External " ∷ p.exposure_noun ∷ " exposure via Gateway API is not configured" ∷ []))

  abbrev pub not_installed : List Condition → List Condition
  not_installed = report_route status_false "GatewayAPINotInstalled" (
      concat (
        "spec.gateway is set but the gateway.networking.k8s.io/v1 HTTPRoute CRD is not installed in this cluster; install Gateway API and restart the operator to enable external "
        ∷ p.exposure_noun ∷ " exposure" ∷ []))

  abbrev route_deleted : W × Option Error → W × Option Error
  route_deleted (w, none) = (w, none)
  route_deleted (w, some e) = if is_not_found e then (w, none) else (
    w,
    some (
        wrap (concat ("deleting HTTPRoute " ∷ p.route_namespace ∷ "/" ∷ p.route_name ∷ ": " ∷ []))
          e),
  )

  -- DeleteHTTPRoute.
  unfoldable pub delete_http_route : W → W × Option Error
  delete_http_route w = route_deleted (c.delete_route w p.route_namespace p.route_name)

  abbrev pub after_delete : List Condition → W × Option Error → List Condition × W × Outcome
  after_delete conds (w, some e) = (conds, w, fails e)
  after_delete conds (w, none) = (not_required conds, w, done)

  abbrev pub after_apply :
      List Condition → W × Answer (List (List Condition)) → List Condition × W × Outcome
  after_apply conds (w, err e) = (conds, w, fails (wrap "ensuring HTTPRoute: " e))
  after_apply conds (w, ok parents) =
      if is_http_route_accepted parents
      then (
        report_route status_true "HTTPRouteAccepted" "HTTPRoute accepted by Gateway" conds,
        w,
        done,
      )
      else (
        report_route status_false "HTTPRouteNotAccepted" "HTTPRoute not yet accepted by Gateway"
            conds,
        w,
        returns (requeue_in p.requeue_accepted),
      )

  -- The paths, by whether the API is installed and whether the gateway is configured.
  abbrev pub by_exposure : Bool → Bool → List Condition → W → List Condition × W × Outcome
  by_exposure false false conds w = (not_required conds, w, done)
  by_exposure false true conds w = (not_installed conds, w, done)
  by_exposure true false conds w = after_delete conds (delete_http_route w)
  by_exposure true true conds w = after_apply conds (c.apply_route w)

  -- ReconcileHTTPRoute.
  unfoldable pub reconcile_http_route : List Condition → W → List Condition × W × Outcome
  reconcile_http_route conds w = by_exposure p.gateway_api_available p.gateway_configured conds w
