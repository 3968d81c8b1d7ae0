-- ===== src/Gateway/Exposure.antt =====
-- internal/common/gateway/flow.go: what the condition of the route shows.
use c5c3_forge.Prelude.{
  ◌≡◌, ◌↔◌, refl, inl, inr, Bool, true, false, List, String, Option, none, some, Bool-cases,
}
use c5c3_forge.Kube.Error.{Error, Answer, ok, err}
use c5c3_forge.Kube.Condition.{
  Condition, ConditionMeta, ConditionLaws, Status, status_true, status_false, is_true,
}
use c5c3_forge.Kube.Outcome.{Outcome}
use c5c3_forge.Conditions.{holds, get_condition}
use c5c3_forge.Conditions.Laws.{holds-set_self}
use c5c3_forge.Gateway.{
  RouteClient, RouteFlowParams, is_http_route_accepted, after_delete, after_apply, by_exposure,
  delete_http_route, reconcile_http_route, report_route,
}

-- The answer of an apply is a route that a parent has accepted.
abbrev pub Accepted : Answer (List (List Condition)) → Type 0
Accepted (ok parents) = is_http_route_accepted parents ≡ true
Accepted (err e) = ⊥

-- The service needs no route, or the route is applied and accepted.
abbrev pub Exposed : {W : Type 0} → RouteClient W → W → Bool → Bool → Type 0
Exposed c w available false = Unit
Exposed c w false true = ⊥
Exposed c w true true = Accepted (c.apply_route w).1

module _ {W : Type 0} (m : ConditionMeta) (laws : ConditionLaws m) (c : RouteClient W)
    (p : RouteFlowParams) where
  abbrev pub route_shown : List Condition × W × Outcome → Bool
  route_shown r = holds (get_condition m r.0 p.condition_type)

  shown-report_route :
      (status : Status) (reason message : String) (conds : List Condition)
      → holds (get_condition m (report_route m c p status reason message conds) p.condition_type)
        ≡ is_true status
  shown-report_route status reason message conds = holds-set_self m laws conds (record {
    type = p.condition_type;
    status = status;
    observed_generation = p.generation;
    last_transition_time = 0;
    reason = reason;
    message = message;
  })

  after_delete_lem :
      (conds : List Condition) (r : W × Option Error)
      → (after_delete m c p conds r).2.error ≡ none
      → route_shown (after_delete m c p conds r) ≡ true
  after_delete_lem conds (w, none) h = shown-report_route status_true _ _ conds
  after_delete_lem conds (w, some e) h = cc h

  after_apply_iff :
      (conds : List Condition) (r : W × Answer (List (List Condition)))
      → (after_apply m c p conds r).2.error ≡ none
      → (route_shown (after_apply m c p conds r) ≡ true) ↔ Accepted r.1
  after_apply_iff conds (w, err e) h = cc h
  after_apply_iff conds (w, ok parents) h = elim (Bool-cases (is_http_route_accepted parents)) [
    | inl e ↦ rw e (λ q. refl, λ q. shown-report_route status_true _ _ conds)
    | inr e ↦ rw e (
      λ q. cc (
        shown-report_route status_false "HTTPRouteNotAccepted"
            "HTTPRoute not yet accepted by Gateway" conds,
        q,
      ),
      λ q. cc q,
    )
  ]

  by_exposure_iff :
      (available configured : Bool) (conds : List Condition) (w : W)
      → (by_exposure m c p available configured conds w).2.error ≡ none
      → (route_shown (by_exposure m c p available configured conds w) ≡ true)
        ↔ Exposed c w available configured
  by_exposure_iff false false conds w h = (λ q. tt, λ q. shown-report_route status_true _ _ conds)
  by_exposure_iff false true conds w h =
      (λ q. cc (shown-report_route status_false _ _ conds, q), λ q. absurd q)
  by_exposure_iff true false conds w h =
      (λ q. tt, λ q. after_delete_lem conds (delete_http_route m c p w) h)
  by_exposure_iff true true conds w h = after_apply_iff conds (c.apply_route w) h

  -- After a pass of ReconcileHTTPRoute without an error, the condition of the route is there and
  -- true exactly when the service is not exposed through a gateway, or the Gateway API is installed
  -- and the route that the server sent back is accepted by one of its parents.
  pub reconcile_http_route_iff :
      (conds : List Condition) (w : W)
      → (reconcile_http_route m c p conds w).2.error ≡ none
      → (route_shown (reconcile_http_route m c p conds w) ≡ true)
        ↔ Exposed c w p.gateway_api_available p.gateway_configured
  unfolding reconcile_http_route
  reconcile_http_route_iff conds w h =
      by_exposure_iff p.gateway_api_available p.gateway_configured conds w h
