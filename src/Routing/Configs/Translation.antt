-- ===== src/Routing/Configs/Translation.antt =====
-- internal/envoy/resource.go: `GWProxyToEnvoyConfig` and what it calls.
use resource_model.Base.{
  Bool, List, [], ◌∷◌, ◌++◌, map, Option, none, some, Text, text, text_dec, ite, Result, ok, err,
  ◌>>=◌, or_fail,
}
use resource_model.GoMap.{GoMap, insert}
use resource_model.Routing.Rules.{LongSort, Rule}
use resource_model.Routing.Http.{preprocess_http_routes}
use resource_model.Routing.Listeners.{Listener, listener_dec, filter_referent_routes, collapse}
use resource_model.Routing.Configs.{
  ClusterParams, EnvoyConfig, Error, GwProxy, ListenerParams, Resource, Route, Templates,
  cooked_route, decimal, envoy_config, http_routes, nonempty, other_routes, panic, route_parents,
  template, wash_protocol,
}
use resource_model.Routing.Configs.Printing.{each_pair, run_cluster_templates, run_listener}

-- The order in which `range` visits the map of the cluster names, and a map of listeners.
pub record Ranges (R : Type 0) : Type 0 where
  pub names : List Text → List Text
  pub listeners : GoMap Listener (List R) → GoMap Listener (List R)

-- The set of the cluster names, each of them once.
abbrev pub add_name : Text → List Text → List Text
add_name name [] = name ∷ []
add_name name (n ∷ names) = ite (text_dec n name) (n ∷ names) (n ∷ add_name name names)

abbrev pub add_names : List Text → List Text → List Text
add_names [] names = names
add_names (n ∷ new) names = add_names new (add_name n names)

abbrev concat_map : {A C : Type 0} → (A → List C) → List A → List C
concat_map f [] = []
concat_map f (x ∷ xs) = f x ++ concat_map f xs

abbrev pub gateway_cluster_params : GwProxy → Text → ClusterParams
gateway_cluster_params proxy name = record {
  cluster_name = name;
  endpoints = [];
  service_namespace = proxy.namespace;
  pure_lb_service_name = proxy.display_name;
  service_name = proxy.name;
}

abbrev pub gateway_listener_params :
    {F B : Type 0} → GwProxy → Listener → List (Route F B) → Text → ListenerParams (Route F B)
gateway_listener_params proxy listener routes protocol = record {
  clusters = [];
  port_name = listener.protocol ++ text "-" ++ decimal listener.port;
  port = listener.port;
  protocol = protocol;
  service_namespace = proxy.namespace;
  total_weight = 100;
  cluster_weight = 100;
  pure_lb_service_name = proxy.display_name;
  service_name = proxy.name;
  routes = routes;
}

module _ {F B : Type 0} (ref_name : B → Text) where
  -- `Backends`, with the names that are read.
  abbrev pub route_backends : Route F B → List Text
  route_backends route =
      elim route.http [
        | none ↦ []
        | some h ↦ concat_map (λ (r : Rule F B). map ref_name r.backend_refs) h.route.rules
      ]
      ++ elim route.tcp [ none ↦ [] | some t ↦ concat_map (map ref_name) t.rules ]

  unfoldable pub cluster_names : List (Route F B) → List Text → List Text
  cluster_names [] names = names
  cluster_names (route ∷ routes) names =
      cluster_names routes (add_names (route_backends route) names)

module _ {T E F B : Type 0} (tp : Templates T (Route F B) E) (rg : Ranges (Route F B))
    (ref_name : B → Text) (filter_dec : Discrete F) (sort_long : LongSort F B)
    (is_ip is_wildcard_subdomain is_subdomain : Text → Bool) where
  unfoldable pub routes_to_clusters : GwProxy → List (Route F B) → List Resource × Option E
  routes_to_clusters proxy routes =
      run_cluster_templates tp nonempty (gateway_cluster_params proxy)
        (rg.names (cluster_names ref_name routes [])) proxy.template.resources.clusters ([], none)

  -- `preprocessRoutes`
  unfoldable pub preprocess_routes :
      Listener → List (Route F B) → Result (Error E) (List (Route F B))
  preprocess_routes listener routes = do
    cooked ←
        or_fail
          (preprocess_http_routes filter_dec sort_long is_ip is_wildcard_subdomain is_subdomain
            (elim listener.hostname [ none ↦ none | some h ↦ some h.1 ]) (http_routes routes))
          panic
    ok (other_routes routes ++ map cooked_route cooked)

  -- The first loop of `makeGWListeners`.
  unfoldable pub listener_routes :
      List (Route F B)
      → List Listener
      → GoMap Listener (List (Route F B))
      → Result (Error E) (GoMap Listener (List (Route F B)))
  listener_routes routes [] raw = ok raw
  listener_routes routes (l ∷ ls) raw = do
    referents ← preprocess_routes l (filter_referent_routes route_parents l routes)
    listener_routes routes ls (insert listener_dec l referents raw)

  unfoldable pub execute_listener_template :
      Text → GwProxy → Listener × List (Route F B) → Result (Error E) Resource
  execute_listener_template value proxy (listener, routes) = do
    protocol ← wash_protocol listener.protocol
    run_listener tp value (gateway_listener_params proxy listener routes protocol)

  unfoldable pub make_gw_listeners : GwProxy → List (Route F B) → Result (Error E) (List Resource)
  make_gw_listeners proxy routes = do
    raw ← listener_routes routes proxy.listeners []
    each_pair tp (λ (t : Resource) entry. execute_listener_template t.value proxy entry)
        proxy.template.resources.listeners (rg.listeners (collapse (rg.listeners raw)))

  unfoldable pub gw_proxy_to_envoy_config :
      GwProxy → List (Route F B) → Result (Error E) EnvoyConfig
  gw_proxy_to_envoy_config proxy routes =
      let (clusters, failed) = routes_to_clusters proxy routes in
      elim failed [
        | some e ↦ err (template e)
        | none ↦ (do
          listeners ← make_gw_listeners proxy routes
          ok (envoy_config proxy.namespace proxy.name proxy.template clusters listeners))
      ]
