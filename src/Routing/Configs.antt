-- ===== src/Routing/Configs.antt =====
-- internal/envoy/resource.go: the Envoy configuration of a gateway proxy and of a load balancer. What
-- a template prints is a parameter.
pub mod Printing
pub mod Translation
pub mod Clusters
pub mod Gateways
pub mod Balancers
use resource_model.Base.{
  ℕ, zero, suc, ◌+◌, ◌-◌, ◌*◌, ◌/◌, ◌%◌, Bool, true, false, List, [], ◌∷◌, ◌++◌, map, Option, none,
  some, Text, text, text_dec, ite, if◌then◌else◌, Result, ok, err, ◌>>=◌, or_fail, ltb, leb, length,
  ◌&&◌,
}
use resource_model.GoMap.{GoMap, insert}
use resource_model.Links.{RemoteEndpoint}
use resource_model.Allocator.Pool.{ServicePort}
use resource_model.Routing.Rules.{Rule, Slice}
use resource_model.Routing.Http.{HttpRoute, preprocess_http_routes}
use resource_model.Routing.Listeners.{
  Listener, ParentRef, listener_dec, filter_referent_routes, collapse,
}

-- `%d` of a number that is not negative, on fuel that is above the number.
abbrev decimal_digits : ℕ → ℕ → Text
decimal_digits zero n = []
decimal_digits (suc fuel) n =
    let rest = decimal_digits fuel (n / 10) in
    if ltb n 10 then (48 + n) ∷ [] else rest ++ (48 + n % 10) ∷ []

abbrev pub decimal : ℕ → Text
decimal n = decimal_digits (suc n) n

-- The HTTP and the TCP part of a route: the parents, and the routing without them.
pub record HttpPart (F B : Type 0) : Type 0 where
  pub parent_refs : List ParentRef
  pub route : HttpRoute F B

pub record TcpPart (B : Type 0) : Type 0 where
  pub parent_refs : List ParentRef
  pub rules : List (List B)

pub record Route (F B : Type 0) : Type 0 where
  pub http : Option (HttpPart F B)
  pub tcp : Option (TcpPart B)

-- The data of a template for a cluster, and of one for a listener.
pub record ClusterParams : Type 0 where
  pub cluster_name : Text
  pub endpoints : List RemoteEndpoint
  pub service_namespace : Text
  pub pure_lb_service_name : Text
  pub service_name : Text

pub record ListenerParams (R : Type 0) : Type 0 where
  pub clusters : List Text
  pub port_name : Text
  pub port : ℕ
  pub protocol : Text
  pub service_namespace : Text
  pub total_weight : ℕ
  pub cluster_weight : ℕ
  pub pure_lb_service_name : Text
  pub service_name : Text
  pub routes : List R

-- The template package: a template is parsed from a text, and its run gives what was written, also
-- where it ends in an error.
pub record Templates (T R E : Type 0) : Type 0 where
  pub parse : Text → Result E T
  pub execute_cluster : T → ClusterParams → Text × Option E
  pub execute_listener : T → ListenerParams R → Text × Option E

-- `EnvoyResource` and `EnvoyConfig` of Marin3r.
pub record Resource : Type 0 where
  pub name : Text
  pub value : Text

pub record Resources : Type 0 where
  pub clusters : List Resource
  pub routes : List Resource
  pub listeners : List Resource
  pub runtimes : List Resource
  pub secrets : List Resource

pub record EnvoyConfig : Type 0 where
  pub name : Text
  pub namespace : Text
  pub node_id : Text
  pub envoy_api : Text
  pub serialization : Text
  pub resources : Resources

-- `EnvoyConfigSpec` of the object's template.
pub record EnvoyTemplate : Type 0 where
  pub envoy_api : Text
  pub serialization : Text
  pub resources : Resources

pub record GwProxy : Type 0 where
  pub namespace : Text
  pub name : Text
  pub display_name : Text
  pub listeners : List Listener
  pub template : EnvoyTemplate

pub record LoadBalancer : Type 0 where
  pub namespace : Text
  pub name : Text
  pub display_name : Text
  pub public_ports : List ServicePort
  pub upstream_clusters : List Text
  pub template : EnvoyTemplate

pub data Error (E : Type 0) : Type 0 where
  template : E → Error E
  unsupported : Text → Error E
  panic : Error E

-- `washProtocol`. `upper` is `strings.ToUpper` of ASCII.
abbrev upper : Text → Text
upper = map (λ c. if leb b'a' c && leb c b'z' then c - 32 else c)

abbrev udp_or_fail : {E : Type 0} → Text → Text → Result (Error E) Text
udp_or_fail proto name =
    ite (text_dec name (text "UDP")) (ok (text "UDP")) (err (unsupported proto))

unfoldable pub wash_protocol : {E : Type 0} → Text → Result (Error E) Text
wash_protocol proto =
    let name = upper proto in
    ite (text_dec name (text "HTTP")) (ok (text "TCP")) (
      ite (text_dec name (text "HTTPS")) (ok (text "TCP")) (
        ite (text_dec name (text "TLS")) (ok (text "TCP"))
          (ite (text_dec name (text "TCP")) (ok (text "TCP")) (udp_or_fail proto name))))

module _ {F B : Type 0} where
  abbrev pub route_parents : Route F B → List ParentRef
  route_parents route =
      elim route.http [ none ↦ [] | some h ↦ h.parent_refs ]
      ++ elim route.tcp [ none ↦ [] | some t ↦ t.parent_refs ]

  -- The copies of `preprocessRoutes`, of the routes with an HTTP part and of the others.
  unfoldable pub http_routes : List (Route F B) → List (HttpRoute F B)
  http_routes [] = []
  http_routes (route ∷ routes) = elim route.http [
    | none ↦ http_routes routes
    | some h ↦ h.route ∷ http_routes routes
  ]

  unfoldable pub other_routes : List (Route F B) → List (Route F B)
  other_routes [] = []
  other_routes (route ∷ routes) = elim route.http [
    | none ↦ route ∷ other_routes routes
    | some h ↦ other_routes routes
  ]

  -- A route that `preprocessHTTPRoutes` makes has no parents.
  abbrev pub cooked_route : HttpRoute F B → Route F B
  cooked_route route = record {
    http = some (record { parent_refs = []; route = route });
    tcp = none;
  }

abbrev pub nonempty : Text → Bool
nonempty doc = ltb 0 (length doc)

abbrev pub weight_for : List Text → ℕ
weight_for clusters = 100 / length clusters

abbrev pub http_listener_params : {R : Type 0} → LoadBalancer → ServicePort → ListenerParams R
http_listener_params service port = record {
  clusters = service.upstream_clusters;
  port_name = port.protocol ++ text "-" ++ decimal port.port;
  port = port.port;
  protocol = port.protocol;
  service_namespace = service.namespace;
  total_weight = weight_for service.upstream_clusters * length service.upstream_clusters;
  cluster_weight = weight_for service.upstream_clusters;
  pure_lb_service_name = service.display_name;
  service_name = service.name;
  routes = [];
}

abbrev pub envoy_config : Text → Text → EnvoyTemplate → List Resource → List Resource → EnvoyConfig
envoy_config namespace name shape clusters listeners = record {
  name = name;
  namespace = namespace;
  node_id = namespace ++ text "." ++ name;
  envoy_api = shape.envoy_api;
  serialization = shape.serialization;
  resources = record {
    clusters = clusters;
    routes = shape.resources.routes;
    listeners = listeners;
    runtimes = shape.resources.runtimes;
    secrets = shape.resources.secrets;
  };
}
