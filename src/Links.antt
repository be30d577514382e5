-- ===== src/Links.antt =====
-- The links between proxies, routes and endpoint slices: api/v1/gwroute_types.go, the methods of
-- api/v1/gwendpointslice_types.go, and `GetChildRoutes` and `ActiveProxyEndpoints` of
-- api/v1/gwproxy_types.go. A route names its proxies by `ParentRefs` and its clusters by
-- `BackendRefs`, of which the name is what the code reads.
pub mod Appending
pub mod Joined
use mathlib.Core.Option.{get_or}
use resource_model.Base.{
  ℕ, Bool, true, false, ◌&&◌, not, List, [], ◌∷◌, ◌++◌, Option, none, some, Text, text_dec, ite,
  if◌then◌else◌,
}
use resource_model.GoMap.{GoMap, lookup}

pub record NamespacedName : Type 0 where
  pub namespace : Text
  pub name : Text

-- `HTTPRouteSpec` and `TCPRouteSpec`: the names of the parents, and for each rule the names of its
-- back ends.
pub record RouteSpec : Type 0 where
  pub parent_refs : List Text
  pub rules : List (List Text)

-- `deleting` says that the deletion timestamp is set.
pub record GwRoute : Type 0 where
  pub namespace : Text
  pub name : Text
  pub deleting : Bool
  pub http : Option RouteSpec
  pub tcp : Option RouteSpec

-- `discoveryv1.Endpoint` and `discoveryv1.EndpointPort`, with the fields that are read.
pub record SliceEndpoint : Type 0 where
  pub addresses : List Text
  pub node_name : Option Text

pub record SlicePort : Type 0 where
  pub port : Option ℕ
  pub protocol : Option Text

pub record GwEndpointSlice : Type 0 where
  pub namespace : Text
  pub name : Text
  pub deleting : Bool
  pub annotations : Option (GoMap Text Text)
  pub parent_uid : Text
  pub endpoints : List SliceEndpoint
  pub ports : List SlicePort
  pub node_addresses : GoMap Text Text

-- `RemoteEndpointSpec`
pub record RemoteEndpoint : Type 0 where
  pub cluster : Text
  pub address : Text
  pub node_address : Text
  pub port : ℕ
  pub protocol : Text

abbrev spec_parents : Option RouteSpec → List Text
spec_parents none = []
spec_parents (some spec) = spec.parent_refs

abbrev concat : {A : Type 0} → List (List A) → List A
concat [] = []
concat (xs ∷ xss) = xs ++ concat xss

abbrev spec_backends : Option RouteSpec → List Text
spec_backends none = []
spec_backends (some spec) = concat spec.rules

unfoldable pub parents : GwRoute → List Text
parents route = spec_parents route.http ++ spec_parents route.tcp

unfoldable pub backends : GwRoute → List Text
backends route = spec_backends route.http ++ spec_backends route.tcp

unfoldable pub refers_to : Text → List Text → Bool
refers_to name [] = false
refers_to name (ref ∷ refs) = ite (text_dec ref name) true (refers_to name refs)

-- `isChildOf`, which does not read the namespace.
unfoldable pub is_child_of : GwRoute → NamespacedName → Bool
is_child_of route gateway = refers_to gateway.name (parents route)

-- The inner loop of `GetChildRoutes`: the route is added for each reference to the proxy.
unfoldable pub child_routes_of : Text → GwRoute → List Text → List GwRoute
child_routes_of proxy_name route [] = []
child_routes_of proxy_name route (ref ∷ refs) =
    let rest = child_routes_of proxy_name route refs in
    ite (text_dec ref proxy_name) (if route.deleting then rest else route ∷ rest) rest

-- `GetChildRoutes`, of the routes in the proxy's namespace.
unfoldable pub get_child_routes : Text → List GwRoute → List GwRoute
get_child_routes proxy_name [] = []
get_child_routes proxy_name (route ∷ routes) =
    child_routes_of proxy_name route (parents route) ++ get_child_routes proxy_name routes

-- A loop that appends what its body gives. `none` is a run-time panic.
unfoldable pub append_each : {A B : Type 0} → (A → Option (List B)) → List A → Option (List B)
append_each body [] = some []
append_each body (x ∷ xs) = elim (body x) [
  | none ↦ none
  | some ys ↦ elim (append_each body xs) [ none ↦ none | some zs ↦ some (ys ++ zs) ]
]

-- The first port, whose number and protocol are followed without a test.
unfoldable pub first_port : List SlicePort → Option (ℕ × Text)
first_port [] = none
first_port (p ∷ ports) = elim p.port [
  | none ↦ none
  | some number ↦ elim p.protocol [ none ↦ none | some protocol ↦ some (number, protocol) ]
]

-- One address of one endpoint of a slice. A node that has no address gets the empty one.
unfoldable pub remote_endpoint :
    Text → GwEndpointSlice → SliceEndpoint → Text → Option (List RemoteEndpoint)
remote_endpoint cluster slice endpoint address = elim endpoint.node_name [
  | none ↦ none
  | some node ↦ elim (first_port slice.ports) [
    | none ↦ none
    | some (number, protocol) ↦ some (
        record {
          cluster = cluster;
          address = address;
          node_address = get_or (lookup text_dec node slice.node_addresses) [];
          port = number;
          protocol = protocol;
        }
        ∷ [])
  ]
]

unfoldable pub slice_endpoints : Text → GwEndpointSlice → Option (List RemoteEndpoint)
slice_endpoints cluster slice =
    append_each (λ e. append_each (remote_endpoint cluster slice e) e.addresses) slice.endpoints

-- `ToEndpoints`
unfoldable pub to_endpoints : GwEndpointSlice → Option (List RemoteEndpoint)
to_endpoints slice = slice_endpoints slice.parent_uid slice

-- The body of the third loop of `ActiveProxyEndpoints`, for one slice and one back end.
unfoldable pub cluster_endpoints : Text → GwEndpointSlice → Option (List RemoteEndpoint)
cluster_endpoints cluster slice =
    ite (text_dec slice.parent_uid cluster)
      (if slice.deleting then some [] else slice_endpoints cluster slice) (some [])

unfoldable pub route_endpoints :
    NamespacedName → List GwEndpointSlice → GwRoute → Option (List RemoteEndpoint)
route_endpoints gateway slices route =
    if not route.deleting && is_child_of route gateway
    then append_each (λ ref. append_each (cluster_endpoints ref) slices) (backends route)
    else some []

-- `ActiveProxyEndpoints`, of the routes and the slices in the proxy's namespace.
unfoldable pub active_proxy_endpoints :
    NamespacedName → List GwRoute → List GwEndpointSlice → Option (List RemoteEndpoint)
active_proxy_endpoints gateway routes slices = append_each (route_endpoints gateway slices) routes
