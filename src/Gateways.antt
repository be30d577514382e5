-- ===== src/Gateways.antt =====
-- controllers/gwproxy_controller.go: the controller of gateway proxies. Owner references are left out.
pub mod Controller
pub mod Tunnels
pub mod Stored
pub mod Reconciled
pub mod Leaks
use mathlib.Core.Option.{get_or}
use resource_model.Base.{
  ℕ, Bool, true, false, List, [], ◌∷◌, ◌++◌, map, Option, none, some, Text, text, text_dec, ite,
  if◌then◌else◌, Result, ok, err, contains, ◌andthen◌, ltb, length,
}
use resource_model.GoMap.{GoMap}
use resource_model.Finalizers.{Library, remove_finalizer}
use resource_model.Links.{
  NamespacedName, GwRoute, GwEndpointSlice, RemoteEndpoint, get_child_routes,
  active_proxy_endpoints,
}
use resource_model.Proxies.{Tunnel, TunnelMaps, ProxyInterface, proxy_tunnels}
use resource_model.Allocator.Pool.{ServicePort}
use resource_model.Allocator.Allocations.{Allocator, unassign}
use resource_model.Prefixes.{namespaced}
use resource_model.PodLabels.{owning_lb_service_group, owning_service_prefix, owning_account}
use resource_model.Envoys
use resource_model.Envoys.{
  ServiceGroup, Prefix, Epic, EnvoyDeployment, Failure, Network, deployment_for_proxy,
  config_namespace,
}
use resource_model.Envoys.Controller.{label_of}
use resource_model.Routing.Listeners.{Listener}
use resource_model.Routing.Configs
use resource_model.Routing.Configs.{Route, EnvoyConfig, Templates}
use resource_model.Routing.Configs.Translation.{Ranges, gw_proxy_to_envoy_config}

-- A proxy, in the views of its parts. `has_listeners` says that the slice of listeners is not nil.
pub record GwProxy : Type 0 where
  pub deleting : Bool
  pub labels : GoMap Text Text
  pub gateway_class_name : Text
  pub has_listeners : Bool
  pub proxy_interfaces : GoMap Text ProxyInterface
  pub gue_tunnel_maps : TunnelMaps
  pub envoy : Envoys.GwProxy
  pub config : Configs.GwProxy

-- An operation of the JSON patch on the field `gue-tunnel-endpoints`.
pub data TunnelOperation : Type 0 where
  remove : TunnelOperation
  add : TunnelMaps → TunnelOperation

pub data Error (E : Type 0) : Type 0 where
  client : E → Error E
  config : Configs.Error E → Error E
  panic : Error E

-- What belongs to other repositories, with the functions of this one that stand in other modules: the
-- Kubernetes client, `AllocateTunnelID`, and the rules of a route, of which `GwRoute` has the names.
-- `Patch` overwrites its object with the one that the server has afterwards.
pub record Client (S E F B : Type 0) : Type 1 where
  pub get_proxy : S → NamespacedName → S × Result E GwProxy
  pub update_proxy : S → GwProxy → S × Option E
  pub get_service_group : S → NamespacedName → S × Result E ServiceGroup
  pub get_prefix : S → NamespacedName → S × Result E Prefix
  pub get_account : S → NamespacedName → S × Option E
  pub get_epic : S → S × Result E (Epic × Tunnel)
  pub list_routes : S → Text → S × Result E (List GwRoute)
  pub list_slices : S → Text → S × Result E (List GwEndpointSlice)
  pub create_deployment : S → EnvoyDeployment → S × Option E
  pub get_deployment : S → NamespacedName → S × Result E EnvoyDeployment
  pub put_deployment : S → EnvoyDeployment → S × Option E
  pub create_config : S → EnvoyConfig → S × Option E
  pub get_config : S → NamespacedName → S × Result E EnvoyConfig
  pub update_config : S → EnvoyConfig → S × Option E
  pub patch_tunnels : S → GwProxy → List TunnelOperation → S × Result E GwProxy
  pub fresh_tunnel_id : S → S × Result E ℕ
  pub retry_on_conflict : (S → S × Option (Error E)) → S → S × Option (Error E)
  pub is_not_found : E → Bool
  pub message : E → Text
  pub finalizers : Library S GwProxy E
  pub rules_of : GwRoute → Route F B

-- An error of the client.
abbrev pub client_error : {S E : Type 0} → S × Option E → S × Option (Error E)
client_error (s, none) = (s, none)
client_error (s, some e) = (s, some (client e))

abbrev pub client_result : {S E A : Type 0} → S × Result E A → S × Result (Error E) A
client_result (s, ok x) = (s, ok x)
client_result (s, err e) = (s, err (client e))

-- The listener that `kludgeProxy` gives to a proxy without listeners. `none` is the panic on a proxy
-- without ports.
abbrev pub compatibility_listener : List ServicePort → Option Listener
compatibility_listener [] = none
compatibility_listener (p ∷ ports) = some (record {
  name = text "compatibility";
  hostname = none;
  port = p.port;
  protocol = text "HTTP";
  tls = none;
  allowed_routes = none;
})

-- The first change of `kludgeProxy`.
abbrev with_class : GwProxy → GwProxy
with_class proxy =
    ite (text_dec proxy.gateway_class_name [])
      (record proxy { gateway_class_name = text "compatibility" }) proxy

-- The changes of `kludgeProxy`, and whether there are any.
unfoldable pub kludged : GwProxy → Option (GwProxy × Bool)
kludged proxy =
    if proxy.has_listeners
    then some (with_class proxy, ite (text_dec proxy.gateway_class_name []) true false)
    else elim (compatibility_listener proxy.envoy.public_ports) [
      | none ↦ none
      | some l ↦ some (
        record (with_class proxy) {
          has_listeners = true;
          config = record proxy.config { listeners = l ∷ [] };
        },
        true,
      )
    ]

-- The patch of `allocateProxyTunnels`.
unfoldable pub tunnel_patch : TunnelMaps → TunnelMaps → List TunnelOperation
tunnel_patch old new = if ltb 0 (length old) then remove ∷ add new ∷ [] else add new ∷ []

abbrev pub name_of : GwProxy → NamespacedName
name_of proxy = record { namespace = proxy.envoy.namespace; name = proxy.envoy.name }

abbrev pub nodes_of : List RemoteEndpoint → List Text
nodes_of = map (λ (e : RemoteEndpoint). e.node_address)

module _ {S E F B : Type 0} (cl : Client S E F B) where
  unfoldable pub try_kludge : NamespacedName → S → S × Option (Error E)
  try_kludge name s =
      let (s1, got) = cl.get_proxy s name in
      elim got [
        | err e ↦ (s1, some (client e))
        | ok existing ↦ elim (kludged existing) [
          | none ↦ (s1, some panic)
          | some (changed, needs_update) ↦
              if needs_update then client_error (cl.update_proxy s1 changed) else (s1, none)
        ]
      ]

  unfoldable pub kludge_proxy : NamespacedName → S → S × Option (Error E)
  kludge_proxy name = cl.retry_on_conflict (try_kludge name)

  -- One try of `updateEnvoyDeployment`.
  unfoldable pub try_update : EnvoyDeployment → S → S × Option (Error E)
  try_update dep s =
      let (s1, got) = cl.get_deployment s (record { namespace = dep.namespace; name = dep.name }) in
      elim got [
        | err e ↦ (s1, some (client e))
        | ok existing ↦ client_error (
            cl.put_deployment s1
              (record dep { name = existing.name; namespace = existing.namespace }))
      ]

  unfoldable pub update_envoy_deployment : EnvoyDeployment → S → S × Option (Error E)
  update_envoy_deployment dep = cl.retry_on_conflict (try_update dep)

  -- The deployment is created, or updated where it is there already. A nil deployment is followed when
  -- its name is logged.
  unfoldable pub launch : Result Failure EnvoyDeployment → S → S × Option (Error E)
  launch (err _) s = (s, some panic)
  launch (ok dep) s =
      let (s1, failed) = cl.create_deployment s dep in
      elim failed [
        | none ↦ (s1, none)
        | some e ↦
            if contains (text "already exists") (cl.message e)
            then update_envoy_deployment dep s1
            else (s1, some (client e))
      ]

  -- `ActiveProxyEndpoints`, with the lists that it reads.
  unfoldable pub read_endpoints : GwProxy → S → S × Result (Error E) (List RemoteEndpoint)
  read_endpoints proxy s =
      let (s1, listed) = cl.list_routes s proxy.envoy.namespace in
      elim listed [
        | err e ↦ (s1, err (client e))
        | ok routes ↦
            let (s2, listed') = cl.list_slices s1 proxy.envoy.namespace in
            elim listed' [
              | err e ↦ (s2, err (client e))
              | ok slices ↦ elim (active_proxy_endpoints (name_of proxy) routes slices) [
                | none ↦ (s2, err panic)
                | some endpoints ↦ (s2, ok endpoints)
              ]
            ]
      ]

  -- `allocateProxyTunnels`, from the endpoints on, with the proxy that `Patch` has overwritten.
  unfoldable pub patch_proxy_tunnels :
      GwProxy → Tunnel → List RemoteEndpoint → S → S × Result (Error E) GwProxy
  patch_proxy_tunnels proxy base endpoints s =
      let (s1, tunnels) =
        proxy_tunnels cl.fresh_tunnel_id base proxy.gue_tunnel_maps (nodes_of endpoints)
          proxy.proxy_interfaces s in
      elim tunnels [
        | err e ↦ (s1, err (client e))
        | ok new ↦
            client_result (cl.patch_tunnels s1 proxy (tunnel_patch proxy.gue_tunnel_maps new))
      ]

  unfoldable pub allocate_proxy_tunnels : GwProxy → S → S × Result (Error E) GwProxy
  allocate_proxy_tunnels proxy s =
      let (s1, got) = cl.get_epic s in
      elim got [
        | err e ↦ (s1, err (client e))
        | ok (_, base) ↦
            let (s2, found) = read_endpoints proxy s1 in
            elim found [
              | err e ↦ (s2, err e)
              | ok endpoints ↦ patch_proxy_tunnels proxy base endpoints s2
            ]
      ]

  -- The configuration is created, or the spec of an existing one is replaced.
  unfoldable pub store_config : GwProxy → EnvoyConfig → S → S × Option (Error E)
  store_config proxy made s =
      let (s1, failed) = cl.create_config s made in
      elim failed [
        | none ↦ (s1, none)
        | some e ↦
            if contains (text "already exists") (cl.message e)
            then (let (s2, got) = cl.get_config s1 (name_of proxy) in
                elim got [
                  | err e ↦ (s2, some (client e))
                  | ok existing ↦ client_error (
                      cl.update_config s2
                        (record made { name = existing.name; namespace = existing.namespace }))
                ])
            else (s1, some (client e))
      ]
