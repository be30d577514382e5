-- ===== src/Proxies.antt =====
-- The tunnels between the nodes of a proxy and the nodes of its clients: `allocateProxyTunnels` of
-- controllers/gwproxy_controller.go, `addProxyTunnels` of controllers/remoteendpoint_controller.go
-- and `RemoveProxyInfo` of api/v1/gwproxy_types.go.
pub mod Filling
pub mod Complete
pub mod Removal
pub mod Pods
use mathlib.Core.Option.{get_or}
use resource_model.Base.{
  ℕ, Bool, true, false, List, [], ◌∷◌, map, Option, none, some, Text, text_dec, ite, Result, ok,
  err, if◌then◌else◌,
}
use resource_model.GoMap.{GoMap, lookup, insert, delete}

-- `GUETunnelEndpoint`
pub record Tunnel : Type 0 where
  pub address : Text
  pub port : ℕ
  pub tunnel_id : ℕ

-- `map[string]EPICEndpointMap`, from client nodes to maps from the nodes of the proxy to tunnels.
abbrev pub TunnelMaps : Type 0
TunnelMaps = GoMap Text (GoMap Text Tunnel)

-- `EPICEndpoints` of the entry of a client node, which is nil for a node without an entry.
abbrev pub endpoints_at : TunnelMaps → Text → GoMap Text Tunnel
endpoints_at m node = get_or (lookup text_dec node m) []

abbrev pub tunnel_at : TunnelMaps → Text → Text → Option Tunnel
tunnel_at m node proxy_node = lookup text_dec proxy_node (endpoints_at m node)

-- `m[node].EPICEndpoints[proxyNode] = tunnel`
abbrev pub put_tunnel : Text → Text → Tunnel → TunnelMaps → TunnelMaps
put_tunnel node proxy_node tunnel m =
    insert text_dec node (insert text_dec proxy_node tunnel (endpoints_at m node)) m

-- `ProxyInterfaceInfo`, with the field that is read.
pub record ProxyInterface : Type 0 where
  pub epic_node_address : Text

-- `AllocateTunnelID` with the state of the world `S`, and the tunnel of the node configuration.
module _ {S E : Type 0} (allocate_id : S → S × Result E ℕ) (base : Tunnel) (old : TunnelMaps) where
  abbrev pub with_node : Text → TunnelMaps → TunnelMaps
  with_node node m = elim (lookup text_dec node m) [
    | none ↦ insert text_dec node [] m
    | some seen ↦ m
  ]

  -- The body of the inner loop of `allocateProxyTunnels`.
  unfoldable pub add_tunnel : Text → Text → S → TunnelMaps → S × Result E TunnelMaps
  add_tunnel node proxy_node s m =
      let m1 = with_node node m in
      elim (tunnel_at old node proxy_node) [
        | some tunnel ↦ (s, ok (put_tunnel node proxy_node tunnel m1))
        | none ↦
            let (s', allocated) = allocate_id s in
            elim allocated [
              | err e ↦ (s', err e)
              | ok id ↦ (
                s',
                ok (
                    put_tunnel node proxy_node
                      (record base { address = proxy_node; tunnel_id = id }) m1),
              )
            ]
      ]

  -- The inner loop, over the nodes of the proxy.
  unfoldable pub add_node_tunnels : Text → List Text → S → TunnelMaps → S × Result E TunnelMaps
  add_node_tunnels node [] s m = (s, ok m)
  add_node_tunnels node (proxy_node ∷ proxy_nodes) s m =
      let (s', added) = add_tunnel node proxy_node s m in
      elim added [ err e ↦ (s', err e) | ok m' ↦ add_node_tunnels node proxy_nodes s' m' ]

  -- The outer loop, over the nodes of the client's endpoints.
  unfoldable pub add_tunnels : List Text → List Text → S → TunnelMaps → S × Result E TunnelMaps
  add_tunnels [] proxy_nodes s m = (s, ok m)
  add_tunnels (node ∷ nodes) proxy_nodes s m =
      let (s', added) = add_node_tunnels node proxy_nodes s m in
      elim added [ err e ↦ (s', err e) | ok m' ↦ add_tunnels nodes proxy_nodes s' m' ]

  -- The map that `allocateProxyTunnels` puts into its patch.
  unfoldable pub proxy_tunnels : List Text → GoMap Text ProxyInterface → S → S × Result E TunnelMaps
  proxy_tunnels endpoint_nodes interfaces s =
      add_tunnels endpoint_nodes (map (λ e. e.1.epic_node_address) interfaces) s []

  -- The loop of `addProxyTunnels`, for one client node: the tunnels of its entry in the patch.
  unfoldable pub endpoint_tunnels :
      Text → List Text → S → GoMap Text Tunnel → S × Result E (GoMap Text Tunnel)
  endpoint_tunnels node [] s tunnels = (s, ok tunnels)
  endpoint_tunnels node (proxy_node ∷ proxy_nodes) s tunnels =
      elim (tunnel_at old node proxy_node) [
        | some tunnel ↦
            endpoint_tunnels node proxy_nodes s (insert text_dec proxy_node tunnel tunnels)
        | none ↦
            let (s', allocated) = allocate_id s in
            elim allocated [
              | err e ↦ (s', err e)
              | ok id ↦ endpoint_tunnels node proxy_nodes s' (
                  insert text_dec proxy_node (record base { address = proxy_node; tunnel_id = id })
                    tunnels)
            ]
      ]

-- The parts of a `GWProxy` that `RemoveProxyInfo` changes.
pub record Proxy : Type 0 where
  pub proxy_interfaces : GoMap Text ProxyInterface
  pub gue_tunnel_maps : TunnelMaps

-- The loop over the interfaces that are left.
unfoldable pub has_proxys : Text → GoMap Text ProxyInterface → Bool
has_proxys node [] = false
has_proxys node ((pod, info) ∷ interfaces) =
    ite (text_dec node info.epic_node_address) true (has_proxys node interfaces)

abbrev pub delete_node : Text → TunnelMaps → TunnelMaps
delete_node node = map (λ e. (e.0, delete text_dec node e.1))

-- `RemoveProxyInfo` between `Get` and `Update`: `none` where it does not update.
unfoldable pub remove_proxy_info : Text → Proxy → Option Proxy
remove_proxy_info pod p = elim (lookup text_dec pod p.proxy_interfaces) [
  | none ↦ none
  | some pod_info ↦
      let left = delete text_dec pod p.proxy_interfaces in
      some (record p {
        proxy_interfaces = left;
        gue_tunnel_maps =
            if has_proxys pod_info.epic_node_address left
            then p.gue_tunnel_maps
            else delete_node pod_info.epic_node_address p.gue_tunnel_maps;
      })
]
