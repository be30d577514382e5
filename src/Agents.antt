-- ===== src/Agents.antt =====
-- controllers/gwproxy_agent_controller.go: what the agent on a node does for a proxy. Its shell commands
-- are values, and the functions that change the node's network are parameters.
pub mod Commands
pub mod Reconciled
use resource_model.Base.{
  ℕ, Bool, true, false, ◌||◌, List, [], ◌∷◌, ◌++◌, Option, none, some, Text, text, text_dec, ite,
  if◌then◌else◌, Result, ok, err, ◌andthen◌,
}
use resource_model.GoMap.{GoMap}
use resource_model.Finalizers.{Library, add_finalizer, remove_finalizer}
use resource_model.Links.{
  NamespacedName, GwRoute, GwEndpointSlice, RemoteEndpoint, active_proxy_endpoints,
}
use resource_model.Proxies.{Tunnel, TunnelMaps, tunnel_at}
use resource_model.Allocator.Ip.{Ip}
use resource_model.Allocator.Pool.{ServicePort}
use resource_model.Allocator.Allocations.{AddressPool}
use resource_model.PodLabels.{owning_lb_service_group, owning_service_prefix, owning_account}
use resource_model.Envoys.{ServiceGroup, Prefix, Epic, config_namespace}
use resource_model.Envoys.Controller.{label_of}

-- `ProxyInterfaceInfo`, with the fields that the agent reads.
pub record Interface : Type 0 where
  pub epic_node_address : Text
  pub name : Text
  pub index : ℕ

pub record GwProxy : Type 0 where
  pub namespace : Text
  pub name : Text
  pub deleting : Bool
  pub labels : GoMap Text Text
  pub public_address : Text
  pub alt_address : Text
  pub public_ports : List ServicePort
  pub proxy_interfaces : GoMap Text Interface
  pub gue_tunnel_maps : TunnelMaps

-- The scripts of `configureTunnel` and `configureService`, before they are printed.
pub data Command : Type 0 where
  configure_tunnel : Tunnel → Command
  configure_service : RemoteEndpoint → ℕ → ℕ → Command

-- The body of the inner loop, for one endpoint.
unfoldable pub endpoint_commands : TunnelMaps → Interface → RemoteEndpoint → List Command
endpoint_commands maps info ep = elim (tunnel_at maps ep.node_address info.epic_node_address) [
  | none ↦ []
  | some t ↦ configure_tunnel t ∷ configure_service ep info.index t.tunnel_id ∷ []
]

unfoldable pub each_endpoint : TunnelMaps → Interface → List RemoteEndpoint → List Command
each_endpoint maps info [] = []
each_endpoint maps info (ep ∷ reps) = endpoint_commands maps info ep ++ each_endpoint maps info reps

-- The two tests at the start of the loop over the interfaces: it is on this node, and has its name.
unfoldable pub is_mine : Text → Interface → Bool
is_mine me info =
    ite (text_dec info.epic_node_address me) (ite (text_dec info.name []) false true) false

-- The loop over the interfaces.
unfoldable pub commands_for :
    Text → TunnelMaps → List RemoteEndpoint → GoMap Text Interface → List Command
commands_for me maps reps [] = []
commands_for me maps reps ((name, info) ∷ interfaces) =
    let rest = commands_for me maps reps interfaces in
    if is_mine me info then each_endpoint maps info reps ++ rest else rest

-- `hasProxy` after the loop.
unfoldable pub has_proxy : Text → GoMap Text Interface → Bool
has_proxy me [] = false
has_proxy me ((name, info) ∷ interfaces) =
    let rest = has_proxy me interfaces in if is_mine me info then true else rest

-- The Kubernetes client; the address of the node, which it reads from its interfaces and the singleton;
-- and the node's commands and network, of which `cleanup` is `cleanupLinux` of a pool that is not nil.
pub record Client (S E : Type 0) : Type 1 where
  pub get_proxy : S → NamespacedName → S × Result E GwProxy
  pub get_service_group : S → NamespacedName → S × Result E ServiceGroup
  pub get_prefix : S → NamespacedName → S × Result E Prefix
  pub get_account : S → NamespacedName → S × Option E
  pub get_epic : S → S × Result E Epic
  pub list_routes : S → Text → S × Result E (List GwRoute)
  pub list_slices : S → Text → S × Result E (List GwEndpointSlice)
  pub my_address : S → Epic → S × Result E Text
  pub run : S → Command → S
  pub cleanup : S → Text → AddressPool → GwProxy → Ip → S
  pub add_ipset_entry : S → GwProxy → S × Option E
  pub parse_ip : Text → Option Ip
  pub is_not_found : E → Bool
  pub finalizers : Library S GwProxy E

pub data Error (E : Type 0) : Type 0 where
  client : E → Error E
  bad_address : Text → Error E
  panic : Error E

module _ {S E : Type 0} (cl : Client S E) (finalizer_name : Text) where
  abbrev Outcome : Type 0
  Outcome = S × Option (Error E)

  -- The errors of the commands are logged.
  unfoldable pub run_all : List Command → S → S
  run_all [] s = s
  run_all (c ∷ cs) s = run_all cs (cl.run s c)

  -- `cleanupLinux`, whose errors are logged. `RemoveMultusRoute` follows the pool, and panics if it is nil.
  unfoldable pub cleanup_linux : Text → Option AddressPool → GwProxy → Ip → S → Outcome
  cleanup_linux prefix none proxy ip s = (s, some panic)
  cleanup_linux prefix (some pool) proxy ip s = (cl.cleanup s prefix pool proxy ip, none)

  -- The call for the public address, and that for the alternative one if there is one.
  unfoldable pub clean_up : Prefix → GwProxy → Ip → Option Ip → S → Outcome
  clean_up sp proxy public alt s =
      cleanup_linux sp.name sp.public_pool proxy public s andthen (λ s1. elim alt [
        | none ↦ (s1, none)
        | some ip ↦ cleanup_linux sp.name sp.alt_pool proxy ip s1
      ])

  abbrev checked : S × Option E → Outcome
  checked (s, none) = (s, none)
  checked (s, some e) = (s, some (client e))

  unfoldable pub delete_proxy : Prefix → GwProxy → Ip → Option Ip → S → Outcome
  delete_proxy sp proxy public alt s = clean_up sp proxy public alt s andthen (λ s1.
      let (s2, _, failed) = remove_finalizer cl.finalizers finalizer_name (s1, proxy) in
      checked (s2, failed))

  -- The end of `Reconcile`: the ports are opened on a node with an Envoy of the proxy, and on others
  -- its traces are removed.
  unfoldable pub finish : Prefix → GwProxy → Ip → Option Ip → Text → S → Outcome
  finish sp proxy public alt me s =
      if has_proxy me proxy.proxy_interfaces
      then checked (cl.add_ipset_entry s proxy)
      else clean_up sp proxy public alt s

  -- From the lists on.
  unfoldable pub set_up :
      Prefix → Epic → GwProxy → Ip → Option Ip → List GwRoute → List GwEndpointSlice → S → Outcome
  set_up sp epic proxy public alt routes slices s =
      elim (active_proxy_endpoints (record { namespace = proxy.namespace; name = proxy.name })
        routes slices) [
          | none ↦ (s, some panic)
          | some reps ↦
              let (s1, mine) = cl.my_address s epic in
              elim mine [
                | err e ↦ (s1, some (client e))
                | ok me ↦
                    finish sp proxy public alt me (
                      run_all (commands_for me proxy.gue_tunnel_maps reps proxy.proxy_interfaces)
                        s1)
              ]
        ]

  -- The two addresses are those of the proxy before `AddFinalizer` reads it again.
  unfoldable pub serve_proxy : Prefix → Epic → GwProxy → Ip → Option Ip → S → Outcome
  serve_proxy sp epic proxy public alt s =
      let (s1, kept, failed) = add_finalizer cl.finalizers finalizer_name (s, proxy) in
      elim failed [
        | some e ↦ (s1, some (client e))
        | none ↦
            let (s2, listed) = cl.list_routes s1 kept.namespace in
            elim listed [
              | err e ↦ (s2, some (client e))
              | ok routes ↦
                  let (s3, listed') = cl.list_slices s2 kept.namespace in
                  elim listed' [
                    | err e ↦ (s3, some (client e))
                    | ok slices ↦ set_up sp epic kept public alt routes slices s3
                  ]
            ]
      ]

  -- The objects above the proxy, with the return at the first that cannot be read.
  unfoldable pub read_stack : NamespacedName → GwProxy → S → S × Result E (Prefix × Epic)
  read_stack request proxy s =
      let (s1, group) = cl.get_service_group s (record {
        namespace = request.namespace;
        name = label_of proxy.labels owning_lb_service_group;
      }) in
      elim group [
        | err e ↦ (s1, err e)
        | ok sg ↦
            let (s2, prefix) = cl.get_prefix s1 (record {
              namespace = config_namespace;
              name = label_of sg.labels owning_service_prefix;
            }) in
            elim prefix [
              | err e ↦ (s2, err e)
              | ok sp ↦
                  let (s3, account) = cl.get_account s2 (record {
                    namespace = request.namespace;
                    name = label_of sg.labels owning_account;
                  }) in
                  elim account [
                    | some e ↦ (s3, err e)
                    | none ↦
                        let (s4, singleton) = cl.get_epic s3 in
                        elim singleton [ err e ↦ (s4, err e) | ok epic ↦ (s4, ok (sp, epic)) ]
                  ]
            ]
      ]

  -- `Reconcile`
  unfoldable pub reconcile_agent : NamespacedName → S → Outcome
  reconcile_agent request s =
      let (s1, got) = cl.get_proxy s request in
      elim got [
        | err e ↦ (s1, if cl.is_not_found e then none else some (client e))
        | ok proxy ↦
            let (s2, stack) = read_stack request proxy s1 in
            elim stack [
              | err e ↦ (s2, some (client e))
              | ok (sp, epic) ↦ elim (cl.parse_ip proxy.public_address) [
                | none ↦ (s2, some (bad_address proxy.public_address))
                | some public ↦
                    let alt = cl.parse_ip proxy.alt_address in
                    if proxy.deleting
                    then delete_proxy sp proxy public alt s2
                    else serve_proxy sp epic proxy public alt s2
              ]
            ]
      ]
