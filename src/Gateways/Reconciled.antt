-- ===== src/Gateways/Reconciled.antt =====
-- What the proxy controller did where it reports no error.
use mathlib.Core.Option.{get_or}
use resource_model.Base.{
  ◌≡◌, ◌⊎◌, inl, inr, Bool, true, false, List, map, Option, none, arith, Text, Option-cases,
  Bool-cases, Result, ok, err, Result-cases, andthen-none,
}
use resource_model.Routing.Rules.{LongSort}
use resource_model.Finalizers.{remove_finalizer}
use resource_model.Links.{NamespacedName, GwRoute, get_child_routes}
use resource_model.Allocator.Allocations.{Allocator, unassign}
use resource_model.Prefixes.{namespaced}
use resource_model.Envoys.{
  ServiceGroup, Prefix, Epic, EnvoyDeployment, Network, deployment_for_proxy,
}
use resource_model.Routing.Configs
use resource_model.Routing.Configs.{Route, EnvoyConfig, Templates}
use resource_model.Routing.Configs.Translation.{Ranges}
use resource_model.Gateways.{GwProxy, Client, Error, kludge_proxy, launch, allocate_proxy_tunnels}
use resource_model.Gateways.Controller.{
  config_for, configure, connect, read_stack, serve_proxy, delete_proxy, reconcile_proxy,
}
use resource_model.Gateways.Tunnels.{IsPatched, allocate_proxy_tunnels_lem}
use resource_model.Gateways.Stored.{
  Retries, IsLaunched, launch-IsLaunched, IsStored, store_config-IsStored,
}

module _ {S E F B A N T : Type 0} (cl : Client S E F B) (net : Network A N)
    (tp : Templates T (Route F B) E) (rg : Ranges (Route F B)) (ref_name : B → Text)
    (filter_dec : Discrete F) (sort_long : LongSort F B)
    (is_ip is_wildcard_subdomain is_subdomain : Text → Bool) (finalizer_name : Text) where
  abbrev made_for : GwProxy → List (Route F B) → Result (Configs.Error E) EnvoyConfig
  made_for =
      config_for cl net tp rg ref_name filter_dec sort_long is_ip is_wildcard_subdomain is_subdomain
        finalizer_name

  abbrev stack : NamespacedName → GwProxy → S → S × Result E (ServiceGroup × Prefix × Epic)
  stack =
      read_stack cl net tp rg ref_name filter_dec sort_long is_ip is_wildcard_subdomain is_subdomain
        finalizer_name

  -- The configuration that the routes of the proxy give is stored.
  abbrev pub IsConfigured : GwProxy → S → S → Type 0
  IsConfigured proxy s s' =
      (routes : List GwRoute) × (made : EnvoyConfig) × ((cl.list_routes s proxy.envoy.namespace).1
        ≡ ok routes)
      × (made_for proxy (map cl.rules_of (get_child_routes proxy.envoy.name routes)) ≡ ok made)
      × IsStored cl proxy made (cl.list_routes s proxy.envoy.namespace).0 s'

  configure-IsConfigured :
      (proxy : GwProxy) (s s' : S)
      → configure cl net tp rg ref_name filter_dec sort_long is_ip is_wildcard_subdomain
          is_subdomain finalizer_name proxy s
        ≡ (s', none)
      → IsConfigured proxy s s'
  unfolding configure
  configure-IsConfigured proxy s s' e =
      elim (Result-cases (cl.list_routes s proxy.envoy.namespace).1) [
        | inr (x, bad) ↦ absurd (ground arith)
        | inl (routes, listed) ↦
            elim (Result-cases
              (made_for proxy (map cl.rules_of (get_child_routes proxy.envoy.name routes)))) [
                | inr (x, bad) ↦ absurd (ground arith)
                | inl (made, good) ↦ (
                  routes,
                  made,
                  listed,
                  good,
                  store_config-IsStored cl proxy made _ s' (ground arith),
                )
              ]
      ]

  connect-IsConnected :
      (proxy : GwProxy) (s s' : S)
      → connect cl net tp rg ref_name filter_dec sort_long is_ip is_wildcard_subdomain is_subdomain
          finalizer_name proxy s
        ≡ (s', none)
      → (connected : GwProxy) × (patched : S) × IsPatched cl proxy s connected patched
        × IsConfigured connected patched s'
  unfolding connect
  connect-IsConnected proxy s s' e =
      let run = allocate_proxy_tunnels cl proxy s in
      elim (Result-cases run.1) [
        | inr (x, bad) ↦ absurd (ground arith)
        | inl (connected, good) ↦ (
          connected,
          run.0,
          allocate_proxy_tunnels_lem cl proxy connected s run.0 (ground arith),
          configure-IsConfigured connected run.0 s' (ground arith),
        )
      ]

  -- The proxy is served from the objects above it: its deployment is launched, its tunnels are patched,
  -- and the configuration of the proxy that the patch gave is stored, in this order.
  abbrev pub IsServed : NamespacedName → GwProxy → S → S → Type 0
  IsServed request proxy s s' =
      (sg : ServiceGroup) × (sp : Prefix) × (epic : Epic) × (dep : EnvoyDeployment) × (launched : S)
      × (connected : GwProxy) × (patched : S) × ((stack request proxy s).1 ≡ ok (sg, sp, epic))
      × (deployment_for_proxy net proxy.envoy sp (get_or sg.envoy_image epic.envoy_image)
            epic.service_cidr
          ≡ ok dep)
      × IsLaunched cl dep (stack request proxy s).0 launched
      × IsPatched cl proxy launched connected patched
      × IsConfigured connected patched s'

  serve_proxy-IsServed :
      Retries cl
      → (request : NamespacedName) (proxy : GwProxy) (s s' : S)
      → serve_proxy cl net tp rg ref_name filter_dec sort_long is_ip is_wildcard_subdomain
          is_subdomain finalizer_name request proxy s
        ≡ (s', none)
      → IsServed request proxy s s'
  unfolding serve_proxy
  serve_proxy-IsServed retries request proxy s s' e =
      elim (Result-cases (stack request proxy s).1) [
        | inr (x, bad) ↦ absurd (ground arith)
        | inl ((sg, sp, epic), read) ↦
            let s1 : S = (stack request proxy s).0 in
            let made =
              deployment_for_proxy net proxy.envoy sp (get_or sg.envoy_image epic.envoy_image)
                epic.service_cidr in
            let run : S × Option (Error E) = launch cl made s1 in
            let rest =
              connect cl net tp rg ref_name filter_dec sort_long is_ip is_wildcard_subdomain
                is_subdomain finalizer_name proxy in
            let (first, last) = andthen-none run rest s' (ground arith) in
            let (dep, is, launched) = launch-IsLaunched cl retries made s1 run.0 first in
            let (connected, patched, two, three) = connect-IsConnected proxy run.0 s' last in
            (sg, sp, epic, dep, run.0, connected, patched, read, is, launched, two, three)
      ]

  abbrev pub IsReconciled : NamespacedName → S → S → Allocator → Allocator → Type 0
  IsReconciled request s s' a a' =
      let read = cl.get_proxy s request in
      ((e : E) × (read.1 ≡ err e) × (cl.is_not_found e ≡ true) × (a' ≡ a))
      ⊎ ((proxy : GwProxy) × (kept : S) × (read.1 ≡ ok proxy)
          × (proxy.deleting ≡ true)
          × (kludge_proxy cl request read.0 ≡ (kept, none))
          × (a' ≡ (unassign a (namespaced request.namespace request.name)).0)
          × ((remove_finalizer cl.finalizers finalizer_name (kept, proxy)).2 ≡ none))
      ⊎ ((proxy : GwProxy) × (kept : S) × (read.1 ≡ ok proxy)
          × (proxy.deleting ≡ false)
          × (kludge_proxy cl request read.0 ≡ (kept, none))
          × (a' ≡ a)
          × IsServed request proxy kept s')

  -- Where `Reconcile` of a proxy reports no error, one of three holds. The object is not there, and the
  -- allocator is as it was. Or it is to be deleted: `Unassign` has freed its address, whatever it
  -- answered, and the finalizer was removed without an error. Or the objects above it could be read, the
  -- deployment that they ask for was created, or updated where it was there, after that the tunnels to
  -- its clients were patched in, and last the configuration of the proxy as the patch returned it, for
  -- its child routes, was created, or updated where it was there; the allocator is as it was.
  pub reconcile_proxy_lem :
      Retries cl
      → (request : NamespacedName) (s s' : S) (a a' : Allocator)
      → reconcile_proxy cl net tp rg ref_name filter_dec sort_long is_ip is_wildcard_subdomain
          is_subdomain finalizer_name request s a
        ≡ (s', a', none)
      → IsReconciled request s s' a a'
  unfolding reconcile_proxy delete_proxy
  reconcile_proxy_lem retries request s s' a a' e =
      let s1 : S = (cl.get_proxy s request).0 in
      elim (Result-cases (cl.get_proxy s request).1) [
        | inr (x, gone) ↦ elim (Bool-cases (cl.is_not_found x)) [
          | inl is ↦ inl (x, gone, is, ground arith)
          | inr is ↦ absurd (ground arith)
        ]
        | inl (proxy, got) ↦
            let kept : S = (kludge_proxy cl request s1).0 in
            elim (Option-cases (kludge_proxy cl request s1).1) [
              | inr (y, bad) ↦ absurd (ground arith)
              | inl fine ↦ elim (Bool-cases proxy.deleting) [
                | inl is ↦
                    elim (Option-cases
                      (remove_finalizer cl.finalizers finalizer_name (kept, proxy)).2) [
                        | inl good ↦
                            inr (inl (proxy, kept, got, is, ground arith, ground arith, good))
                        | inr (y, bad) ↦ absurd (ground arith)
                      ]
                | inr is ↦
                    let served =
                      serve_proxy cl net tp rg ref_name filter_dec sort_long is_ip
                        is_wildcard_subdomain is_subdomain finalizer_name request proxy kept in
                    let done : served ≡ (s', none) = ground arith in
                    inr (
                      inr (
                        proxy,
                        kept,
                        got,
                        is,
                        ground arith,
                        ground arith,
                        serve_proxy-IsServed retries request proxy kept s' done,
                      ))
              ]
            ]
      ]
