-- ===== src/Gateways/Controller.antt =====
-- controllers/gwproxy_controller.go: `Reconcile` of a proxy.
use mathlib.Core.Option.{get_or}
use resource_model.Base.{
  Bool, List, map, Option, none, some, Text, if◌then◌else◌, Result, ok, err, ◌andthen◌,
}
use resource_model.Routing.Rules.{LongSort}
use resource_model.Finalizers.{remove_finalizer}
use resource_model.Links.{NamespacedName, get_child_routes}
use resource_model.Allocator.Allocations.{Allocator, unassign}
use resource_model.Prefixes.{namespaced}
use resource_model.PodLabels.{owning_lb_service_group, owning_service_prefix, owning_account}
use resource_model.Envoys.{
  ServiceGroup, Prefix, Epic, Network, deployment_for_proxy, config_namespace,
}
use resource_model.Envoys.Controller.{label_of}
use resource_model.Routing.Configs
use resource_model.Routing.Configs.{Route, EnvoyConfig, Templates}
use resource_model.Routing.Configs.Translation.{Ranges, gw_proxy_to_envoy_config}
use resource_model.Gateways.{
  Client, Error, GwProxy, allocate_proxy_tunnels, client, config, kludge_proxy, launch,
  store_config,
}

module _ {S E F B A N T : Type 0} (cl : Client S E F B) (net : Network A N)
    (tp : Templates T (Route F B) E) (rg : Ranges (Route F B)) (ref_name : B → Text)
    (filter_dec : Discrete F) (sort_long : LongSort F B)
    (is_ip is_wildcard_subdomain is_subdomain : Text → Bool) (finalizer_name : Text) where
  abbrev pub config_for : GwProxy → List (Route F B) → Result (Configs.Error E) EnvoyConfig
  config_for proxy =
      gw_proxy_to_envoy_config tp rg ref_name filter_dec sort_long is_ip is_wildcard_subdomain
        is_subdomain proxy.config

  -- The end of `Reconcile`: the configuration for the routes of the proxy.
  unfoldable pub configure : GwProxy → S → S × Option (Error E)
  configure proxy s =
      let (s1, listed) = cl.list_routes s proxy.envoy.namespace in
      elim listed [
        | err e ↦ (s1, some (client e))
        | ok routes ↦
            elim (config_for proxy (map cl.rules_of (get_child_routes proxy.envoy.name routes))) [
              | err e ↦ (s1, some (config e))
              | ok made ↦ store_config cl proxy made s1
            ]
      ]

  abbrev pub group_name : GwProxy → NamespacedName → NamespacedName
  group_name proxy request = record {
    namespace = request.namespace;
    name = label_of proxy.labels owning_lb_service_group;
  }

  abbrev pub account_name : ServiceGroup → NamespacedName → NamespacedName
  account_name sg request = record {
    namespace = request.namespace;
    name = label_of sg.labels owning_account;
  }

  abbrev pub prefix_name : ServiceGroup → NamespacedName
  prefix_name sg = record {
    namespace = config_namespace;
    name = label_of sg.labels owning_service_prefix;
  }

  -- The objects above the proxy, with the return at the first that cannot be read.
  unfoldable pub read_stack :
      NamespacedName → GwProxy → S → S × Result E (ServiceGroup × Prefix × Epic)
  read_stack request proxy s =
      let (s1, group) = cl.get_service_group s (group_name proxy request) in
      elim group [
        | err e ↦ (s1, err e)
        | ok sg ↦
            let (s2, prefix) = cl.get_prefix s1 (prefix_name sg) in
            elim prefix [
              | err e ↦ (s2, err e)
              | ok sp ↦
                  let (s3, account) = cl.get_account s2 (account_name sg request) in
                  elim account [
                    | some e ↦ (s3, err e)
                    | none ↦
                        let (s4, singleton) = cl.get_epic s3 in
                        elim singleton [
                          | err e ↦ (s4, err e)
                          | ok (epic, base) ↦ (s4, ok (sg, sp, epic))
                        ]
                  ]
            ]
      ]

  -- From the tunnels on: the configuration is made of the proxy that `Patch` has overwritten.
  unfoldable pub connect : GwProxy → S → S × Option (Error E)
  connect proxy s =
      let (s1, patched) = allocate_proxy_tunnels cl proxy s in
      elim patched [ err e ↦ (s1, some e) | ok proxy' ↦ configure proxy' s1 ]

  -- `Reconcile` of a proxy that is not to be deleted.
  unfoldable pub serve_proxy : NamespacedName → GwProxy → S → S × Option (Error E)
  serve_proxy request proxy s =
      let (s1, stack) = read_stack request proxy s in
      elim stack [
        | err e ↦ (s1, some (client e))
        | ok (sg, sp, epic) ↦
            launch cl
              (deployment_for_proxy net proxy.envoy sp (get_or sg.envoy_image epic.envoy_image)
                epic.service_cidr)
              s1
            andthen connect proxy
      ]

  abbrev Outcome : Type 0
  Outcome = S × Allocator × Option (Error E)

  -- The branch for a proxy that is to be deleted.
  unfoldable pub delete_proxy : NamespacedName → GwProxy → S → Allocator → Outcome
  delete_proxy request proxy s a =
      let (a', _) = unassign a (namespaced request.namespace request.name) in
      let (s1, _, failed) = remove_finalizer cl.finalizers finalizer_name (s, proxy) in
      elim failed [ none ↦ (s1, a', none) | some e ↦ (s1, a', some (client e)) ]

  -- `Reconcile`
  unfoldable pub reconcile_proxy : NamespacedName → S → Allocator → Outcome
  reconcile_proxy request s a =
      let (s1, got) = cl.get_proxy s request in
      elim got [
        | err e ↦ (s1, a, if cl.is_not_found e then none else some (client e))
        | ok proxy ↦
            let (s2, wrong) = kludge_proxy cl request s1 in
            elim wrong [
              | some e ↦ (s2, a, some e)
              | none ↦
                  if proxy.deleting
                  then delete_proxy request proxy s2 a
                  else (let (s3, failed) = serve_proxy request proxy s2 in (s3, a, failed))
            ]
      ]
