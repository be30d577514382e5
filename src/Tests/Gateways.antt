-- ===== src/Tests/Gateways.antt =====
-- A proxy with one route and no endpoints yet, in a cluster that does not change.
use native.Mathlib.Decide.{ℕ_discrete}
use resource_model.Base.{
  ℕ, ◌≡◌, refl, [], ◌∷◌, none, some, arith, Text, text, text_dec, true, false, ok, err,
}
use resource_model.Links.{
  NamespacedName, GwRoute, parents, backends, refers_to, is_child_of, child_routes_of,
  get_child_routes, append_each, route_endpoints, active_proxy_endpoints,
}
use resource_model.Proxies.{Tunnel, add_tunnels, proxy_tunnels}
use resource_model.Envoys.{masked, alt_addresses, deployment_for_proxy}
use resource_model.Gateways.{
  GwProxy, Client, kludged, try_kludge, kludge_proxy, launch, read_endpoints, patch_proxy_tunnels,
  allocate_proxy_tunnels, store_config,
}
use resource_model.Gateways.Controller.{
  configure, connect, read_stack, serve_proxy, reconcile_proxy,
}
use resource_model.Gateways.Tunnels.{IsPatched, allocate_proxy_tunnels_lem}
use resource_model.Gateways.Reconciled.{IsReconciled, reconcile_proxy_lem}
use resource_model.Tests.Configs
use resource_model.Tests.Configs.{templates, in_order, route, config, never, configured}
use resource_model.Tests.Envoys
use resource_model.Tests.Envoys.{network, service_prefix}
use resource_model.Tests.Data.{web, with_web}

abbrev proxy : GwProxy
proxy = record {
  deleting = false;
  labels = [];
  gateway_class_name = text "epic";
  has_listeners = true;
  proxy_interfaces = (text "pod", record { epic_node_address = text "192.168.0.1" }) ∷ [];
  gue_tunnel_maps = [];
  envoy = Envoys.proxy;
  config = Configs.proxy;
}

abbrev base : Tunnel
base = record { address = []; port = 6080; tunnel_id = 0 }

abbrev link : GwRoute
link = record {
  namespace = text "epic-a";
  name = web;
  deleting = false;
  http = none;
  tcp = some (record { parent_refs = web ∷ []; rules = (text "east" ∷ []) ∷ [] });
}

abbrev cluster : Client Unit Text ℕ Text
cluster = record {
  get_proxy = λ s n. (s, ok proxy);
  update_proxy = λ s p. (s, none);
  get_service_group = λ s n. (s, ok (record { labels = []; envoy_image = none }));
  get_prefix = λ s n. (s, ok service_prefix);
  get_account = λ s n. (s, none);
  get_epic = λ s. (s, ok (record { envoy_image = text "envoy:1"; service_cidr = [] }, base));
  list_routes = λ s n. (s, ok (link ∷ []));
  list_slices = λ s n. (s, ok []);
  create_deployment = λ s d. (s, none);
  get_deployment = λ s n. (s, err []);
  put_deployment = λ s d. (s, none);
  create_config = λ s c. (s, none);
  get_config = λ s n. (s, err []);
  update_config = λ s c. (s, none);
  patch_tunnels = λ s p ops. (s, ok p);
  fresh_tunnel_id = λ s. (s, ok 1);
  retry_on_conflict = λ f s. f s;
  is_not_found = λ e. false;
  message = λ e. e;
  finalizers = record {
    get = λ s. (s, err []);
    update = λ s o. (s, o, none);
    contains_finalizer = λ o n. false;
    add_finalizer = λ o n. o;
    remove_finalizer = λ o n. o;
    retry_on_conflict = λ f x. f x;
  };
  rules_of = λ r. route;
}

abbrev request : NamespacedName
request = record { namespace = text "epic-a"; name = web }

patched : allocate_proxy_tunnels cluster proxy tt ≡ (tt, ok proxy)
unfolding allocate_proxy_tunnels patch_proxy_tunnels read_endpoints active_proxy_endpoints
    append_each route_endpoints is_child_of refers_to parents backends text_dec proxy_tunnels
    add_tunnels
patched = refl

allocate_proxy_tunnels_lem_example : IsPatched cluster proxy tt proxy tt
allocate_proxy_tunnels_lem_example = allocate_proxy_tunnels_lem cluster proxy proxy tt tt patched

served :
    reconcile_proxy cluster network templates in_order
      (λ b. b)
      ℕ_discrete
      some
      never
      never
      never
      (text "epic")
      request
      tt
      with_web
    ≡ (tt, with_web, none)
unfolding reconcile_proxy kludge_proxy try_kludge kludged serve_proxy read_stack launch
    deployment_for_proxy masked alt_addresses connect configure store_config get_child_routes
    child_routes_of parents text_dec
served = ground (arith, patched, configured)

reconcile_proxy_lem_example :
    IsReconciled cluster network templates in_order
      (λ b. b)
      ℕ_discrete
      some
      never
      never
      never
      (text "epic")
      request
      tt
      tt
      with_web
      with_web
reconcile_proxy_lem_example =
    reconcile_proxy_lem cluster network templates in_order (λ b. b) ℕ_discrete some never never
      never (text "epic") (λ f s. (s, refl)) request tt tt with_web with_web served
