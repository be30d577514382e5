-- ===== src/Tests/Remotes.antt =====
-- An endpoint of a load balancer, in a cluster that does not change.
use resource_model.Base.{
  ◌≡◌, ◌↔◌, ◌⊎◌, refl, [], ◌∷◌, none, some, Text, text, text_dec, true, false, ok,
}
use resource_model.GoMap.{lookup}
use resource_model.Finalizers.{add_finalizer}
use resource_model.Links.{NamespacedName}
use resource_model.Proxies.{Tunnel, endpoint_tunnels}
use resource_model.Remotes.{
  RemoteEndpoint, LoadBalancer, Client, Fallible, remove_rep_info, try_remove, store_without,
  can_parse, validate_create, serve_endpoint, add_proxy_tunnels, reconcile_endpoint,
}
use resource_model.Remotes.Removed.{IsRemoved, remove_rep_info_lem}
use resource_model.Remotes.Validated.{IsWelcome, validate_create_lem}
use resource_model.Remotes.Reconciled.{IsReconciled, reconcile_endpoint_lem}
use resource_model.Tests.Data.{parse_ip, web}

abbrev rep : Text → RemoteEndpoint
rep name = record {
  name = name;
  deleting = false;
  labels = (text "epic.acnodal.io/owning-loadbalancer", web) ∷ [];
  finalizers = [];
  spec = record {
    endpoint = record {
      cluster = text "east";
      address = text "10.0.0.1";
      node_address = text "10.0.0.3";
      port = 80;
      protocol = text "TCP";
    };
    port_name = [];
    app_protocol = none;
  };
}

abbrev balancer : LoadBalancer
balancer = record {
  labels = some [];
  upstream_clusters = text "east" ∷ [];
  proxy_interfaces = (text "pod", record { epic_node_address = text "192.168.0.1" }) ∷ [];
  gue_tunnel_maps = (text "10.0.0.3", []) ∷ [];
}

abbrev base : Tunnel
base = record { address = []; port = 6080; tunnel_id = 0 }

abbrev cluster : Client Unit Text
cluster = record {
  get_endpoint = λ s n. (s, ok (rep (text "rep-1")));
  get_load_balancer = λ s n. (s, ok balancer);
  update_load_balancer = λ s n lb. (s, none);
  list_endpoints = λ s n. (s, ok []);
  get_base = λ s. (s, ok base);
  patch_load_balancer = λ s n node new raw. (s, none);
  allocate_id = λ s. (s, ok 1);
  random = λ s. (s, text "0a");
  is_not_found = λ e. false;
  finalizers = record {
    get = λ s. (s, ok (rep (text "rep-1")));
    update = λ s o. (s, o, none);
    contains_finalizer = λ o n. true;
    add_finalizer = λ o n. o;
    remove_finalizer = λ o n. o;
    retry_on_conflict = λ f x. f x;
  };
}

abbrev request : NamespacedName
request = record { namespace = text "epic-a"; name = text "rep-1" }

abbrev once : {S : Type 0} → (S → S × Fallible Text) → S → S × Fallible Text
once f s = f s

patched : reconcile_endpoint cluster once (text "epic") request tt ≡ (tt, some none)
unfolding reconcile_endpoint text_dec serve_endpoint lookup add_finalizer add_proxy_tunnels
    endpoint_tunnels
patched = refl

reconcile_endpoint_lem_example : IsReconciled cluster once (text "epic") request tt tt
reconcile_endpoint_lem_example =
    reconcile_endpoint_lem cluster once (text "epic") request tt tt patched

validate_create_lem_example :
    ((validate_create cluster parse_ip (text "epic-a") (rep (text "rep-1")) tt).1 ≡ none) ↔ (
      (can_parse cluster parse_ip (text "10.0.0.1") ≡ true)
      × ((text "10.0.0.3" ≡ []) ⊎ (can_parse cluster parse_ip (text "10.0.0.3") ≡ true))
      × IsWelcome cluster parse_ip (text "epic-a") (rep (text "rep-1")) tt)
validate_create_lem_example =
    validate_create_lem cluster parse_ip (text "epic-a") (rep (text "rep-1")) tt

removed :
    remove_rep_info cluster once (text "epic") request (rep (text "rep-1")) tt ≡ (tt, some none)
unfolding remove_rep_info try_remove store_without
removed = refl

remove_rep_info_lem_example : IsRemoved cluster once (text "epic") request (rep (text "rep-1")) tt
remove_rep_info_lem_example =
    remove_rep_info_lem cluster once (text "epic") (λ f s. (s, refl)) request (rep (text "rep-1"))
      tt tt removed
