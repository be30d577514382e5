-- ===== src/Tests/Envoys.antt =====
-- Load balancers and proxies of a cluster that does not change.
use resource_model.Base.{
  ◌≡◌, refl, [], ◌∷◌, ◌++◌, none, some, Text, text, Bool, true, false, Result, ok, err, ◌⊎◌,
}
use resource_model.Links.{NamespacedName}
use resource_model.Finalizers.{remove_finalizer}
use resource_model.Allocator.Allocations.{unassign}
use resource_model.Prefixes.{namespaced}
use resource_model.Envoys.{LoadBalancer, GwProxy, Prefix, Network, deployment_for_lb, masked}
use resource_model.Envoys.Controller.{
  Client, launch, launch_envoy, read_stack, reconcile_load_balancer,
}
use resource_model.Envoys.Launched.{IsServed, reconcile_load_balancer_lem}
use resource_model.Tests.Data.{web, http, with_web}

-- Addresses, networks and attachments are texts.
abbrev pub network : Network Text Text
network = record {
  parse_addr = λ t. some t;
  parse_ip_net = λ t. some t;
  under_mask = λ a n. a ++ n;
  marshal = λ name namespace default addresses. some name;
}

abbrev balancer : Bool → LoadBalancer
balancer deleting = record {
  namespace = text "epic-a";
  name = web;
  deleting = deleting;
  labels = [];
  public_address = text "10.0.0.1";
  public_ports = http ∷ [];
}

abbrev pub proxy : GwProxy
proxy = record {
  namespace = text "epic-a";
  name = web;
  public_address = text "10.0.0.1";
  alt_address = [];
  public_ports = http ∷ [];
  envoy_replica_count = some 2;
}

abbrev pub service_prefix : Prefix
service_prefix = record {
  namespace = text "epic";
  name = text "pub";
  public_pool = some (record { pool = []; subnet = text "/24"; aggregation = [] });
  alt_pool = none;
}

abbrev cluster : Bool → Client Unit Text
cluster deleting = record {
  get_load_balancer = λ s n. (s, ok (balancer deleting));
  get_service_group = λ s n. (s, ok (record { labels = []; envoy_image = none }));
  get_prefix = λ s n. (s, ok service_prefix);
  get_account = λ s n. (s, none);
  get_epic = λ s. (s, ok (record { envoy_image = text "envoy:1"; service_cidr = [] }));
  create = λ s o. (s, none);
  get_deployment = λ s n. (s, err []);
  update = λ s o. (s, none);
  retry_on_conflict = λ f s. f s;
  is_not_found = λ e. false;
  message = λ e. e;
  finalizers = record {
    get = λ s. (s, err []);
    update = λ s o. (s, o, none);
    contains_finalizer = λ o n. false;
    add_finalizer = λ o n. o;
    remove_finalizer = λ o n. o;
    retry_on_conflict = λ f x. f x;
  };
}

abbrev found : Result Text LoadBalancer
found = ok (balancer false)

abbrev request : NamespacedName
request = record { namespace = text "epic-a"; name = web }

launched :
    reconcile_load_balancer (cluster false) network (text "epic") request tt with_web
    ≡ (tt, with_web, none)
unfolding reconcile_load_balancer launch_envoy read_stack launch deployment_for_lb masked
launched = refl

reconcile_load_balancer_lem_example :
    ((e : Text) × (found ≡ err e) × (false ≡ true) × (with_web ≡ with_web))
    ⊎ ((lb : LoadBalancer) × (found ≡ ok lb)
        × (lb.deleting ≡ true)
        × (with_web ≡ (unassign with_web (namespaced request.namespace request.name)).0)
        × ((remove_finalizer (cluster false).finalizers (text "epic") (tt, lb)).2 ≡ none))
    ⊎ ((lb : LoadBalancer) × (found ≡ ok lb)
        × (lb.deleting ≡ false)
        × (with_web ≡ with_web)
        × IsServed (cluster false) network (text "epic") request lb tt)
reconcile_load_balancer_lem_example =
    reconcile_load_balancer_lem (cluster false) network (text "epic") (λ f s. (s, refl)) request tt
      tt with_web with_web launched
