-- ===== src/Tests/Prefixes.antt =====
-- A warm-up of the allocator with one load balancer.
use resource_model.Base.{
  ◌≡◌, refl, [], ◌∷◌, none, arith, Text, text, text_dec, true, false, ok, err,
}
use resource_model.Prefixes.{
  LoadBalancer, Client, warm, warm_load_balancers, warm_proxies, warm_from_proxies, warm_up,
}
use resource_model.Prefixes.Warming.{load_balancer_claims, IsWarm, warm_up-IsWarm}
use resource_model.Tests.Data.{parse_ip, parse_cidr, prefix, web, http, with_pool, with_web}
use resource_model.Tests.Allocator.{sound_pool, web_assigned}

abbrev balancer : LoadBalancer
balancer = record {
  namespace = text "epic";
  name = web;
  public_address = text "10.0.0.1";
  public_ports = http ∷ [];
}

-- A cluster that does not change.
abbrev cluster : Client Unit Text
cluster = record {
  get_prefix = λ s n. (s, ok (record { deleting = false; prefix = prefix }));
  finalizers = record {
    get = λ s. (s, err []);
    update = λ s o. (s, o, none);
    contains_finalizer = λ o n. false;
    add_finalizer = λ o n. o;
    remove_finalizer = λ o n. o;
    retry_on_conflict = λ f x. f x;
  };
  has_net_attach_def = λ s n. (s, true);
  netdef_for_sp = λ p. none;
  add_net_attach_def = λ s p. (s, none);
  list_load_balancers = λ s n. (s, ok (balancer ∷ []));
  list_proxies = λ s n. (s, ok []);
  is_not_found = λ e. false;
}

warmed :
    warm_up parse_ip parse_cidr 9 cluster (text "epic") (text "pub") tt with_pool
    ≡ (tt, with_web, none)
unfolding warm_up warm_load_balancers warm warm_from_proxies warm_proxies text_dec
warmed = ground (arith, web_assigned)

warm_up-IsWarm_example : IsWarm parse_ip (load_balancer_claims (balancer ∷ [])) with_pool with_web
warm_up-IsWarm_example =
    warm_up-IsWarm parse_ip parse_cidr 9 cluster (text "epic") (text "pub") tt tt with_pool with_web
      (balancer ∷ []) [] sound_pool refl refl (tt, tt) warmed
