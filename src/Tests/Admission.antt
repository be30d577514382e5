-- ===== src/Tests/Admission.antt =====
-- The admission webhooks for one proxy and one load balancer.
use resource_model.Base.{◌≡◌, refl, [], ◌∷◌, Option, none, some, Text, text, text_dec, ok}
use resource_model.GoMap.{lookup, insert}
use resource_model.Allocator.Ip
use resource_model.Allocator.Ip.{Ip, ip_dec, to_4, to_int, to_int_loop}
use resource_model.Allocator.Range
use resource_model.Allocator.Pool
use resource_model.Allocator.Pool.{port_dec}
use resource_model.Allocator.Allocations.{
  allocate_from_pool, allocate_new, assign_alloc, record_assignment, unassign,
}
use resource_model.Allocator.Allocations.Exclusive.{IsSound}
use resource_model.Admission.{
  proxy_address, proxy_alt_address, proxy_gateway, GwProxy, LoadBalancer, ServiceGroup,
  default_proxy, finalizer_name,
}
use resource_model.Admission.Validation.{remove_loop, remove_upstream, validate_create_proxy}
use resource_model.Admission.Addresses.{HoldsAddress}
use resource_model.Admission.Admitted.{IsAllowed, admitted_lem}
use resource_model.Tests.Allocator.{sound_pool}
use resource_model.Tests.Data.{http, with_pool, with_held, address}

abbrev balancer : LoadBalancer
balancer = record {
  namespace = text "ns";
  name = text "lb";
  finalizers = [];
  envoy_template = none;
  envoy_replica_count = none;
  public_ports = [];
  public_address = [];
  endpoints = [];
  upstream_clusters = text "a" ∷ text "b" ∷ text "c" ∷ [];
}

-- The last cluster takes the place of the one that is removed.
removed :
    remove_upstream balancer (text "a")
    ≡ ok (record balancer { upstream_clusters = text "c" ∷ text "b" ∷ [] })
unfolding remove_upstream remove_loop text_dec
removed = refl

abbrev proxy : GwProxy
proxy = record {
  namespace = text "ns";
  name = text "gw";
  finalizers = [];
  envoy_template = none;
  envoy_replica_count = some 0;
  public_ports = http ∷ [];
  public_address = [];
  alt_address = [];
  endpoints = [];
  gateway_class = text "a-class";
  listeners = none;
}

abbrev group : ServiceGroup
group = record {
  owning_prefix = text "pub";
  envoy_template = text "template";
  envoy_replica_count = 2;
}

abbrev defaulted : GwProxy
defaulted = record proxy {
  finalizers = finalizer_name ∷ [];
  envoy_template = some (text "template");
  envoy_replica_count = some 2;
  public_address = address 1;
  listeners = some (record { name = text "compatibility"; port = 80; protocol = text "HTTP" } ∷ []);
}

abbrev show : Ip → Text
show ip = ip

abbrev no_dns : Text → Option Text
no_dns t = none

proxy-defaulted :
    default_proxy show no_dns 9 (some group) proxy with_pool
    ≡ some (defaulted, with_held (text "ns/gw"))
unfolding default_proxy proxy_address proxy_alt_address proxy_gateway allocate_from_pool
    allocate_new assign_alloc record_assignment unassign lookup insert text_dec Pool.assign_next
    Pool.assign_from Pool.assign Pool.available Pool.occupy Pool.first Pool.sharing_key Range.first
    Pool.in_use Pool.size Range.size to_4 to_int to_int_loop Pool.take_ports Ip.string port_dec
    ip_dec Pool.sharing_ok Pool.other_services Pool.services_on_ip Pool.port_conflict
    Pool.compatible
proxy-defaulted = refl

admitted_lem_example :
    IsSound (with_held (text "ns/gw"))
    × HoldsAddress show no_dns 9 (with_held (text "ns/gw")) (text "ns/gw") (address 1)
    × IsAllowed (ok group) (λ g. ok 5) (ok 4)
unfolding validate_create_proxy text_dec
admitted_lem_example =
    admitted_lem show no_dns 9 (some group) (ok group) (λ g. ok 5) (ok 4) proxy defaulted with_pool
      (with_held (text "ns/gw")) sound_pool refl proxy-defaulted refl
