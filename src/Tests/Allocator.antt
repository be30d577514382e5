-- ===== src/Tests/Allocator.antt =====
-- internal/allocator at concrete addresses, pools and calls.
use resource_model.Base.{
  ◌≡◌, refl, [], ◌∷◌, none, some, Text, text, text_dec, ok, trim_prefix?, ap, subst, ◌≢◌, ◌⊎◌,
}
use resource_model.GoMap.{lookup, insert}
use resource_model.Allocator.Ip
use resource_model.Allocator.Ip.{
  Ip, ip_dec, to_4, to_int, to_int_loop, compare_bytes, inc, inc_loop, v4_prefix,
}
use resource_model.Allocator.Range
use resource_model.Allocator.Range.{IpRange}
use resource_model.Allocator.Range.Parse.{
  has_dash, split_dash, trim_left, trim_space, parse_from_to, new_ip_range,
}
use resource_model.Allocator.Pool
use resource_model.Allocator.Pool.{LocalPool, ServicePort, Key, int, port_dec}
use resource_model.Allocator.Allocations.{
  Error, pool_for, validate_delete, Alloc, Allocator, new_allocator, unassign, assign,
  allocate_from_pool, allocate_new, assign_alloc, record_assignment, add_alt_pool, add_prefix,
}
use resource_model.Allocator.Allocations.Exclusive.{IsSound}
use resource_model.Allocator.Allocations.Pools.{validate_delete_lem}
use resource_model.Allocator.Allocations.Runs.{
  IsReachable, start, then, add, allocate, IsReachable-IsSound, no_address_twice,
}
use resource_model.Tests.Data.{
  address, parse_ip, parse_cidr, prefix, web, with_pool, http, web_alloc, with_web,
}

-- `AddPrefix` parses the range and creates the pool.
prefix_added : add_prefix parse_ip parse_cidr 9 new_allocator prefix ≡ (with_pool, none)
unfolding add_prefix new_ip_range parse_from_to has_dash split_dash trim_space trim_left text_dec
    insert Pool.size Range.size to_4 trim_prefix? to_int to_int_loop Pool.in_use Pool.new_local_pool
    new_allocator add_alt_pool
prefix_added = refl

-- The first service gets the first address.
web_allocated :
    allocate_from_pool 9 with_pool web (text "pub") (http ∷ []) [] ≡ ok (address 1, with_web)
unfolding allocate_from_pool allocate_new assign_alloc record_assignment unassign lookup insert
    text_dec Pool.assign_next Pool.assign_from Pool.assign Pool.available Pool.occupy Pool.first
    Pool.sharing_key Range.first Pool.in_use Pool.size Range.size to_4 to_int to_int_loop
    Pool.take_ports Pool.compatible Pool.port_conflict Pool.sharing_ok Ip.string port_dec
    Pool.services_on_ip Pool.other_services ip_dec
web_allocated = refl

reach_pool : IsReachable parse_ip parse_cidr 9 with_pool
unfolding lookup new_allocator
reach_pool =
    subst (IsReachable parse_ip parse_cidr 9) (ap (λ r. r.0) prefix_added)
      (then start (add prefix refl refl))

reach_web : IsReachable parse_ip parse_cidr 9 with_web
reach_web =
    then reach_pool (allocate web (text "pub") (address 1) (http ∷ []) with_web web_allocated)

pub sound_pool : IsSound with_pool
sound_pool = IsReachable-IsSound parse_ip parse_cidr 9 reach_pool

pub sound_web : IsSound with_web
sound_web = IsReachable-IsSound parse_ip parse_cidr 9 reach_web

no_address_twice_example : web ≡ web
unfolding lookup text_dec
no_address_twice_example =
    no_address_twice parse_ip parse_cidr 9 with_web web web web_alloc web_alloc reach_web refl refl
      refl refl

pub web_assigned : assign with_pool web (address 1) (http ∷ []) [] ≡ ok (text "pub", with_web)
unfolding assign pool_for assign_alloc record_assignment unassign lookup insert text_dec Pool.assign
    Pool.available Pool.occupy Pool.sharing_key Pool.contains Range.contains compare_bytes
    Range.first Pool.in_use Pool.size Range.size to_4 to_int to_int_loop Pool.take_ports Ip.string
    port_dec ip_dec
web_assigned = refl

validate_delete_lem_example :
    ((validate_delete with_web prefix ≡ none)
      × ((svc : Text) (al : Alloc)
          → lookup text_dec svc with_web.allocated ≡ some al
          → al.pool ≢ prefix.name))
    ⊎ ((x : Error) × (svc : Text) × (al : Alloc) × (validate_delete with_web prefix ≡ some x)
        × (lookup text_dec svc with_web.allocated ≡ some al)
        × (al.pool ≡ prefix.name))
unfolding lookup
validate_delete_lem_example = validate_delete_lem with_web prefix (refl, tt)
