-- ===== src/Tests/Data.antt =====
-- Addresses, pools and allocators of the tests.
use resource_model.Base.{
  ℕ, Bool, true, ◌≡◌, refl, ◌<◌, [], ◌∷◌, ◌++◌, Option, none, some, arith, Text, text, text_dec,
  ite, trim_prefix?,
}
use resource_model.GoMap.{lookup}
use resource_model.Allocator.Ip.{Ip, to_4, to_int, to_int_loop, v4_prefix}
use resource_model.Allocator.Ip.Value.{value, span}
use resource_model.Allocator.Range
use resource_model.Allocator.Range.{IpRange}
use resource_model.Allocator.Range.Bounds.{IsValid, count}
use resource_model.Allocator.Pool.{LocalPool, ServicePort, Key, int}
use resource_model.Allocator.Allocations.{ServicePrefix, Alloc, Allocator, alloc_of}

abbrev pub address : ℕ → Ip
address n = 10 ∷ 0 ∷ 0 ∷ n ∷ []

abbrev pub parse_ip : Text → Option Ip
parse_ip t =
    ite (text_dec t (text "10.0.0.1")) (some (address 1))
      (ite (text_dec t (text "10.0.0.3")) (some (address 3)) none)

abbrev pub parse_cidr : Text → Option (Ip × (Ip → Bool))
parse_cidr t = none

abbrev pub prefix : ServicePrefix
prefix = record {
  name = text "pub";
  public_pool = some (record {
    pool = text "10.0.0.1 - 10.0.0.3";
    subnet = text "10.0.0.0/24";
    aggregation = text "default";
  });
  alt_pool = none;
}

abbrev pub web : Text
web = text "web"

abbrev pub api : Text
api = text "api"

abbrev pub range : IpRange
range = record { from = address 1; to = address 3 }

abbrev pub pool : LocalPool
pool = record {
  addresses = some range;
  addresses_in_use = [];
  sharing_keys = [];
  ports_in_use = [];
  subnet_v4 = text "10.0.0.0/24";
  aggregation = text "default";
}

abbrev pub with_pool : Allocator
with_pool = record {
  pools = (text "pub", pool) ∷ [];
  allocated = [];
  pool_capacity = (text "pub", 3) ∷ [];
  pool_active = (text "pub", 0) ∷ [];
}

abbrev pub http : ServicePort
http = record {
  name = text "http";
  protocol = text "TCP";
  app_protocol = none;
  port = 80;
  target_port = int 8080;
  node_port = 0;
}

abbrev pub key_1 : Ip
key_1 = v4_prefix ++ address 1

abbrev pub unkeyed : Key
unkeyed = record { sharing = [] }

-- The pool after the service got the first address.
abbrev pub pool_held : Text → LocalPool
pool_held svc = record pool {
  addresses_in_use = (key_1, (svc, true) ∷ []) ∷ [];
  sharing_keys = (key_1, some unkeyed) ∷ [];
  ports_in_use = (key_1, (http, svc) ∷ []) ∷ [];
}

abbrev pub pool_web : LocalPool
pool_web = pool_held web

abbrev pub web_alloc : Alloc
web_alloc = alloc_of (text "pub") (address 1) (http ∷ []) []

abbrev pub with_held : Text → Allocator
with_held svc = record with_pool {
  pools = (text "pub", pool_held svc) ∷ [];
  allocated = (svc, web_alloc) ∷ [];
  pool_active = (text "pub", 1) ∷ [];
}

abbrev pub with_web : Allocator
with_web = with_held web

pub range_valid : IsValid range
unfolding value span
range_valid = record {
  from_bytes = ground arith;
  to_bytes = ground arith;
  family = refl;
  ordered = ground arith;
}

pub range_size : Range.size range ≡ some 3
unfolding Range.size to_4 to_int to_int_loop trim_prefix?
range_size = refl

pub range_count : count range < 9
unfolding value span
range_count = ground arith

pub web_known : lookup text_dec (text "pub") with_web.pools ≡ some pool_web
unfolding lookup text_dec
web_known = refl
