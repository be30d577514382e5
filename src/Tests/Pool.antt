-- ===== src/Tests/Pool.antt =====
-- internal/allocator/iprange.go and internal/allocator/localpool.go at concrete addresses.
use resource_model.Base.{ℕ, refl, List, [], ◌∷◌, arith}
use resource_model.Allocator.Ip.Value.{value, span}
use resource_model.Allocator.Range.{IpRange}
use resource_model.Allocator.Range.Bounds.{IsValid, IsLike}
use resource_model.Allocator.Pool
use resource_model.Allocator.Pool.{LocalPool, ServicePort, Key, at, port_dec, sharing_key}
use resource_model.Tests.Data.{address, range}

IsLike-2 : IsLike range (address 2)
IsLike-2 = record { bytes = ground arith; family = refl }

-- A range around the other.
abbrev wide : IpRange
wide = record { from = address 0; to = address 9 }

wide_valid : IsValid wide
unfolding value span
wide_valid = record {
  from_bytes = ground arith;
  to_bytes = ground arith;
  family = refl;
  ordered = ground arith;
}

-- The last eight bytes of an IPv6 address.
abbrev tail : ℕ → List ℕ
tail n = n ∷ n ∷ n ∷ n ∷ n ∷ n ∷ n ∷ n ∷ []

abbrev block : IpRange
block = record {
  from = 32 ∷ 1 ∷ 13 ∷ 184 ∷ 0 ∷ 0 ∷ 0 ∷ 1 ∷ tail 0;
  to = 32 ∷ 1 ∷ 13 ∷ 184 ∷ 0 ∷ 0 ∷ 0 ∷ 1 ∷ tail 255;
}

block_valid : IsValid block
unfolding value span
block_valid = record {
  from_bytes = ground arith;
  to_bytes = ground arith;
  family = refl;
  ordered = ground arith;
}
