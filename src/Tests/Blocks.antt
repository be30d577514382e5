-- ===== src/Tests/Blocks.antt =====
-- `NewIPRange` on a block in CIDR notation.
use resource_model.Base.{
  ℕ, ◌≡◌, refl, Bool, ◌&&◌, leb, Option, some, none, Text, text, text_dec, ok, ite, arith,
}
use resource_model.Allocator.Ip.{Ip, inc, inc_loop}
use resource_model.Allocator.Ip.Value.{value, span, span-eq_of_length}
use resource_model.Allocator.Range.{IpRange}
use resource_model.Allocator.Range.Bounds.{IsValid}
use resource_model.Allocator.Range.Parse.{new_ip_range, parse_cidr_range, has_dash, cidr_loop}
use resource_model.Allocator.Range.Blocks.{IsBlock, new_ip_range-IsValid}
use resource_model.Tests.Data.{address}

-- The number of 10.0.0.0.
abbrev low : ℕ
low = 167772160

abbrev high : ℕ
high = 167772163

abbrev contains : Ip → Bool
contains ip = leb low (value ip) && leb (value ip) high

abbrev parse_ip : Text → Option Ip
parse_ip t = none

abbrev parse_cidr : Text → Option (Ip × (Ip → Bool))
parse_cidr t = ite (text_dec t (text "10.0.0.1/30")) (some (address 1, contains)) none

contains-IsBlock : IsBlock contains 4 low high
unfolding span
contains-IsBlock = record {
  inside = λ ip b l. ground arith;
  bounded = λ ip l. omega (arith, span-eq_of_length ip (address 0) l);
}

new_ip_range-IsValid_example :
    (r : IpRange) × (new_ip_range parse_ip parse_cidr 5 (text "10.0.0.1/30") ≡ ok r)
    × IsValid r
    × (r.from ≡ address 1)
    × (value r.to ≡ high)
unfolding has_dash text_dec value span
new_ip_range-IsValid_example =
    new_ip_range-IsValid parse_ip parse_cidr 5 (text "10.0.0.1/30") (address 1) contains low high
      refl refl (ground arith) contains-IsBlock refl (omega arith)

new_ip_range-block :
    new_ip_range parse_ip parse_cidr 5 (text "10.0.0.1/30")
    ≡ ok (record { from = address 1; to = address 3 })
unfolding new_ip_range parse_cidr_range has_dash cidr_loop text_dec value span inc inc_loop
new_ip_range-block = refl
