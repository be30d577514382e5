-- ===== src/Allocator/Range.antt =====
-- internal/allocator/iprange.go: `IPRange` and its queries. `NewIPRange` parses text by the
-- standard library and is not modelled.
pub mod Bounds
pub mod Parse
pub mod Blocks
use resource_model.Base.{
  ℕ, zero, suc, ◌+◌, ◌-◌, ◌%◌, ◌^◌, Bool, true, false, ◌&&◌, ◌||◌, List, [], ◌∷◌, Option, none,
  some, if◌then◌else◌, ◌==◌,
}
use resource_model.Allocator.Ip.{Ip, compare_ge, compare_le, inc, dup, max_uint64, to_int, to_4}

pub record IpRange : Type 0 where
  pub from : Ip
  pub to : Ip

unfoldable pub contains : IpRange → Ip → Bool
contains r ip = if compare_ge ip r.from && compare_le ip r.to then true else false

unfoldable pub overlaps : IpRange → IpRange → Bool
overlaps r other =
    if (compare_ge other.from r.from && compare_le other.from r.to)
      || (compare_ge other.to r.from && compare_le other.to r.to)
    then true
    else false

unfoldable pub first : IpRange → Ip
first r = dup r.from

-- `none` is the nil address.
unfoldable pub next : IpRange → Ip → Option Ip
next r ip = if compare_ge ip r.to then none else some (inc (dup ip))

-- The loop of `Size` over the first bytes of both ends: whether one differs. `none` is the panic of
-- an index past the end of either.
unfoldable pub differs : ℕ → Ip → Ip → Option Bool
differs zero from to = some false
differs (suc i) [] to = none
differs (suc i) (f ∷ from) [] = none
differs (suc i) (f ∷ from) (t ∷ to) =
    let rest = differs i from to in if t == f then rest else some true

-- uint64 arithmetic wraps around. `none` is the panic.
abbrev inclusive : IpRange → ℕ
inclusive r = (1 + to_int r.to + 2 ^ 64 - to_int r.from) % 2 ^ 64

unfoldable pub size : IpRange → Option ℕ
unfolding differs
size r = elim (to_4 r.from) [
  | some _ ↦ some (inclusive r)
  | none ↦ elim (differs 8 r.from r.to) [
    | none ↦ none
    | some true ↦ some max_uint64
    | some false ↦ some (inclusive r)
  ]
]
