-- ===== src/Allocator/Range/Parse.antt =====
-- `NewIPRange` of internal/allocator/iprange.go. The readers of single addresses and of CIDR
-- notation, `net.ParseIP` and `net.ParseCIDR` with the test `Contains` of its network, are
-- parameters; `strings.TrimSpace` is modelled on ASCII, in which addresses are written.
use resource_model.Base.{
  ℕ, zero, suc, Bool, true, false, ◌&&◌, ◌||◌, [], ◌∷◌, Option, none, some, if◌then◌else◌, ◌==◌,
  leb, Text, Result, ok, ◌>>=◌, or_fail,
}
use mathlib.Core.List.{reverse}
use resource_model.Allocator.Ip.{Ip, inc, dup}
use resource_model.Allocator.Range.{IpRange}

pub data Error : Type 0 where
  invalid_cidr need_two_addresses : Text → Error
  invalid_start_ip invalid_end_ip : Text → Text → Error
  out_of_fuel : Error

-- `strings.Contains(raw, "-")`
unfoldable pub has_dash : Text → Bool
has_dash [] = false
has_dash (c ∷ cs) = if c == b'-' then true else has_dash cs

-- `strings.SplitN(raw, "-", 2)`: the pieces before and behind the first dash.
unfoldable pub split_dash : Text → Option (Text × Text)
split_dash [] = none
split_dash (c ∷ cs) =
    let rest = split_dash cs in
    if c == b'-'
    then some ([], cs)
    else elim rest [ none ↦ none | some (before, behind) ↦ some (c ∷ before, behind) ]

is_space : ℕ → Bool
is_space c = c == 32 || (leb 9 c && leb c 13)

unfoldable pub trim_left : Text → Text
unfolding is_space
trim_left [] = []
trim_left (c ∷ cs) = let rest = trim_left cs in if is_space c then rest else c ∷ cs

-- `strings.TrimSpace`
unfoldable pub trim_space : Text → Text
unfolding trim_left
trim_space s = reverse (trim_left (reverse (trim_left s)))

-- The loop of `parseCIDR`: `last` is the field `to` so far. `none` is more rounds than the fuel.
unfoldable pub cidr_loop : ℕ → (Ip → Bool) → Ip → Ip → Option Ip
cidr_loop zero contains to last = none
cidr_loop (suc fuel) contains to last =
    let rest = cidr_loop fuel contains (inc to) (dup to) in if contains to then rest else some last

module _ (parse_ip : Text → Option Ip) (parse_cidr : Text → Option (Ip × (Ip → Bool))) where
  unfoldable pub parse_from_to : Text → Result Error IpRange
  parse_from_to raw = do
    (start, end) ← or_fail (split_dash raw) (need_two_addresses raw)
    from ← or_fail (parse_ip (trim_space start)) (invalid_start_ip raw start)
    to ← or_fail (parse_ip (trim_space end)) (invalid_end_ip raw end)
    ok (record { from = from; to = to })

  unfoldable pub parse_cidr_range : ℕ → Text → Result Error IpRange
  parse_cidr_range fuel cidr = do
    (from, contains) ← or_fail (parse_cidr cidr) (invalid_cidr cidr)
    to ← or_fail (cidr_loop fuel contains from []) out_of_fuel
    ok (record { from = dup from; to = to })

  unfoldable pub new_ip_range : ℕ → Text → Result Error IpRange
  unfolding parse_from_to parse_cidr_range
  new_ip_range fuel raw = if has_dash raw then parse_from_to raw else parse_cidr_range fuel raw
