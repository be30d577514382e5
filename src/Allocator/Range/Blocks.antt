-- ===== src/Allocator/Range/Blocks.antt =====
-- `parseCIDR` of internal/allocator/iprange.go: the range of a block of addresses.
use resource_model.Base.{
  ℕ, zero, suc, ◌+◌, ◌≤◌, ◌<◌, ◌≡◌, refl, ◌↔◌, inl, inr, Bool, true, false, Option, [], some, Text,
  ok, arith, length, Bool-cases, dec_lt, ◌∙◌,
}
use resource_model.Allocator.Ip.{Ip, inc}
use resource_model.Allocator.Ip.Value.{
  IsBytes, value, span, length-inc, inc-IsBytes, value-lt-span, value-inc_wrap, value-inc_lt,
}
use resource_model.Allocator.Range.{IpRange}
use resource_model.Allocator.Range.Bounds.{IsValid}
use resource_model.Allocator.Range.Parse.{has_dash, cidr_loop, parse_cidr_range, new_ip_range}

-- The network contains the addresses of this length whose numbers lie between two numbers, which
-- are not all addresses of this length. An IPv6 block with the IPv4-mapped addresses is none: `Contains`
-- takes those for addresses of four bytes, and refuses them.
pub record IsBlock (contains : Ip → Bool) (n low high : ℕ) : Type 0 where
  pub inside :
      (ip : Ip)
      → IsBytes ip
      → length ip ≡ n
      → (contains ip ≡ true) ↔ (low ≤ value ip) × (value ip ≤ high)
  pub bounded : (ip : Ip) → length ip ≡ n → (high < span ip) × (high + 1 < span ip + low)

-- The last address of the block.
abbrev IsLast : ℕ → ℕ → Ip → Type 0
IsLast n high ip = IsBytes ip × (length ip ≡ n) × (value ip ≡ high)

cidr_loop-stop :
    (fuel : ℕ) (contains : Ip → Bool) (to last : Ip)
    → contains to ≡ false
    → cidr_loop (suc fuel) contains to last ≡ some last
unfolding cidr_loop
cidr_loop-stop fuel contains to last e = ground arith

cidr_loop-step :
    (fuel : ℕ) (contains : Ip → Bool) (to last : Ip)
    → contains to ≡ true
    → cidr_loop (suc fuel) contains to last ≡ cidr_loop fuel contains (inc to) to
unfolding cidr_loop
cidr_loop-step fuel contains to last e = ground arith

module _ (contains : Ip → Bool) (n low high : ℕ) (block : IsBlock contains n low high) where
  after_last : (ip : Ip) → IsLast n high ip → contains (inc ip) ≡ false
  after_last ip (b, l, e) = elim (Bool-cases (contains (inc ip))) [
    | inr no_more ↦ no_more
    | inl more ↦
        let within = (block.inside (inc ip) (inc-IsBytes ip b) (length-inc ip ∙ l)).0 more in
        absurd (elim (dec_lt (value ip + 1) (span ip)) [
          | yes fits ↦ omega (arith, within, value-inc_lt ip b fits, e)
          | no d ↦
              let full : value ip + 1 ≡ span ip = omega (arith, value-lt-span ip b) in
              omega (arith, within, value-inc_wrap ip b full, block.bounded ip l, e)
        ])
  ]

  cidr_loop-IsLast :
      (fuel : ℕ) (to last : Ip)
      → IsBytes to
      → length to ≡ n
      → low ≤ value to
      → value to ≤ high
      → high + 2 ≤ fuel + value to
      → (r : Ip) × (cidr_loop fuel contains to last ≡ some r) × IsLast n high r
  cidr_loop-IsLast zero to last b l lo hi enough = absurd (omega arith)
  cidr_loop-IsLast (suc zero) to last b l lo hi enough = absurd (omega arith)
  cidr_loop-IsLast (suc (suc fuel)) to last b l lo hi enough =
      let step = cidr_loop-step (suc fuel) contains to last ((block.inside to b l).1 (lo, hi)) in
      elim (dec_lt (value to) high) [
        | yes less ↦
            let up = value-inc_lt to b (omega (arith, block.bounded to l)) in
            let (r, e, is_last) =
              cidr_loop-IsLast (suc fuel) (inc to) to (inc-IsBytes to b) (length-inc to ∙ l)
                (omega (arith, up)) (omega (arith, up)) (omega (arith, up)) in
            (r, step ∙ e, is_last)
        | no top ↦
            let is_last : IsLast n high to = (b, l, omega arith) in
            (to, step ∙ cidr_loop-stop fuel contains (inc to) to (after_last to is_last), is_last)
      ]

-- A text without a dash that `net.ParseCIDR` reads as an address of a block, where the block is not
-- all addresses of that length, and `Contains` accepts exactly its addresses: with more rounds than the block has addresses from there on,
-- `NewIPRange` makes a valid range from that address to the last one of the block.
pub new_ip_range-IsValid :
    (parse_ip : Text → Option Ip) (parse_cidr : Text → Option (Ip × (Ip → Bool))) (fuel : ℕ)
    (raw : Text) (from : Ip) (contains : Ip → Bool) (low high : ℕ)
    → has_dash raw ≡ false
    → parse_cidr raw ≡ some (from, contains)
    → IsBytes from
    → IsBlock contains (length from) low high
    → contains from ≡ true
    → high + 2 ≤ fuel + value from
    → (r : IpRange) × (new_ip_range parse_ip parse_cidr fuel raw ≡ ok r)
      × IsValid r
      × (r.from ≡ from)
      × (value r.to ≡ high)
unfolding new_ip_range parse_cidr_range
new_ip_range-IsValid parse_ip parse_cidr fuel raw from contains low high dash parsed b block inside
      enough =
    let (lo, hi) = (block.inside from b refl).0 inside in
    let (to, e, (bt, lt, vt)) =
      cidr_loop-IsLast contains (length from) low high block fuel from [] b refl lo hi enough in
    let r : IpRange = record { from = from; to = to } in
    (
      r,
      ground arith,
      record { from_bytes = b; to_bytes = bt; family = lt; ordered = omega arith },
      refl,
      vt,
    )
