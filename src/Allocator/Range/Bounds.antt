-- ===== src/Allocator/Range/Bounds.antt =====
-- Ranges of addresses as ranges of numbers.
use Prim.Native.Nat.{Ordering}
use resource_model.Base.{
  ℕ, zero, suc, ◌+◌, ◌-◌, ◌%◌, ◌^◌, ◌≤◌, ◌<◌, ◌≡◌, refl, ◌↔◌, ◌⊎◌, inl, inr, true, false, [], ◌∷◌,
  none, some, arith, length, take, Bool-cases, sym, ap, ◌∙◌, ◌≢◌,
}
use resource_model.Allocator.Ip.{Ip, compare_bytes, inc, max_uint64, to_4}
use resource_model.Allocator.Ip.Value.{
  IsBytes, value, value-lt-span, span-eq_of_length, compare_bytes_cases, length-inc, inc-IsBytes,
  value-inc_lt, to_int-value,
}
use resource_model.Allocator.Range.{
  IpRange, contains, overlaps, first, next, differs, inclusive, size,
}

-- An address of the family of the range, as bytes.
pub record IsLike (r : IpRange) (ip : Ip) : Type 0 where
  pub bytes : IsBytes ip
  pub family : length ip ≡ length r.from

-- Both ends are addresses of one family, and the range is not empty.
pub record IsValid (r : IpRange) : Type 0 where
  pub from_bytes : IsBytes r.from
  pub to_bytes : IsBytes r.to
  pub family : length r.to ≡ length r.from
  pub ordered : value r.from ≤ value r.to

-- The address lies in the range.
abbrev pub Within : IpRange → Ip → Type 0
Within r ip = (value r.from ≤ value ip) × (value ip ≤ value r.to)

module _ (r : IpRange) (v : IsValid r) (ip : Ip) (like : IsLike r ip) where
  from_cases :
      ((compare_bytes ip r.from ≡ Ordering.lt) × (value ip < value r.from))
      ⊎ ((compare_bytes ip r.from ≡ Ordering.eq) × (value ip ≡ value r.from))
      ⊎ ((compare_bytes ip r.from ≡ Ordering.gt) × (value r.from < value ip))
  from_cases = compare_bytes_cases ip r.from like.bytes v.from_bytes like.family

  to_cases :
      ((compare_bytes ip r.to ≡ Ordering.lt) × (value ip < value r.to))
      ⊎ ((compare_bytes ip r.to ≡ Ordering.eq) × (value ip ≡ value r.to))
      ⊎ ((compare_bytes ip r.to ≡ Ordering.gt) × (value r.to < value ip))
  to_cases =
      compare_bytes_cases ip r.to like.bytes v.to_bytes (omega (arith, like.family, v.family))

  -- `Contains` says whether the address lies between the two ends, both included.
  contains-Within : (contains r ip ≡ true) ↔ Within r ip
  unfolding contains
  contains-Within = ground (arith, from_cases, to_cases)

  succ : value ip < value r.to → value (inc ip) ≡ value ip + 1
  succ h = value-inc_lt ip like.bytes (
      omega (
        arith,
        value-lt-span r.to v.to_bytes,
        span-eq_of_length r.to ip (omega (arith, like.family, v.family)),
      ))

  -- `Next` is nil exactly from the last address on, and otherwise the address one further, which is
  -- again an address of the family.
  pub next_lem :
      ((value r.to ≤ value ip) × (next r ip ≡ none))
      ⊎ ((value ip < value r.to)
          × (next r ip ≡ some (inc ip))
          × (value (inc ip) ≡ value ip + 1)
          × IsLike r (inc ip))
  unfolding next
  next_lem = elim to_cases [
    | inl (e, h) ↦ inr (
      h,
      ground arith,
      succ h,
      record {
        bytes = inc-IsBytes ip like.bytes;
        family = omega (arith, length-inc ip, like.family);
      },
    )
    | inr (inl (e, h)) ↦ inl (omega arith, ground arith)
    | inr (inr (e, h)) ↦ inl (omega arith, ground arith)
  ]

module _ (r other : IpRange) (v : IsValid r) (w : IsValid other)
    (family : length other.from ≡ length r.from) where
  -- `Overlaps` says whether an end of the other range lies in this one.
  overlaps_lem : (overlaps r other ≡ true) ↔ (Within r other.from ⊎ Within r other.to)
  unfolding overlaps
  overlaps_lem =
      let a : IsLike r other.from = record { bytes = w.from_bytes; family = family } in
      let b : IsLike r other.to = record {
        bytes = w.to_bytes;
        family = omega (arith, w.family, family);
      } in
      ground (
        arith,
        from_cases r v other.from a,
        to_cases r v other.from a,
        from_cases r v other.to b,
        to_cases r v other.to b,
      )

-- The case that `Overlaps` misses: a range strictly around this one shares addresses with it, and
-- the answer is still no, though asked the other way round it is yes.
pub overlaps_around :
    (r other : IpRange)
    → IsValid r
    → IsValid other
    → length other.from ≡ length r.from
    → value other.from < value r.from
    → value r.to < value other.to
    → (overlaps r other ≡ false) × (overlaps other r ≡ true) × Within other r.from
overlaps_around r other v w family below above = ground (
  arith,
  overlaps_lem r other v w family,
  overlaps_lem other r w v (sym family),
  Bool-cases (overlaps r other),
)

-- the first address is in the range
pub first-Within : (r : IpRange) → IsValid r → IsLike r (first r) × Within r (first r)
unfolding first
first-Within r v = (record { bytes = v.from_bytes; family = refl }, omega arith)

-- The number of addresses in the range.
abbrev pub count : IpRange → ℕ
count r = value r.to - value r.from + 1

inclusive-count : (r : IpRange) → IsValid r → inclusive r ≡ count r % 2 ^ 64
inclusive-count r v = omega (arith, to_int-value r.from, to_int-value r.to)

differs-take :
    (n : ℕ) (from to : Ip)
    → n ≤ length from
    → length to ≡ length from
    → ((differs n from to ≡ some false) × (take n from ≡ take n to))
      ⊎ ((differs n from to ≡ some true) × (take n from ≢ take n to))
unfolding differs
differs-take zero from to h l = inl (refl, refl)
differs-take (suc n) [] to h l = absurd (omega arith)
differs-take (suc n) (f ∷ from) [] h l = absurd (omega arith)
differs-take (suc n) (f ∷ from) (t ∷ to) h l =
    ground (arith, differs-take n from to (omega arith) (omega arith))

-- `Size` never panics on an IPv6 range. It counts the addresses modulo 2^64 where both ends begin
-- with the same eight bytes, and is the largest uint64 where they do not.
pub size_v6 :
    (r : IpRange)
    → IsValid r
    → length r.from ≡ 16
    → to_4 r.from ≡ none
    → ((take 8 r.from ≡ take 8 r.to) × (size r ≡ some (count r % 2 ^ 64)))
      ⊎ ((take 8 r.from ≢ take 8 r.to) × (size r ≡ some max_uint64))
unfolding size
size_v6 r v l e = elim (differs-take 8 r.from r.to (omega arith) v.family) [
  | inl (d, h) ↦ inl (h, rw (e, size, d) (ap some (inclusive-count r v)))
  | inr (d, h) ↦ inr (h, rw (e, size, d))
]

-- A range of all 2^64 addresses that begin with the same eight bytes has the size 0.
pub size_block :
    (r : IpRange)
    → IsValid r
    → length r.from ≡ 16
    → to_4 r.from ≡ none
    → take 8 r.from ≡ take 8 r.to
    → count r ≡ 2 ^ 64
    → size r ≡ some 0
size_block r v l e same all = elim (size_v6 r v l e) [
  | inl (_, s) ↦ s ∙ ap some (omega arith)
  | inr (h, _) ↦ absurd (h same)
]
