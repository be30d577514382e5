-- ===== src/Allocator/Ip.antt =====
-- net.IP as internal/allocator/iprange.go uses it: a slice of bytes, with `inc`, `dup` and `toInt`
-- of that file, and `bytes.Compare`, `To4` and the text form of the standard library.
pub mod Value
use Prim.Native.Nat.{compare, Ordering}
use resource_model.Base.{
  ℕ, ◌+◌, ◌*◌, ◌%◌, ◌^◌, Bool, true, false, List, [], ◌∷◌, ◌++◌, Option, none, some, if◌then◌else◌,
  ◌==◌, text_dec, length, trim_prefix?,
}

abbrev pub Ip : Type 0
Ip = List ℕ

unfoldable pub ip_dec : Discrete Ip
unfolding text_dec
ip_dec = text_dec

-- `bytes.Compare`: lexicographic.
unfoldable pub compare_bytes : Ip → Ip → Ordering
compare_bytes [] [] = Ordering.eq
compare_bytes [] (y ∷ ys) = Ordering.lt
compare_bytes (x ∷ xs) [] = Ordering.gt
compare_bytes (x ∷ xs) (y ∷ ys) = elim (compare x y) [
  | Ordering.lt ↦ Ordering.lt
  | Ordering.eq ↦ compare_bytes xs ys
  | Ordering.gt ↦ Ordering.gt
]

-- `bytes.Compare(a, b) >= 0`
abbrev pub compare_ge : Ip → Ip → Bool
compare_ge a b = elim (compare_bytes a b) [ Ordering.lt ↦ false | _ ↦ true ]

-- `bytes.Compare(a, b) <= 0`
abbrev pub compare_le : Ip → Ip → Bool
compare_le a b = elim (compare_bytes a b) [ Ordering.gt ↦ false | _ ↦ true ]

-- The loop of `inc`, which runs from the last byte to the first. Beside the bytes it says whether
-- the loop is still running, that is, whether every byte so far wrapped to 0.
unfoldable pub inc_loop : Ip → Ip × Bool
inc_loop [] = ([], true)
inc_loop (b ∷ bs) =
    let (bs', running) = inc_loop bs in
    if running then ((b + 1) % 256 ∷ bs', (b + 1) % 256 == 0) else (b ∷ bs', false)

unfoldable pub inc : Ip → Ip
unfolding inc_loop
inc ip = (inc_loop ip).0

-- A copy: values are not shared here.
abbrev pub dup : Ip → Ip
dup ip = ip

abbrev pub max_uint64 : ℕ
max_uint64 = 0xffff_ffff_ffff_ffff

-- The loop of `toInt`, with the wrap-around of uint64.
unfoldable pub to_int_loop : ℕ → Ip → ℕ
to_int_loop n [] = n
to_int_loop n (b ∷ bs) = to_int_loop (((n * 256) % 2 ^ 64 + b) % 2 ^ 64) bs

unfoldable pub to_int : Ip → ℕ
unfolding to_int_loop
to_int ip = to_int_loop 0 ip

-- The twelve bytes before an IPv4 address in its 16-byte form.
abbrev pub v4_prefix : List ℕ
v4_prefix = 0 ∷ 0 ∷ 0 ∷ 0 ∷ 0 ∷ 0 ∷ 0 ∷ 0 ∷ 0 ∷ 0 ∷ 255 ∷ 255 ∷ []

-- `ip.To4()`: the four bytes of an IPv4 address in either of its two forms.
unfoldable pub to_4 : Ip → Option Ip
unfolding trim_prefix?
to_4 ip =
    if length ip == 4 then some ip else if length ip == 16 then trim_prefix? v4_prefix ip else none

-- `ip.String()` as a map key. The text of an IPv4 address is the same in both forms, and the texts
-- of any other two slices differ: so the 16-byte form stands for the text.
unfoldable pub string : Ip → Ip
string ip = if length ip == 4 then v4_prefix ++ ip else ip
