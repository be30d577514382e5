-- ===== src/Allocator/Ip/Value.antt =====
-- The address as a number, and what the byte loops do to it.
use Prim.Native.Nat.{compare, Ordering}
use native.Mathlib.Nat.{mod-eq_of_lt, mod_self, add-mul-mod_self_left}
use mathlib.Core.Path.{ap₂}
use resource_model.Base.{
  ℕ, ◌+◌, ◌*◌, ◌/◌, ◌%◌, ◌^◌, ◌<◌, ◌≡◌, refl, sym, ◌∙◌, ◌⊎◌, inl, inr, Bool, true, false, [], ◌∷◌,
  length, arith, ◌==◌, Bool-cases, ℕ_discrete,
}
use resource_model.Allocator.Ip.{Ip, compare_bytes, inc_loop, inc, to_int_loop, to_int}

abbrev pub IsBytes : Ip → Type 0
IsBytes [] = Unit
IsBytes (b ∷ bs) = (b < 256) × IsBytes bs

-- How many addresses have the length of this one.
unfoldable pub span : Ip → ℕ
span [] = 1
span (b ∷ bs) = 256 * span bs

-- The address read as a big-endian number.
unfoldable pub value : Ip → ℕ
value [] = 0
value (b ∷ bs) = b * span bs + value bs

pub value-lt-span : (ip : Ip) → IsBytes ip → value ip < span ip
unfolding value span
value-lt-span [] h = omega arith
value-lt-span (b ∷ bs) h = grind (arith, value-lt-span bs h.1)

pub span-eq_of_length : (a b : Ip) → length a ≡ length b → span a ≡ span b
unfolding span
span-eq_of_length [] [] h = refl
span-eq_of_length [] (y ∷ ys) h = absurd (omega arith)
span-eq_of_length (x ∷ xs) [] h = absurd (omega arith)
span-eq_of_length (x ∷ xs) (y ∷ ys) h = omega (arith, span-eq_of_length xs ys (omega arith))

-- What an ordering says of two numbers.
abbrev Compares : Ordering → ℕ → ℕ → Type 0
Compares Ordering.lt a b = a < b
Compares Ordering.eq a b = a ≡ b
Compares Ordering.gt a b = b < a

compare_cases :
    (a b : ℕ)
    → ((compare a b ≡ Ordering.lt) × (a < b))
      ⊎ ((compare a b ≡ Ordering.eq) × (a ≡ b))
      ⊎ ((compare a b ≡ Ordering.gt) × (b < a))
compare_cases a b = ground arith

-- A bigger leading byte outweighs all that follows.
digits_lt : (x y s v w : ℕ) → x < y → v < s → x * s + v < y * s + w
digits_lt x y s v w h k = grind arith

Compares-add : (k : ℕ) (o : Ordering) (a b : ℕ) → Compares o a b → Compares o (k + a) (k + b)
Compares-add k Ordering.lt a b h = omega arith
Compares-add k Ordering.eq a b h = omega arith
Compares-add k Ordering.gt a b h = omega arith

compare_bytes-Compares :
    (a b : Ip)
    → IsBytes a
    → IsBytes b
    → length a ≡ length b
    → Compares (compare_bytes a b) (value a) (value b)
unfolding compare_bytes value
compare_bytes-Compares [] [] ha hb l = refl
compare_bytes-Compares [] (y ∷ ys) ha hb l = absurd (omega arith)
compare_bytes-Compares (x ∷ xs) [] ha hb l = absurd (omega arith)
compare_bytes-Compares (x ∷ xs) (y ∷ ys) ha hb l = elim (compare_cases x y) [
  | inl (e, h) ↦
      rw (e, compare_bytes, span-eq_of_length ys xs (omega arith))
        (digits_lt x y (span xs) (value xs) (value ys) h (value-lt-span xs ha.1))
  | inr (inl (e, h)) ↦
      rw (e, compare_bytes, h, span-eq_of_length xs ys (omega arith))
        (Compares-add (y * span ys) (compare_bytes xs ys) _ _
          (compare_bytes-Compares xs ys ha.1 hb.1 (omega arith)))
  | inr (inr (e, h)) ↦
      rw (e, compare_bytes, span-eq_of_length xs ys (omega arith))
        (digits_lt y x (span ys) (value ys) (value xs) h (value-lt-span ys hb.1))
]

pub length-inc_loop : (ip : Ip) → length (inc_loop ip).0 ≡ length ip
unfolding inc_loop
length-inc_loop [] = refl
length-inc_loop (b ∷ bs) = ground (arith, length-inc_loop bs)

pub inc_loop-IsBytes : (ip : Ip) → IsBytes ip → IsBytes (inc_loop ip).0
unfolding inc_loop
inc_loop-IsBytes [] h = tt
inc_loop-IsBytes (b ∷ bs) h = ground (arith, inc_loop-IsBytes bs)

carry : Bool → ℕ → ℕ
carry true n = n
carry false n = 0

-- A byte that is counted up while the loop runs.
carry_into :
    (b s v w : ℕ)
    → b < 256
    → w + s ≡ v + 1
    → (b + 1) % 256 * s + w + carry ((b + 1) % 256 == 0) (256 * s) ≡ b * s + v + 1
unfolding carry
carry_into b s v w h e = elim (ℕ_discrete b 255) [
  | yes p ↦ rw p (omega arith)
  | no p ↦ let m : (b + 1) % 256 ≡ b + 1 = omega arith in rw m (ground arith)
]

inc_loop-value :
    (ip : Ip) → IsBytes ip → value (inc_loop ip).0 + carry (inc_loop ip).1 (span ip) ≡ value ip + 1
unfolding inc_loop value span carry
inc_loop-value [] h = refl
inc_loop-value (b ∷ bs) h =
    let ih = inc_loop-value bs h.1 in
    let same = span-eq_of_length (inc_loop bs).0 bs (length-inc_loop bs) in
    elim (Bool-cases (inc_loop bs).1) [
      | inl e ↦
          rw (e, same) (carry_into b (span bs) (value bs) (value (inc_loop bs).0) h.0 (rw e at ih))
      | inr e ↦ rw (e, same) (let ih' = rw e at ih in omega arith)
    ]

read_ordering :
    (o : Ordering) (a b : ℕ)
    → Compares o a b
    → ((o ≡ Ordering.lt) × (a < b)) ⊎ ((o ≡ Ordering.eq) × (a ≡ b)) ⊎ ((o ≡ Ordering.gt) × (b < a))
read_ordering Ordering.lt a b h = inl (refl, h)
read_ordering Ordering.eq a b h = inr (inl (refl, h))
read_ordering Ordering.gt a b h = inr (inr (refl, h))

-- `bytes.Compare` on addresses of one family compares the numbers.
pub compare_bytes_cases :
    (a b : Ip)
    → IsBytes a
    → IsBytes b
    → length a ≡ length b
    → ((compare_bytes a b ≡ Ordering.lt) × (value a < value b))
      ⊎ ((compare_bytes a b ≡ Ordering.eq) × (value a ≡ value b))
      ⊎ ((compare_bytes a b ≡ Ordering.gt) × (value b < value a))
compare_bytes_cases a b ha hb l = read_ordering _ _ _ (compare_bytes-Compares a b ha hb l)

pub length-inc : (ip : Ip) → length (inc ip) ≡ length ip
unfolding inc
length-inc ip = length-inc_loop ip

pub inc-IsBytes : (ip : Ip) → IsBytes ip → IsBytes (inc ip)
unfolding inc
inc-IsBytes ip h = inc_loop-IsBytes ip h

-- `inc` counts up by one modulo the number of addresses of that length, on bytes of any number.
value-inc : (ip : Ip) → IsBytes ip → value (inc ip) ≡ (value ip + 1) % span ip
unfolding inc carry
value-inc ip h =
    let total = inc_loop-value ip h in
    let below = value-lt-span ip h in
    elim (Bool-cases (inc_loop ip).1) [
      | inl e ↦
          let total' = rw (e, carry) at total in
          let full : value ip + 1 ≡ span ip = omega arith in rw (full, mod_self) (omega arith)
      | inr e ↦
          let total' = rw (e, carry) at total in
          let fits : value ip + 1 < span ip = omega (
            arith,
            value-lt-span (inc_loop ip).0 (inc_loop-IsBytes ip h),
            span-eq_of_length (inc_loop ip).0 ip (length-inc_loop ip),
          ) in
          rw (mod-eq_of_lt fits) (omega arith)
    ]

pub value-inc_wrap : (ip : Ip) → IsBytes ip → value ip + 1 ≡ span ip → value (inc ip) ≡ 0
value-inc_wrap ip h full = rw (value-inc ip h, full, mod_self) refl

pub value-inc_lt : (ip : Ip) → IsBytes ip → value ip + 1 < span ip → value (inc ip) ≡ value ip + 1
value-inc_lt ip h k = rw (value-inc ip h) (mod-eq_of_lt k)

-- What wrapped off the accumulator is a multiple of the modulus.
mod_shift : (m n k s v : ℕ) → ((n + m * k) * s + v) % m ≡ (n * s + v) % m
mod_shift m n k s v =
    let regroup : (n + m * k) * s + v ≡ (n * s + v) + m * (k * s) = omega arith in
    rw regroup (add-mul-mod_self_left (n * s + v) m (k * s))

to_int_loop-value :
    (n : ℕ) (ip : Ip) → to_int_loop n ip % 2 ^ 64 ≡ (n * span ip + value ip) % 2 ^ 64
unfolding to_int_loop value span
to_int_loop-value n [] = omega arith
to_int_loop-value n (b ∷ bs) =
    let m : ℕ = 2 ^ 64 in
    let n' = ((n * 256) % m + b) % m in
    let k = (n * 256) / m + ((n * 256) % m + b) / m in
    let split : n * 256 + b ≡ n' + m * k = omega arith in
    let whole : n * (256 * span bs) + (b * span bs + value bs)
        ≡ (n * 256 + b) * span bs + value bs =
      omega arith in
    to_int_loop-value n' bs ∙ sym (rw (whole, split) (mod_shift m n' k (span bs) (value bs)))

to_int_loop-lt : (n : ℕ) (ip : Ip) → n < 2 ^ 64 → to_int_loop n ip < 2 ^ 64
unfolding to_int_loop
to_int_loop-lt n [] h = h
to_int_loop-lt n (b ∷ bs) h = to_int_loop-lt (((n * 256) % 2 ^ 64 + b) % 2 ^ 64) bs (omega arith)

-- `toInt` is the address modulo 2^64.
pub to_int-value : (ip : Ip) → to_int ip ≡ value ip % 2 ^ 64
unfolding to_int
to_int-value ip = omega (arith, to_int_loop-lt 0 ip (omega arith), to_int_loop-value 0 ip)

digits_eq : (x y s v w : ℕ) → v < s → w < s → x * s + v ≡ y * s + w → (x ≡ y) × (v ≡ w)
digits_eq x y s v w hv hw e = elim (compare_cases x y) [
  | inl (_, h) ↦ absurd (omega (arith, digits_lt x y s v w h hv))
  | inr (inl (_, h)) ↦ (h, let e' = rw h at e in omega arith)
  | inr (inr (_, h)) ↦ absurd (omega (arith, digits_lt y x s w v h hw))
]

-- Two addresses of one length with the same number are the same.
pub value-injective :
    (a b : Ip) → IsBytes a → IsBytes b → length a ≡ length b → value a ≡ value b → a ≡ b
unfolding value
value-injective [] [] ha hb l e = refl
value-injective [] (y ∷ ys) ha hb l e = absurd (omega arith)
value-injective (x ∷ xs) [] ha hb l e = absurd (omega arith)
value-injective (x ∷ xs) (y ∷ ys) ha hb l e =
    let l' : length xs ≡ length ys = omega arith in
    let same = span-eq_of_length xs ys l' in
    let (heads, tails) =
      digits_eq x y (span ys) (value xs) (value ys) (omega (arith, same, value-lt-span xs ha.1))
        (value-lt-span ys hb.1) (rw same at e) in
    ap₂ ◌∷◌ heads (value-injective xs ys ha.1 hb.1 l' tails)
