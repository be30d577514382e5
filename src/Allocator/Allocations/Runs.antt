-- ===== src/Allocator/Allocations/Runs.antt =====
-- Every state that the allocator reaches through its methods, called in any order.
use resource_model.Base.{
  ℕ, Bool, ◌≡◌, refl, ◌≢◌, inl, inr, List, [], ◌++◌, Option, none, some, arith, Text, text_dec, ok,
  Option-cases, Result-cases, subst, sym, ap, length, length-append,
}
use resource_model.GoMap.{lookup, insert, lookup-insert}
use resource_model.Allocator.Ip
use resource_model.Allocator.Ip.{Ip}
use resource_model.Allocator.Range.Parse.{new_ip_range}
use resource_model.Allocator.Pool
use resource_model.Allocator.Pool.{LocalPool, ServicePort}
use resource_model.Allocator.Allocations.{
  AddressPool, ServicePrefix, Alloc, Allocator, new_allocator, unassign, assign, allocate_from_pool,
  remove_pool, pool_of, add_alt_pool, add_prefix, alt_address_suffix,
}
use resource_model.Allocator.Allocations.Exclusive.{IsSound, IsSound-distinct, unassign-IsSound}
use resource_model.Allocator.Allocations.Handing.{assign-IsHanded, allocate_from_pool-IsHanded}
use resource_model.Allocator.Allocations.Pools.{
  IsUnused, new_local_pool-IsUnused, extended-IsSound, remove_pool-IsSound,
}

abbrev pub alt_name : ServicePrefix → Text
alt_name sp = sp.name ++ alt_address_suffix

alt_name-differs : (sp : ServicePrefix) → sp.name ≢ alt_name sp
alt_name-differs sp e =
    let h = ap length e in omega (arith, h, length-append sp.name alt_address_suffix)

module _ (parse_ip : Text → Option Ip) (parse_cidr : Text → Option (Ip × (Ip → Bool)))
    (fuel : ℕ) where
  pool_of-IsUnused :
      (ap : AddressPool) (p : LocalPool) → pool_of parse_ip parse_cidr fuel ap ≡ ok p → IsUnused p
  pool_of-IsUnused ap p =
      new_local_pool-IsUnused (new_ip_range parse_ip parse_cidr fuel ap.pool) ap.subnet
        ap.aggregation p

  add_alt_pool-IsSound :
      (a : Allocator) (sp : ServicePrefix)
      → IsSound a
      → lookup text_dec (alt_name sp) a.pools ≡ none
      → IsSound (add_alt_pool parse_ip parse_cidr fuel a sp).0
  unfolding add_alt_pool
  add_alt_pool-IsSound a sp sound fresh = elim (Option-cases sp.alt_pool) [
    | inl e ↦ rw (e, add_alt_pool) sound
    | inr (alt, e) ↦ elim (Result-cases (pool_of parse_ip parse_cidr fuel alt)) [
      | inr (x, bad) ↦ rw (e, add_alt_pool, bad) sound
      | inl (p, good) ↦
          rw (e, add_alt_pool, good)
            (extended-IsSound a (record a { pools = insert text_dec (alt_name sp) p a.pools })
              (alt_name sp) p sound fresh (pool_of-IsUnused alt p good)
              (λ n. lookup-insert text_dec (alt_name sp) n p a.pools) refl)
    ]
  ]

  -- `AddPrefix` of a prefix whose two pool names are fresh keeps the allocator sound, whether it
  -- reports an error or not.
  pub add_prefix-IsSound :
      (a : Allocator) (sp : ServicePrefix)
      → IsSound a
      → lookup text_dec sp.name a.pools ≡ none
      → lookup text_dec (alt_name sp) a.pools ≡ none
      → IsSound (add_prefix parse_ip parse_cidr fuel a sp).0
  unfolding add_prefix
  add_prefix-IsSound a sp sound fresh alt_fresh = elim (Option-cases sp.public_pool) [
    | inl e ↦ rw (e, add_prefix) sound
    | inr (public, e) ↦ elim (Result-cases (pool_of parse_ip parse_cidr fuel public)) [
      | inr (x, bad) ↦ rw (e, add_prefix, bad) sound
      | inl (p, good) ↦
          let added : Allocator = record a { pools = insert text_dec sp.name p a.pools } in
          let pools = λ (n : Text). lookup-insert text_dec sp.name n p a.pools in
          let unused = pool_of-IsUnused public p good in
          elim (Option-cases (Pool.size p)) [
            | inl z ↦
                rw (e, add_prefix, good, z)
                  (extended-IsSound a added sp.name p sound fresh unused pools refl)
            | inr (size, z) ↦
                let gauged : Allocator = record added {
                  pool_capacity = insert text_dec sp.name size a.pool_capacity;
                  pool_active = insert text_dec sp.name (Pool.in_use p) a.pool_active;
                } in
                rw (e, add_prefix, good, z)
                  (add_alt_pool-IsSound gauged sp
                    (extended-IsSound a gauged sp.name p sound fresh unused pools refl)
                    (ground (arith, pools (alt_name sp), alt_name-differs sp)))
          ]
    ]
  ]

  -- One call of a method. A call that reports an error and returns no state leaves the state as it
  -- is. No caller passes a sharing key, and a prefix is added once.
  pub data Step (a : Allocator) : Allocator → Type 0 where
    add :
        (sp : ServicePrefix)
        → lookup text_dec sp.name a.pools ≡ none
        → lookup text_dec (alt_name sp) a.pools ≡ none
        → Step a (add_prefix parse_ip parse_cidr fuel a sp).0
    remove : (sp : ServicePrefix) → Step a (remove_pool a sp).0
    free : (svc : Text) → Step a (unassign a svc).0
    adopt :
        (svc pool : Text) (ip : Ip) (ports : List ServicePort) (b : Allocator)
        → assign a svc ip ports [] ≡ ok (pool, b)
        → Step a b
    allocate :
        (svc pool : Text) (ip : Ip) (ports : List ServicePort) (b : Allocator)
        → allocate_from_pool fuel a svc pool ports [] ≡ ok (ip, b)
        → Step a b

  pub data IsReachable : Allocator → Type 0 where
    start : IsReachable new_allocator
    then : {a b : Allocator} → IsReachable a → Step a b → IsReachable b

  Step-IsSound : {a b : Allocator} → Step a b → IsSound a → IsSound b
  Step-IsSound (add sp h k) sound = add_prefix-IsSound _ sp sound h k
  Step-IsSound (remove sp) sound = (remove_pool-IsSound _ sp sound).0
  Step-IsSound (free svc) sound = (unassign-IsSound _ svc sound).0
  Step-IsSound (adopt svc pool ip ports b e) sound =
      (assign-IsHanded _ b svc pool ip ports sound e).0
  Step-IsSound {a} (allocate svc pool ip ports b e) sound =
      elim (allocate_from_pool-IsHanded fuel a b svc pool ip ports sound e) [
        | inl (al, has, same, unchanged) ↦ subst IsSound (sym unchanged) sound
        | inr (none_yet, handed) ↦ handed.0
      ]

  new_allocator-IsSound : IsSound new_allocator
  unfolding new_allocator lookup
  new_allocator-IsSound = record {
    exclusive = λ n p e. absurd (ground arith);
    backed = λ s al e. absurd (ground arith);
    accounted = λ n p ip s e h. absurd (ground arith);
  }

  pub IsReachable-IsSound : {a : Allocator} → IsReachable a → IsSound a
  IsReachable-IsSound start = new_allocator-IsSound
  IsReachable-IsSound (then r s) = Step-IsSound s (IsReachable-IsSound r)

  -- In every state that the allocator reaches by calls of its methods, in any order, without a
  -- sharing key and with each prefix added once, two services that hold the same address in the
  -- same pool are the same service.
  pub no_address_twice :
      (a : Allocator) (s t : Text) (al bl : Alloc)
      → IsReachable a
      → lookup text_dec s a.allocated ≡ some al
      → lookup text_dec t a.allocated ≡ some bl
      → al.pool ≡ bl.pool
      → Ip.string al.ip ≡ Ip.string bl.ip
      → s ≡ t
  no_address_twice a s t al bl r = IsSound-distinct a s t al bl (IsReachable-IsSound r)
