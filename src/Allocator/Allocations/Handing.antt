-- ===== src/Allocator/Allocations/Handing.antt =====
-- `Assign` and `AllocateFromPool` without a sharing key, as every caller of the allocator has it:
-- an address is handed out to one service at a time.
use resource_model.Base.{
  ℕ, zero, suc, ◌≡◌, ◌≢◌, ◌⊎◌, inl, inr, List, [], Option, none, some, arith, Text, text_dec, ok,
  Option-cases, Result-cases, subst,
}
use resource_model.GoMap.{lookup, insert, lookup-insert, lookup-insert_self, lookup-insert_ne}
use resource_model.Allocator.Ip.{Ip}
use resource_model.Allocator.Pool
use resource_model.Allocator.Pool.{LocalPool, ServicePort, Key, occupy}
use resource_model.Allocator.Pool.Holding.{unshared, IsFree, IsPlaced, IsPlaced-trans}
use resource_model.Allocator.Pool.Assignment.{assign_exclusive, assign_again, assign-occupy}
use resource_model.Allocator.Allocations.{
  Alloc, Allocator, assign, allocate_new, allocate_from_pool, unassign, assigned, alloc_of,
  assign_alloc, pool_for,
}
use resource_model.Allocator.Allocations.Exclusive.{IsSound}
use resource_model.Allocator.Allocations.Placement.{
  MayTake, record_assignment_ok, assign_alloc-IsSound, placed-IsSound,
}

-- What handing out an address must do: the service has the allocation, the allocator is sound, and
-- no other service's allocation changed.
abbrev pub IsHanded : Allocator → Allocator → Text → Alloc → Type 0
IsHanded a b svc al =
    IsSound b
    × (lookup text_dec svc b.allocated ≡ some al)
    × ((s : Text) → svc ≢ s → lookup text_dec s b.allocated ≡ lookup text_dec s a.allocated)

available-MayTake :
    (a : Allocator) (svc name : Text) (p : LocalPool) (ip : Ip) (ports : List ServicePort)
    → IsSound a
    → lookup text_dec name a.pools ≡ some p
    → Pool.available p ip ports svc (some unshared) ≡ none
    → MayTake p ip svc
unfolding Pool.assign
available-MayTake a svc name p ip ports sound known free =
    (assign_exclusive p ip ports svc (occupy p ip ports svc (some unshared))
      (sound.exclusive name p known) (ground arith)).0

pub assign-IsHanded :
    (a b : Allocator) (svc pool : Text) (ip : Ip) (ports : List ServicePort)
    → IsSound a
    → assign a svc ip ports [] ≡ ok (pool, b)
    → IsHanded a b svc (alloc_of pool ip ports [])
unfolding assign
assign-IsHanded a b svc pool ip ports sound done =
    let name : Text = pool_for a.pools ip in
    elim (text_dec name []) [
      | yes e ↦ absurd (ground arith)
      | no d ↦ elim (Option-cases (lookup text_dec name a.pools)) [
        | inl e ↦ absurd (ground arith)
        | inr (p, known) ↦ elim (Option-cases (Pool.available p ip ports svc (some unshared))) [
          | inr (x, e) ↦ absurd (ground arith)
          | inl free ↦
              let named : name ≡ pool = ground arith in
              subst (λ n. IsHanded a b svc (alloc_of n ip ports [])) named
                (assign_alloc-IsSound a b svc name p ip ports sound known
                  (available-MayTake a svc name p ip ports sound known free) (ground arith))
        ]
      ]
    ]

-- The walk of `AssignNext` ends with an assignment.
assign_from_ok :
    (fuel : ℕ) (p q : LocalPool) (pos : Option Ip) (svc : Text) (ports : List ServicePort)
    (key : Option Key) (ip : Ip)
    → Pool.assign_from fuel p pos svc ports key ≡ ok (ip, q)
    → Pool.assign p ip ports svc key ≡ ok q
unfolding Pool.assign_from
assign_from_ok zero p q pos svc ports key ip e = absurd (ground arith)
assign_from_ok (suc fuel) p q none svc ports key ip e = absurd (ground arith)
assign_from_ok (suc fuel) p q (some pos) svc ports key ip e =
    ground (arith, assign_from_ok fuel p q (Pool.next p pos) svc ports key ip)

-- `assign` of an address that `AssignNext` just occupied in the pool: the pool still hands it to
-- the service, although it is no longer free.
module _ (a b : Allocator) (svc name : Text) (p q : LocalPool) (ip : Ip) (ports : List ServicePort)
    (sound : IsSound a) (has_none : lookup text_dec svc a.allocated ≡ none)
    (known : lookup text_dec name a.pools ≡ some p)
    (taken : Pool.assign p ip ports svc (some unshared) ≡ ok q) where
  taken-IsFree : IsFree p ip
  taken-IsFree = elim (assign_exclusive p ip ports svc q (sound.exclusive name p known) taken).0 [
    | inl free ↦ free
    | inr held ↦ absurd (ground (arith, sound.accounted name p ip svc known held))
  ]

  IsPlaced-once : IsPlaced p q ip svc
  IsPlaced-once = (assign_exclusive p ip ports svc q (sound.exclusive name p known) taken).1

  IsPlaced-twice : IsPlaced q (assigned q svc (alloc_of name ip ports [])) ip svc
  IsPlaced-twice =
      let (r, again) = assign_again p ip ports svc (inl taken-IsFree) in
      let again' : Pool.assign q ip ports svc (some unshared) ≡ ok r =
        subst (λ q. Pool.assign q ip ports svc (some unshared) ≡ ok r)
          (assign-occupy p ip ports svc (some unshared) taken) again in
      rw (assigned, again') (assign_exclusive q ip ports svc r IsPlaced-once.exclusive again').1

  occupied-IsHanded :
      assign_alloc
          (record a { pools = insert text_dec name q a.pools })
          svc
          (alloc_of name ip ports [])
        ≡ ok b
      → IsHanded a b svc (alloc_of name ip ports [])
  unfolding assign_alloc unassign
  occupied-IsHanded done =
      let al : Alloc = alloc_of name ip ports [] in
      let start : Allocator = record a {
        pools = insert text_dec name q a.pools;
        allocated = insert text_dec svc al a.allocated;
      } in
      let (q', hq, pools, allocated) = record_assignment_ok start b svc al (ground arith) in
      let q'-q : q' ≡ q = ground (arith, lookup-insert_self text_dec name q a.pools) in
      let r : LocalPool = assigned q svc al in
      let pools' : b.pools ≡ insert text_dec name r start.pools = ground arith in
      (
        placed-IsSound a b svc al p r sound has_none known taken-IsFree
            (IsPlaced-trans IsPlaced-once IsPlaced-twice)
            (λ n. ground (
              arith,
              lookup-insert text_dec name n r start.pools,
              lookup-insert text_dec name n q a.pools,
            ))
            (λ s. ground (arith, lookup-insert text_dec svc s al a.allocated)),
        ground (arith, lookup-insert_self text_dec svc al a.allocated),
        λ s d. ground (arith, lookup-insert_ne text_dec svc s al a.allocated d),
      )

pub allocate_new-IsHanded :
    (fuel : ℕ) (a b : Allocator) (svc pool : Text) (ip : Ip) (ports : List ServicePort)
    → IsSound a
    → lookup text_dec svc a.allocated ≡ none
    → allocate_new fuel a svc pool ports [] ≡ ok (ip, b)
    → IsHanded a b svc (alloc_of pool ip ports [])
unfolding allocate_new Pool.assign_next
allocate_new-IsHanded fuel a b svc pool ip ports sound none_yet done =
    elim (Option-cases (lookup text_dec pool a.pools)) [
      | inl e ↦ absurd (ground arith)
      | inr (p, known) ↦ elim (Result-cases (Pool.assign_next fuel p svc ports (some unshared))) [
        | inr (x, e) ↦ absurd (ground arith)
        | inl ((pos, q), e) ↦
            let same : pos ≡ ip = ground arith in
            occupied-IsHanded a b svc pool p q ip ports sound none_yet known
              (assign_from_ok fuel p q (Pool.first p) svc ports (some unshared) ip (ground arith))
              (ground arith)
      ]
    ]

pub allocate_from_pool-IsHanded :
    (fuel : ℕ) (a b : Allocator) (svc pool : Text) (ip : Ip) (ports : List ServicePort)
    → IsSound a
    → allocate_from_pool fuel a svc pool ports [] ≡ ok (ip, b)
    → ((al : Alloc) × (lookup text_dec svc a.allocated ≡ some al) × (al.ip ≡ ip) × (b ≡ a))
      ⊎ ((lookup text_dec svc a.allocated ≡ none) × IsHanded a b svc (alloc_of pool ip ports []))
unfolding allocate_from_pool
allocate_from_pool-IsHanded fuel a b svc pool ip ports sound done =
    elim (Option-cases (lookup text_dec svc a.allocated)) [
      | inr (al, e) ↦ inl (al, e, ground arith, ground arith)
      | inl none_yet ↦
          inr (
            none_yet,
            allocate_new-IsHanded fuel a b svc pool ip ports sound none_yet (ground arith),
          )
    ]
