-- ===== src/Allocator/Allocations/Placement.antt =====
-- Handing out an address keeps the allocator sound: `assign`, `Assign` and `AllocateFromPool`
-- without a sharing key, as every caller of the allocator has it.
use resource_model.Base.{
  ◌≡◌, ◌≢◌, ◌⊎◌, inl, inr, ite, List, [], none, some, arith, Text, text_dec, ok, Option-cases,
  subst, ◌∙◌, sym, ap,
}
use resource_model.GoMap.{lookup, insert, lookup-insert, lookup-insert_self, lookup-insert_ne}
use resource_model.Allocator.Ip
use resource_model.Allocator.Ip.{Ip, ip_dec}
use resource_model.Allocator.Pool
use resource_model.Allocator.Pool.{LocalPool, ServicePort}
use resource_model.Allocator.Pool.Holding.{
  IsFree, IsHeld, IsExclusive, IsPlaced, IsHeld-unique, IsFree-not-IsHeld,
}
use resource_model.Allocator.Pool.Assignment.{occupy-IsPlaced, assign_free}
use resource_model.Allocator.Allocations.{
  Alloc, Allocator, unassign, assigned, alloc_of, record_assignment, assign_alloc,
}
use resource_model.Allocator.Allocations.Exclusive.{
  IsBacked, IsAccounted, IsSound, unassign-IsSound,
}

-- The addresses that the service may get: free, or its own.
abbrev pub MayTake : LocalPool → Ip → Text → Type 0
MayTake p ip svc = IsFree p ip ⊎ IsHeld p ip svc

-- An address the service may take is free once the service is unassigned.
pub unassign-IsFree :
    (a : Allocator) (svc name : Text) (p q : LocalPool) (ip : Ip)
    → IsSound a
    → lookup text_dec name a.pools ≡ some p
    → MayTake p ip svc
    → lookup text_dec name (unassign a svc).0.pools ≡ some q
    → IsFree q ip
unassign-IsFree a svc name p q ip sound hp may hq = elim (sound'.exclusive name q hq ip) [
  | inl free ↦ free
  | inr (t, held) ↦ elim (text_dec svc t) [
    | yes e ↦ absurd (ground (arith, sound'.accounted name q ip t hq held))
    | no d ↦
        let (al, e, n, i) = sound'.accounted name q ip t hq held in
        let (r, hr, held') = sound.backed t al (sym (others t d) ∙ e) in
        let r-p : r ≡ p = ground arith in
        let held'' = subst (λ r. IsHeld r al.ip t) r-p held' in
        elim may [
          | inl free ↦ absurd (IsFree-not-IsHeld p ip al.ip t (sym i) free held'')
          | inr mine ↦ absurd (d (IsHeld-unique p ip al.ip svc t (sym i) mine held''))
        ]
  ]
]
  where
    sound' : IsSound (unassign a svc).0
    sound' = (unassign-IsSound a svc sound).0

    others :
        (s : Text)
        → svc ≢ s
        → lookup text_dec s (unassign a svc).0.allocated ≡ lookup text_dec s a.allocated
    others = (unassign-IsSound a svc sound).2

-- A service without an allocation gets a free address.
module _ (a b : Allocator) (svc : Text) (al : Alloc) (p q : LocalPool) (sound : IsSound a)
    (has_none : lookup text_dec svc a.allocated ≡ none)
    (known : lookup text_dec al.pool a.pools ≡ some p) (free : IsFree p al.ip)
    (placed : IsPlaced p q al.ip svc)
    (pools : (name : Text)
      → lookup text_dec name b.pools
        ≡ ite (text_dec al.pool name) (some q) (lookup text_dec name a.pools))
    (allocated : (s : Text)
      → lookup text_dec s b.allocated
        ≡ ite (text_dec svc s) (some al) (lookup text_dec s a.allocated)) where
  placed-IsExclusive :
      (name : Text) (r : LocalPool) → lookup text_dec name b.pools ≡ some r → IsExclusive r
  placed-IsExclusive name r e = elim (text_dec al.pool name) [
    | yes same ↦ subst IsExclusive (ground (arith, pools name)) placed.exclusive
    | no d ↦ sound.exclusive name r (ground (arith, pools name))
  ]

  placed-IsBacked :
      (s : Text) (bl : Alloc) → lookup text_dec s b.allocated ≡ some bl → IsBacked b s bl
  placed-IsBacked s bl e = elim (text_dec svc s) [
    | yes same ↦
        let al-bl : al ≡ bl = ground (arith, allocated s) in
        subst (λ bl. IsBacked b s bl) al-bl
          (q, ground (arith, pools al.pool), subst (λ s. IsHeld q al.ip s) same placed.held)
    | no d ↦
        let (r, hr, held) = sound.backed s bl (ground (arith, allocated s)) in
        elim (text_dec al.pool bl.pool) [
          | yes same ↦
              let r-p : r ≡ p = ground arith in
              let held' = subst (λ r. IsHeld r bl.ip s) r-p held in
              (
                q,
                ground (arith, pools bl.pool),
                placed.elsewhere bl.ip (λ i. IsFree-not-IsHeld p al.ip bl.ip s i free held')
                    ∙ held',
              )
          | no other ↦ (r, ground (arith, pools bl.pool), held)
        ]
  ]

  placed-IsAccounted :
      (name : Text) (r : LocalPool) (ip : Ip) (s : Text)
      → lookup text_dec name b.pools ≡ some r
      → IsHeld r ip s
      → IsAccounted b name ip s
  placed-IsAccounted name r ip s e h = elim (text_dec al.pool name) [
    | yes same ↦
        let q-r : r ≡ q = ground (arith, pools name) in
        let h' = subst (λ r. IsHeld r ip s) q-r h in
        elim (ip_dec (Ip.string al.ip) (Ip.string ip)) [
          | yes i ↦
              let mine : svc ≡ s = IsHeld-unique q al.ip ip svc s i placed.held h' in
              (al, ground (arith, allocated s), same, i)
          | no apart ↦
              still
                (sound.accounted name p ip s (ground arith) (sym (placed.elsewhere ip apart) ∙ h'))
        ]
    | no d ↦ still (sound.accounted name r ip s (ground (arith, pools name)) h)
  ]
    where
      still : IsAccounted a name ip s → IsAccounted b name ip s
      still (bl, e, n, i) = (bl, ground (arith, allocated s), n, i)

  pub placed-IsSound : IsSound b
  placed-IsSound = record {
    exclusive = placed-IsExclusive;
    backed = placed-IsBacked;
    accounted = placed-IsAccounted;
  }

-- What `record_assignment` writes.
pub record_assignment_ok :
    (a b : Allocator) (svc : Text) (al : Alloc)
    → record_assignment a svc al ≡ ok b
    → (p : LocalPool) × (lookup text_dec al.pool a.pools ≡ some p)
      × (b.pools ≡ insert text_dec al.pool (assigned p svc al) a.pools)
      × (b.allocated ≡ a.allocated)
unfolding record_assignment
record_assignment_ok a b svc al e = elim (Option-cases (lookup text_dec al.pool a.pools)) [
  | inl h ↦ absurd (ground arith)
  | inr (p, h) ↦ elim (Option-cases (Pool.size (assigned p svc al))) [
    | inl z ↦ absurd (ground arith)
    | inr (n, z) ↦ (p, h, ground arith, ground arith)
  ]
]

module _ (p : LocalPool) (svc name : Text) (ip : Ip) (ports : List ServicePort) where
  assigned-IsPlaced :
      IsExclusive p → IsFree p ip → IsPlaced p (assigned p svc (alloc_of name ip ports [])) ip svc
  assigned-IsPlaced x free =
      rw (assigned, assign_free p ip ports svc free) (occupy-IsPlaced p ip ports svc x (inl free))

-- `assign` of an address that the service may take, where it succeeds, keeps the allocator sound,
-- records the allocation, and changes no other service's allocation.
pub assign_alloc-IsSound :
    (a b : Allocator) (svc name : Text) (p : LocalPool) (ip : Ip) (ports : List ServicePort)
    → IsSound a
    → lookup text_dec name a.pools ≡ some p
    → MayTake p ip svc
    → assign_alloc a svc (alloc_of name ip ports []) ≡ ok b
    → IsSound b
      × (lookup text_dec svc b.allocated ≡ some (alloc_of name ip ports []))
      × ((s : Text) → svc ≢ s → lookup text_dec s b.allocated ≡ lookup text_dec s a.allocated)
unfolding assign_alloc
assign_alloc-IsSound a b svc name p ip ports sound known may done =
    let al : Alloc = alloc_of name ip ports [] in
    let a1 : Allocator = (unassign a svc).0 in
    let (sound1, none1, others) = unassign-IsSound a svc sound in
    let (q, hq, pools, allocated) =
      record_assignment_ok (record a1 { allocated = insert text_dec svc al a1.allocated }) b svc al
        done in
    let free = unassign-IsFree a svc name p q ip sound known may hq in
    let placed = assigned-IsPlaced q svc name ip ports (sound1.exclusive name q hq) free in
    let r : LocalPool = assigned q svc al in
    (
      placed-IsSound a1 b svc al q r sound1 none1 hq free placed
          (λ n. ap (lookup text_dec n) pools ∙ lookup-insert text_dec name n r a1.pools)
          (λ s. ap (lookup text_dec s) allocated ∙ lookup-insert text_dec svc s al a1.allocated),
      ap (lookup text_dec svc) allocated ∙ lookup-insert_self text_dec svc al a1.allocated,
      λ s d.
          ap (lookup text_dec s) allocated
          ∙ lookup-insert_ne text_dec svc s al a1.allocated d
          ∙ others s d,
    )
