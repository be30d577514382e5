-- ===== src/Allocator/Allocations/Exclusive.antt =====
-- No two services hold one address: the invariant that ties the allocations to the pools.
use resource_model.Base.{
  ◌≡◌, refl, ◌≢◌, inl, inr, ite, none, some, arith, Text, text_dec, Option-cases, subst, ◌∙◌, sym,
}
use resource_model.GoMap.{lookup, lookup-insert, lookup-delete}
use resource_model.Allocator.Ip
use resource_model.Allocator.Ip.{Ip, ip_dec}
use resource_model.Allocator.Pool
use resource_model.Allocator.Pool.{LocalPool, ServicePort}
use resource_model.Allocator.Pool.Entries.{slot}
use resource_model.Allocator.Pool.Holding.{
  IsFree, IsHeld, IsExclusive, IsHeld-unique, IsFree-not-IsHeld,
}
use resource_model.Allocator.Pool.Assignment.{release_holder}
use resource_model.Allocator.Allocations.{Alloc, Allocator, release_from, unassign}

-- A service's allocation is one that its pool knows.
abbrev pub IsBacked : Allocator → Text → Alloc → Type 0
IsBacked a svc al =
    (p : LocalPool) × (lookup text_dec al.pool a.pools ≡ some p) × IsHeld p al.ip svc

-- Who holds an address of a pool has the allocation that says so.
abbrev pub IsAccounted : Allocator → Text → Ip → Text → Type 0
IsAccounted a name ip svc =
    (al : Alloc) × (lookup text_dec svc a.allocated ≡ some al)
    × (al.pool ≡ name)
    × (Ip.string al.ip ≡ Ip.string ip)

pub record IsSound (a : Allocator) : Type 0 where
  pub exclusive :
      (name : Text) (p : LocalPool) → lookup text_dec name a.pools ≡ some p → IsExclusive p
  pub backed :
      (svc : Text) (al : Alloc) → lookup text_dec svc a.allocated ≡ some al → IsBacked a svc al
  pub accounted :
      (name : Text) (p : LocalPool) (ip : Ip) (svc : Text)
      → lookup text_dec name a.pools ≡ some p
      → IsHeld p ip svc
      → IsAccounted a name ip svc

-- Two services with allocations in one pool have different addresses.
pub IsSound-distinct :
    (a : Allocator) (s t : Text) (al bl : Alloc)
    → IsSound a
    → lookup text_dec s a.allocated ≡ some al
    → lookup text_dec t a.allocated ≡ some bl
    → al.pool ≡ bl.pool
    → Ip.string al.ip ≡ Ip.string bl.ip
    → s ≡ t
IsSound-distinct a s t al bl sound ha hb pool ip =
    let (p, hp, held) = sound.backed s al ha in
    let (q, hq, held') = sound.backed t bl hb in
    let same : p ≡ q = ground arith in
    IsHeld-unique q al.ip bl.ip s t ip (subst (λ r. IsHeld r al.ip s) same held) held'

-- The service's allocation leaves its pool.
module _ (a : Allocator) (sound : IsSound a) (svc : Text) (al : Alloc) (p : LocalPool)
    (has : lookup text_dec svc a.allocated ≡ some al)
    (known : lookup text_dec al.pool a.pools ≡ some p) (held : IsHeld p al.ip svc) where
  freed : LocalPool
  freed = Pool.release p al.ip svc

  freed_lem :
      IsExclusive freed
      × IsFree freed al.ip
      × ((other : Ip) → Ip.string al.ip ≢ Ip.string other → slot freed other ≡ slot p other)
  unfolding freed
  freed_lem = release_holder p al.ip svc (sound.exclusive al.pool p known) held

  abbrev after : Allocator
  after = (unassign a svc).0

  after-pools :
      (name : Text)
      → lookup text_dec name after.pools
        ≡ ite (text_dec al.pool name) (some freed) (lookup text_dec name a.pools)
  unfolding unassign release_from freed
  after-pools name = ground (arith, lookup-insert text_dec al.pool name freed a.pools)

  after-allocated :
      (s : Text)
      → lookup text_dec s after.allocated
        ≡ ite (text_dec svc s) none (lookup text_dec s a.allocated)
  unfolding unassign release_from
  after-allocated s = ground (arith, lookup-delete text_dec svc s a.allocated)

  after-IsExclusive :
      (name : Text) (q : LocalPool) → lookup text_dec name after.pools ≡ some q → IsExclusive q
  after-IsExclusive name q e = elim (text_dec al.pool name) [
    | yes same ↦ subst IsExclusive (ground (arith, after-pools name)) freed_lem.0
    | no d ↦ sound.exclusive name q (ground (arith, after-pools name))
  ]

  after-IsBacked :
      (s : Text) (bl : Alloc) → lookup text_dec s after.allocated ≡ some bl → IsBacked after s bl
  after-IsBacked s bl e = elim (text_dec svc s) [
    | yes same ↦ absurd (ground (arith, after-allocated s))
    | no d ↦
        let (q, hq, hb) = sound.backed s bl (ground (arith, after-allocated s)) in
        elim (text_dec al.pool bl.pool) [
          | yes same ↦
              let e' : q ≡ p = ground arith in
              let hb' = subst (λ r. IsHeld r bl.ip s) e' hb in
              (
                freed,
                ground (arith, after-pools bl.pool),
                freed_lem.2 bl.ip (λ i. d (IsHeld-unique p al.ip bl.ip svc s i held hb')) ∙ hb',
              )
          | no other ↦ (q, ground (arith, after-pools bl.pool), hb)
        ]
  ]

  still-IsAccounted :
      (name : Text) (ip : Ip) (s : Text)
      → (svc ≡ s → (al.pool ≡ name → Ip.string al.ip ≢ Ip.string ip))
      → IsAccounted a name ip s
      → IsAccounted after name ip s
  still-IsAccounted name ip s other (bl, e, n, i) = elim (text_dec svc s) [
    | yes same ↦
        let e' : al ≡ bl = ground arith in absurd (other same (ground arith) (ground arith))
    | no d ↦ (bl, ground (arith, after-allocated s), n, i)
  ]

  after-IsAccounted :
      (name : Text) (q : LocalPool) (ip : Ip) (s : Text)
      → lookup text_dec name after.pools ≡ some q
      → IsHeld q ip s
      → IsAccounted after name ip s
  after-IsAccounted name q ip s e h = elim (text_dec al.pool name) [
    | yes same ↦
        let (_, free, elsewhere) = freed_lem in
        let q-freed : q ≡ freed = ground (arith, after-pools name) in
        let h' = subst (λ r. IsHeld r ip s) q-freed h in
        let apart : Ip.string al.ip ≢ Ip.string ip =
          λ i. IsFree-not-IsHeld freed al.ip ip s i free h' in
        still-IsAccounted name ip s (λ _ _. apart)
          (sound.accounted name p ip s (ground arith) (sym (elsewhere ip apart) ∙ h'))
    | no d ↦
        still-IsAccounted name ip s (λ _ n. absurd (d n))
          (sound.accounted name q ip s (ground (arith, after-pools name)) h)
  ]

  after-IsSound : IsSound after
  after-IsSound = record {
    exclusive = after-IsExclusive;
    backed = after-IsBacked;
    accounted = after-IsAccounted;
  }

unassign-none :
    (a : Allocator) (svc : Text) → lookup text_dec svc a.allocated ≡ none → (unassign a svc).0 ≡ a
unfolding unassign
unassign-none a svc e = ground arith

pub unassign-IsSound :
    (a : Allocator) (svc : Text)
    → IsSound a
    → IsSound (unassign a svc).0
      × (lookup text_dec svc (unassign a svc).0.allocated ≡ none)
      × ((s : Text)
          → svc ≢ s
          → lookup text_dec s (unassign a svc).0.allocated ≡ lookup text_dec s a.allocated)
unassign-IsSound a svc sound = elim (Option-cases (lookup text_dec svc a.allocated)) [
  | inl e ↦ rw (unassign-none a svc e) (sound, e, λ s d. refl)
  | inr (al, e) ↦
      let (p, known, held) = sound.backed svc al e in
      (
        after-IsSound a sound svc al p e known held,
        ground (arith, after-allocated a sound svc al p e known held svc),
        λ s d. ground (arith, after-allocated a sound svc al p e known held s),
      )
]
