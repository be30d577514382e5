-- ===== src/Allocator/Allocations/Pools.antt =====
-- `AddPrefix`, `RemovePool` and `ValidateDelete`: pools come and go without touching what is handed
-- out.
use resource_model.Base.{
  ◌≡◌, refl, ◌≢◌, ◌⊎◌, inl, inr, ite, [], ◌∷◌, none, some, arith, Text, text_dec, Result, ok, err,
  Option-cases, subst, ◌∙◌, sym, ap,
}
use resource_model.GoMap.{GoMap, lookup, delete, lookup-delete, IsMap}
use resource_model.Allocator.Ip.{Ip}
use resource_model.Allocator.Range.{IpRange}
use resource_model.Allocator.Pool
use resource_model.Allocator.Pool.{LocalPool}
use resource_model.Allocator.Pool.Holding.{IsFree, IsHeld, IsExclusive, IsFree-not-IsHeld}
use resource_model.Allocator.Allocations.{
  ServicePrefix, Alloc, Allocator, Error, pool_in_use, validate_delete, remove_pool,
}
use resource_model.Allocator.Allocations.Exclusive.{IsAccounted, IsSound}

-- A pool from which nothing is handed out.
abbrev pub IsUnused : LocalPool → Type 0
IsUnused p = (ip : Ip) → IsFree p ip

pub new_local_pool-IsUnused :
    {E : Type 0} (r : Result E IpRange) (subnet aggregation : Text) (p : LocalPool)
    → Pool.new_local_pool r subnet aggregation ≡ ok p
    → IsUnused p
unfolding Pool.new_local_pool Pool.sharing_key lookup
new_local_pool-IsUnused (ok r) subnet aggregation p e ip = ground arith
new_local_pool-IsUnused (err x) subnet aggregation p e ip = absurd (ground arith)

-- An unused pool appears under a fresh name.
module _ (a b : Allocator) (name : Text) (p : LocalPool) (sound : IsSound a)
    (fresh : lookup text_dec name a.pools ≡ none) (unused : IsUnused p)
    (pools : (n : Text)
      → lookup text_dec n b.pools ≡ ite (text_dec name n) (some p) (lookup text_dec n a.pools))
    (allocated : b.allocated ≡ a.allocated) where
  kept : (ip : Ip) (s n : Text) → IsAccounted a n ip s → IsAccounted b n ip s
  kept ip s n (al, e, m, i) = (al, ap (lookup text_dec s) allocated ∙ e, m, i)

  pub extended-IsSound : IsSound b
  extended-IsSound = record {
    exclusive = λ n q e. elim (text_dec name n) [
      | yes same ↦ subst IsExclusive (ground (arith, pools n)) (λ ip. inl (unused ip))
      | no d ↦ sound.exclusive n q (ground (arith, pools n))
    ];
    backed = λ s al e.
        let (q, hq, held) = sound.backed s al (sym (ap (lookup text_dec s) allocated) ∙ e) in
        (q, ground (arith, pools al.pool), held);
    accounted = λ n q ip s e held. elim (text_dec name n) [
      | yes same ↦
          let q-p : q ≡ p = ground (arith, pools n) in
          absurd
            (IsFree-not-IsHeld p ip ip s refl (unused ip) (subst (λ r. IsHeld r ip s) q-p held))
      | no d ↦ kept ip s n (sound.accounted n q ip s (ground (arith, pools n)) held)
    ];
  }

-- What `pool_in_use` finds.
pool_in_use-none :
    (name svc : Text) (al : Alloc) (m : GoMap Text Alloc)
    → pool_in_use name m ≡ none
    → lookup text_dec svc m ≡ some al
    → al.pool ≢ name
unfolding pool_in_use lookup
pool_in_use-none name svc al [] h e = absurd (ground arith)
pool_in_use-none name svc al ((s, bl) ∷ m) h e = ground (arith, pool_in_use-none name svc al m)

pool_in_use-some :
    (name : Text) (m : GoMap Text Alloc) (x : Error)
    → IsMap text_dec m
    → pool_in_use name m ≡ some x
    → (svc : Text) × (al : Alloc) × (lookup text_dec svc m ≡ some al) × (al.pool ≡ name)
unfolding pool_in_use lookup
pool_in_use-some name [] x h e = absurd (ground arith)
pool_in_use-some name ((s, bl) ∷ m) x h e = elim (text_dec bl.pool name) [
  | yes same ↦ (s, bl, ground arith, same)
  | no d ↦
      let (svc, al, found, same) = pool_in_use-some name m x h.1 (ground arith) in
      (svc, al, ground arith, same)
]

-- `ValidateDelete` allows the deletion of a prefix only if no service has an allocation from its
-- pool, and refuses it only if some service has one.
pub validate_delete_lem :
    (a : Allocator) (sp : ServicePrefix)
    → IsMap text_dec a.allocated
    → ((validate_delete a sp ≡ none)
        × ((svc : Text) (al : Alloc)
            → lookup text_dec svc a.allocated ≡ some al
            → al.pool ≢ sp.name))
      ⊎ ((x : Error) × (svc : Text) × (al : Alloc) × (validate_delete a sp ≡ some x)
          × (lookup text_dec svc a.allocated ≡ some al)
          × (al.pool ≡ sp.name))
unfolding validate_delete
validate_delete_lem a sp h = elim (Option-cases (validate_delete a sp)) [
  | inl e ↦ inl (e, λ svc al. pool_in_use-none sp.name svc al a.allocated e)
  | inr (x, e) ↦
      let (svc, al, found, same) = pool_in_use-some sp.name a.allocated x h e in
      inr (x, svc, al, e, found, same)
]

-- `RemovePool` keeps the allocator sound and every allocation. Where it reports an error, nothing
-- changed, and where it reports none, the pool is gone.
pub remove_pool-IsSound :
    (a : Allocator) (sp : ServicePrefix)
    → IsSound a
    → IsSound (remove_pool a sp).0
      × ((remove_pool a sp).0.allocated ≡ a.allocated)
      × (((remove_pool a sp).0 ≡ a)
          ⊎ (((remove_pool a sp).1 ≡ none)
              × (lookup text_dec sp.name (remove_pool a sp).0.pools ≡ none)))
unfolding remove_pool validate_delete
remove_pool-IsSound a sp sound = elim (Option-cases (pool_in_use sp.name a.allocated)) [
  | inr (x, e) ↦ rw (e, remove_pool) (sound, refl, inl refl)
  | inl e ↦
      rw (e, remove_pool)
        (
          removed e,
          refl,
          inr (refl, ground (arith, lookup-delete text_dec sp.name sp.name a.pools)),
        )
]
  where
    gone : Allocator
    gone = record a {
      pools = delete text_dec sp.name a.pools;
      pool_capacity = delete text_dec sp.name a.pool_capacity;
      pool_active = delete text_dec sp.name a.pool_active;
    }

    left :
        (n : Text)
        → lookup text_dec n gone.pools ≡ ite (text_dec sp.name n) none (lookup text_dec n a.pools)
    left n = lookup-delete text_dec sp.name n a.pools

    removed : pool_in_use sp.name a.allocated ≡ none → IsSound gone
    removed unused = record {
      exclusive = λ n q e. sound.exclusive n q (ground (arith, left n));
      backed = λ s al e.
          let (q, hq, held) = sound.backed s al e in
          let other = pool_in_use-none sp.name s al a.allocated unused e in
          (q, ground (arith, left al.pool), held);
      accounted = λ n q ip s e held. sound.accounted n q ip s (ground (arith, left n)) held;
    }
