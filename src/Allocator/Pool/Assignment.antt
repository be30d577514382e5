-- ===== src/Allocator/Pool/Assignment.antt =====
-- Addresses that are handed out without a sharing key, as every caller of the allocator does: one
-- service holds an address at a time.
use resource_model.Base.{
  ◌≡◌, refl, ◌≢◌, ◌⊎◌, inl, inr, true, List, [], ◌∷◌, Option, none, some, arith, subst, Text, ok,
  err, text_dec,
}
use resource_model.GoMap.{insert, delete}
use resource_model.Allocator.Ip
use resource_model.Allocator.Ip.{Ip, ip_dec}
use resource_model.Allocator.Pool.{
  LocalPool, ServicePort, Key, address_in_use, at, sharing_ok, take_ports, other_services,
  port_conflict, available, occupy, assign, release,
}
use resource_model.Allocator.Pool.Holding.{unshared, IsFree, IsHeld, IsExclusive, IsPlaced}
use resource_model.Allocator.Pool.Ports.{take_ports-All, port_conflict_own}
use resource_model.Allocator.Pool.Entries.{
  ports-occupy, services_on_ip-keys, slot, slot-occupy, slot-release,
}

module _ (p : LocalPool) (ip : Ip) (ports : List ServicePort) (service : Text) where
  -- A free address can be assigned.
  pub assign_free :
      IsFree p ip
      → assign p ip ports service (some unshared) ≡ ok (occupy p ip ports service (some unshared))
  unfolding assign available
  assign_free h = ground arith

  -- An address that another service holds cannot.
  pub assign_held :
      (holder : Text)
      → holder ≢ service
      → IsHeld p ip holder
      → assign p ip ports service (some unshared) ≡ err (address_in_use service (holder ∷ []))
  unfolding assign available sharing_ok other_services text_dec
  assign_held holder differ h = ground (arith, services_on_ip-keys p ip)

  -- Who may take the address: it is free, or held by the service itself.
  users_after :
      IsFree p ip ⊎ IsHeld p ip service
      → insert text_dec service true (at p.addresses_in_use ip) ≡ (service, true) ∷ []
  unfolding insert
  users_after h = ground arith

  occupy-IsHeld :
      (other : Ip)
      → IsFree p ip ⊎ IsHeld p ip service
      → Ip.string ip ≡ Ip.string other
      → IsHeld (occupy p ip ports service (some unshared)) other service
  occupy-IsHeld other h e =
      ground (arith, slot-occupy p ip other ports service (some unshared), users_after h)

  occupy_elsewhere :
      (other : Ip)
      → Ip.string ip ≢ Ip.string other
      → slot (occupy p ip ports service (some unshared)) other ≡ slot p other
  occupy_elsewhere other d = ground (arith, slot-occupy p ip other ports service (some unshared))

  occupy-IsExclusive :
      IsExclusive p
      → IsFree p ip ⊎ IsHeld p ip service
      → IsExclusive (occupy p ip ports service (some unshared))
  occupy-IsExclusive x h other = elim (ip_dec (Ip.string ip) (Ip.string other)) [
    | yes e ↦ inr (service, occupy-IsHeld other h e)
    | no d ↦ rw (occupy_elsewhere other d) (x other)
  ]

  pub occupy-IsPlaced :
      IsExclusive p
      → IsFree p ip ⊎ IsHeld p ip service
      → IsPlaced p (occupy p ip ports service (some unshared)) ip service
  occupy-IsPlaced x may = record {
    exclusive = occupy-IsExclusive x may;
    held = occupy-IsHeld ip may refl;
    elsewhere = occupy_elsewhere;
  }

  pub assign-occupy :
      (key : Option Key) {p' : LocalPool}
      → assign p ip ports service key ≡ ok p'
      → occupy p ip ports service key ≡ p'
  unfolding assign
  assign-occupy key e = ground arith

  taken_from :
      {p' : LocalPool}
      → IsExclusive p
      → assign p ip ports service (some unshared) ≡ ok p'
      → IsFree p ip ⊎ IsHeld p ip service
  taken_from x e = elim (x ip) [
    | inl free ↦ inl free
    | inr (holder, h) ↦ elim (text_dec holder service) [
      | yes same ↦ inr (rw same at h)
      | no differ ↦ cc (assign_held holder differ h)
    ]
  ]

  -- An assignment without a sharing key that succeeds on an exclusive pool was of an address that
  -- was free or the service's own. It makes the service the one holder, the pool is exclusive
  -- again, and the slot of every other address is as it was.
  pub assign_exclusive :
      (p' : LocalPool)
      → IsExclusive p
      → assign p ip ports service (some unshared) ≡ ok p'
      → (IsFree p ip ⊎ IsHeld p ip service) × IsPlaced p p' ip service
  assign_exclusive p' x e =
      let may = taken_from x e in
      (
        may,
        subst (λ q. IsPlaced p q ip service) (assign-occupy (some unshared) e)
            (occupy-IsPlaced x may),
      )

  -- The ports of an assignment are all the service's afterwards.
  assign_own :
      IsHeld p ip service
      → port_conflict (at p.ports_in_use ip) ip service ports ≡ none
      → assign p ip ports service (some unshared) ≡ ok (occupy p ip ports service (some unshared))
  unfolding assign available sharing_ok other_services text_dec
  assign_own h free = ground (arith, services_on_ip-keys p ip)

module _ (p : LocalPool) (ip : Ip) (service : Text) where
  release_elsewhere :
      (other : Ip)
      → Ip.string ip ≢ Ip.string other
      → slot (release p ip service) other ≡ slot p other
  release_elsewhere other d = ground (arith, slot-release p ip other service)

  release-IsFree :
      (other : Ip)
      → IsHeld p ip service
      → Ip.string ip ≡ Ip.string other
      → IsFree (release p ip service) other
  unfolding delete
  release-IsFree other h e = ground (arith, slot-release p ip other service)

  -- When the one holder of an address releases it, the address is free, the pool is exclusive
  -- again, and the slot of every other address is as it was.
  pub release_holder :
      IsExclusive p
      → IsHeld p ip service
      → IsExclusive (release p ip service)
        × IsFree (release p ip service) ip
        × ((other : Ip)
            → Ip.string ip ≢ Ip.string other
            → slot (release p ip service) other ≡ slot p other)
  release_holder x h = (
    λ other. elim (ip_dec (Ip.string ip) (Ip.string other)) [
      | yes e ↦ inl (release-IsFree other h e)
      | no d ↦ rw (release_elsewhere other d) (x other)
    ],
    release-IsFree ip h refl,
    release_elsewhere,
  )

module _ (p : LocalPool) (ip : Ip) (ports : List ServicePort) (service : Text) where
  -- Right after an assignment, the same assignment succeeds again.
  pub assign_again :
      IsFree p ip ⊎ IsHeld p ip service
      → (p' : LocalPool) × (assign
            (occupy p ip ports service (some unshared))
            ip
            ports
            service
            (some unshared)
          ≡ ok p')
  assign_again h = (
    occupy q ip ports service (some unshared),
    assign_own q ip ports service (occupy-IsHeld p ip ports service ip h refl) (
        rw ports_after (
          port_conflict_own _ ip service ports
            (take_ports-All service ports (at p.ports_in_use ip)))),
  )
    where
      q : LocalPool
      q = occupy p ip ports service (some unshared)

      ports_after : at q.ports_in_use ip ≡ take_ports service ports (at p.ports_in_use ip)
      ports_after = ground (arith, ports-occupy p ip ip ports service (some unshared))
