-- ===== src/Allocator/Pool/Sharing.antt =====
-- When an address is available, and what `Release` does to an address that services share.
use resource_model.Base.{
  ◌≡◌, refl, ◌≢◌, ◌↔◌, ◌⊎◌, inl, inr, ite, true, List, [], ◌∷◌, Option, none, some, arith, Text,
  text_dec, Option-cases, All,
}
use resource_model.GoMap.{GoMap, lookup, lookup-delete_ne, IsMap}
use resource_model.Allocator.Ip.{Ip}
use resource_model.Allocator.Pool.{
  LocalPool, ServicePort, Key, at, sharing_key, services_on_ip, sharing_ok, port_dec, key_or_empty,
  other_services, port_conflict, compatible, available, keep_ports_of, release,
}
use resource_model.Allocator.Pool.Entries.{slot-release, ports-release}

-- Both services name the same sharing key, and it is not empty.
abbrev pub Shares : Key → Key → Type 0
Shares existing new = (existing.sharing ≢ []) × (existing.sharing ≡ new.sharing)

pub sharing_ok-Shares :
    (existing new : Key) → (sharing_ok existing new ≡ none) ↔ Shares existing new
unfolding sharing_ok
sharing_ok-Shares existing new = ground arith

-- No other service has the port.
abbrev pub IsPortFree : GoMap ServicePort Text → Text → ServicePort → Type 0
IsPortFree in_use service port =
    (lookup port_dec port in_use ≡ none) ⊎ (lookup port_dec port in_use ≡ some service)

pub port_conflict-All :
    (in_use : GoMap ServicePort Text) (ip : Ip) (service : Text) (ports : List ServicePort)
    → (port_conflict in_use ip service ports ≡ none) ↔ All (IsPortFree in_use service) ports
unfolding port_conflict
port_conflict-All in_use ip service [] = (λ _. tt, λ _. refl)
port_conflict-All in_use ip service (port ∷ ports) =
    ground (arith, port_conflict-All in_use ip service ports)

pub other_services-All :
    (service : Text) (svcs : List Text)
    → (other_services service svcs ≡ []) ↔ All (λ s. s ≡ service) svcs
unfolding other_services
other_services-All service [] = (λ _. tt, λ _. refl)
other_services-All service (s ∷ svcs) = ground (arith, other_services-All service svcs)

module _ (p : LocalPool) (ip : Ip) (ports : List ServicePort) (service : Text)
    (key : Option Key) where
  -- `Available` lets a service have an address exactly if nobody has a sharing key on it, or if
  -- both name the same sharing key or no other service is on the address, and no other service
  -- has one of the ports.
  abbrev pub MayUse : Key → Type 0
  MayUse existing =
      (Shares existing (key_or_empty key) ⊎ All (λ s. s ≡ service) (services_on_ip p ip))
      × All (IsPortFree (at p.ports_in_use ip) service) ports

  compatible-MayUse :
      (existing : Key)
      → (compatible p ip ports service existing (key_or_empty key) ≡ none) ↔ MayUse existing
  unfolding compatible
  compatible-MayUse existing = ground (
    arith,
    sharing_ok-Shares existing (key_or_empty key),
    other_services-All service (services_on_ip p ip),
    port_conflict-All (at p.ports_in_use ip) ip service ports,
  )

  pub available-MayUse : (available p ip ports service key ≡ none) ↔ (
      (sharing_key p ip ≡ none)
      ⊎ ((existing : Key) × (sharing_key p ip ≡ some existing) × MayUse existing))
  unfolding available
  available-MayUse = elim (Option-cases (sharing_key p ip)) [
    | inl e ↦ (λ _. inl e, λ _. ground arith)
    | inr (k, e) ↦ (
      λ h. inr (k, e, (compatible-MayUse k).0 (ground arith)),
      λ h. ground (arith, compatible-MayUse k),
    )
  ]

-- When one of two services that share an address releases it, the other still is on the address,
-- and yet the address is available to every third service, with any key and any ports.
pub release_unlocks :
    (p : LocalPool) (ip : Ip) (leaving staying third : Text) (ports : List ServicePort)
    (key : Option Key)
    → leaving ≢ staying
    → lookup text_dec staying (at p.addresses_in_use ip) ≡ some true
    → (lookup text_dec staying (at (release p ip leaving).addresses_in_use ip) ≡ some true)
      × (available (release p ip leaving) ip ports third key ≡ none)
unfolding available
release_unlocks p ip leaving staying third ports key differ on = ground (
  arith,
  slot-release p ip ip leaving,
  lookup-delete_ne text_dec leaving staying (at p.addresses_in_use ip),
)

keep_ports_of-lookup :
    (service : Text) (m : GoMap ServicePort Text) (port : ServicePort)
    → IsMap port_dec m
    → lookup port_dec port (keep_ports_of service m) ≡ elim (lookup port_dec port m) [
      | none ↦ none
      | some svc ↦ ite (text_dec svc service) (some svc) none
    ]
unfolding keep_ports_of lookup
keep_ports_of-lookup service [] port h = refl
keep_ports_of-lookup service ((q, svc) ∷ m) port h =
    ground (arith, keep_ports_of-lookup service m port h.1)

-- `Release` keeps the ports of the service that leaves, and deletes those of every other service
-- on the address.
pub release_ports :
    (p : LocalPool) (ip : Ip) (leaving svc : Text) (port : ServicePort)
    → IsMap port_dec (at p.ports_in_use ip)
    → lookup port_dec port (at p.ports_in_use ip) ≡ some svc
    → lookup port_dec port (at (release p ip leaving).ports_in_use ip)
      ≡ ite (text_dec svc leaving) (some leaving) none
release_ports p ip leaving svc port m h = ground (
  arith,
  ports-release p ip ip leaving,
  keep_ports_of-lookup leaving (at p.ports_in_use ip) port m,
)
