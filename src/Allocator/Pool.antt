-- ===== src/Allocator/Pool.antt =====
-- internal/allocator/pool.go and internal/allocator/localpool.go: the pool of addresses, its
-- sharing keys and its ports in use. A map key `ip.String()` is `Ip.string ip`. The pool's maps are
-- shared by all copies of a `LocalPool`, so a method returns the pool with the new maps.
pub mod Entries
pub mod Ports
pub mod Holding
pub mod Assignment
pub mod Sharing
pub mod Search
use resource_model.Base.{
  ℕ, zero, suc, ◌+◌, ◌-◌, ◌≡◌, ite, Bool, true, false, List, [], ◌∷◌, map, Option, none, some, Text,
  text_dec, Result, ok, err, length, if◌then◌else◌, ◌==◌, ℕ_discrete,
}
use mathlib.Core.Option.{get_or}
use resource_model.GoMap.{GoMap, keys, lookup, insert, delete}
use resource_model.Allocator.Ip
use resource_model.Allocator.Ip.{Ip, ip_dec}
use resource_model.Allocator.Range
use resource_model.Allocator.Range.{IpRange}

-- `intstr.IntOrString`
pub data IntOrString : Type 0 where
  int : ℕ → IntOrString
  str : Text → IntOrString

-- `corev1.ServicePort`, which the pool compares as a map key. The field `AppProtocol` is a pointer,
-- so two values are equal only if they hold the same pointer: it is modelled by an identity.
pub record ServicePort : Type 0 where
  pub name : Text
  pub protocol : Text
  pub app_protocol : Option ℕ
  pub port : ℕ
  pub target_port : IntOrString
  pub node_port : ℕ

unfoldable pub port_dec : Discrete ServicePort
unfolding text_dec ℕ_discrete
port_dec = hlevel (text_dec, ℕ_discrete)

pub record Key : Type 0 where
  pub sharing : Text

-- What an operation reports. Each constructor is one message of the source.
pub data Error : Type 0 where
  existing_not_shared new_not_shared : Error
  key_mismatch : Text → Text → Error
  address_in_use : Text → List Text → Error
  port_in_use : ServicePort → Ip → Error
  no_available_addresses : Error
  out_of_fuel : Error

-- `none` is a nil error.
unfoldable pub sharing_ok : Key → Key → Option Error
sharing_ok existing new = ite (text_dec existing.sharing []) (some existing_not_shared) (
    ite (text_dec new.sharing []) (some new_not_shared) (
      ite (text_dec existing.sharing new.sharing) none
        (some (key_mismatch new.sharing existing.sharing))))

pub record LocalPool : Type 0 where
  pub addresses : Option IpRange
  pub addresses_in_use : GoMap Ip (GoMap Text Bool)
  pub sharing_keys : GoMap Ip (Option Key)
  pub ports_in_use : GoMap Ip (GoMap ServicePort Text)
  pub subnet_v4 : Text
  pub aggregation : Text

unfoldable pub new_local_pool : {E : Type 0} → Result E IpRange → Text → Text → Result E LocalPool
new_local_pool (err e) subnet aggregation = err e
new_local_pool (ok iprange) subnet aggregation = ok (record {
  addresses = some iprange;
  addresses_in_use = [];
  sharing_keys = [];
  ports_in_use = [];
  subnet_v4 = subnet;
  aggregation = aggregation;
})

-- `m[ip.String()]` of a map of maps: a missing entry is the nil map, which reads as the empty one.
abbrev pub at : {K V : Type 0} → GoMap Ip (GoMap K V) → Ip → GoMap K V
at m ip = get_or (lookup ip_dec (Ip.string ip) m) []

unfoldable pub sharing_key : LocalPool → Ip → Option Key
sharing_key p ip = get_or (lookup ip_dec (Ip.string ip) p.sharing_keys) none

unfoldable pub services_on_ip : LocalPool → Ip → List Text
services_on_ip p ip = elim (lookup ip_dec (Ip.string ip) p.addresses_in_use) [
  | none ↦ []
  | some svcs ↦ keys svcs
]

-- The loop that collects `otherSvcs`.
unfoldable pub other_services : Text → List Text → List Text
other_services service [] = []
other_services service (other_svc ∷ svcs) =
    ite (text_dec other_svc service) (other_services service svcs)
      (other_svc ∷ other_services service svcs)

-- The loop over the ports: the first that another service has.
unfoldable pub port_conflict : GoMap ServicePort Text → Ip → Text → List ServicePort → Option Error
port_conflict in_use ip service [] = none
port_conflict in_use ip service (port ∷ ports) =
    let rest = port_conflict in_use ip service ports in
    elim (lookup port_dec port in_use) [
      | none ↦ rest
      | some cur_svc ↦ ite (text_dec cur_svc service) rest (some (port_in_use port ip))
    ]

-- `key == nil` means no sharing.
abbrev key_or_empty : Option Key → Key
key_or_empty key = get_or key (record { sharing = [] })

-- The check of an address that has a sharing key.
unfoldable pub compatible : LocalPool → Ip → List ServicePort → Text → Key → Key → Option Error
compatible p ip ports service existing key =
    let ports_free = port_conflict (at p.ports_in_use ip) ip service ports in
    elim (sharing_ok existing key) [
      | none ↦ ports_free
      | some _ ↦
          let others = other_services service (services_on_ip p ip) in
          elim others [ [] ↦ ports_free | o ∷ os ↦ some (address_in_use service (o ∷ os)) ]
    ]

-- `none` is a nil error: the address is available.
unfoldable pub available : LocalPool → Ip → List ServicePort → Text → Option Key → Option Error
unfolding compatible sharing_key
available p ip ports service key = elim (sharing_key p ip) [
  | none ↦ none
  | some existing ↦ compatible p ip ports service existing (key_or_empty key)
]

-- The loop `p.portsInUse[ipstr][port] = service`.
unfoldable pub take_ports :
    Text → List ServicePort → GoMap ServicePort Text → GoMap ServicePort Text
take_ports service [] in_use = in_use
take_ports service (port ∷ ports) in_use =
    take_ports service ports (insert port_dec port service in_use)

-- What `Assign` writes.
unfoldable pub occupy : LocalPool → Ip → List ServicePort → Text → Option Key → LocalPool
occupy p ip ports service key = record p {
  sharing_keys = insert ip_dec ipstr key p.sharing_keys;
  addresses_in_use =
      insert ip_dec ipstr (insert text_dec service true (at p.addresses_in_use ip))
        p.addresses_in_use;
  ports_in_use =
      insert ip_dec ipstr (take_ports service ports (at p.ports_in_use ip)) p.ports_in_use;
}
  where
    ipstr : Ip
    ipstr = Ip.string ip

unfoldable pub assign :
    LocalPool → Ip → List ServicePort → Text → Option Key → Result Error LocalPool
unfolding occupy
assign p ip ports service key = elim (available p ip ports service key) [
  | some e ↦ err e
  | none ↦ ok (occupy p ip ports service key)
]

unfoldable pub first : LocalPool → Option Ip
first p = elim p.addresses [ none ↦ none | some r ↦ some (Range.first r) ]

unfoldable pub next : LocalPool → Ip → Option Ip
next p ip = elim p.addresses [ none ↦ none | some r ↦ Range.next r ip ]

-- The loop of `AssignNext` from an address on. The fuel bounds the rounds.
unfoldable pub assign_from :
    ℕ → LocalPool → Option Ip → Text → List ServicePort → Option Key → Result Error (Ip × LocalPool)
assign_from zero p pos service ports key = err out_of_fuel
assign_from (suc fuel) p none service ports key = err no_available_addresses
assign_from (suc fuel) p (some pos) service ports key =
    let rest = assign_from fuel p (next p pos) service ports key in
    elim (assign p pos ports service key) [ ok p' ↦ ok (pos, p') | err _ ↦ rest ]

unfoldable pub assign_next :
    ℕ → LocalPool → Text → List ServicePort → Option Key → Result Error (Ip × LocalPool)
unfolding assign_from
assign_next fuel p service ports key = assign_from fuel p (first p) service ports key

-- An inner map that became empty is deleted.
abbrev put_or_drop : {K V : Type 0} → Ip → GoMap K V → GoMap Ip (GoMap K V) → GoMap Ip (GoMap K V)
put_or_drop ip [] m = delete ip_dec (Ip.string ip) m
put_or_drop ip (e ∷ inner) m = insert ip_dec (Ip.string ip) (e ∷ inner) m

-- The loop `if svc != service { delete(p.portsInUse[ipstr], port) }`.
unfoldable pub keep_ports_of : Text → GoMap ServicePort Text → GoMap ServicePort Text
keep_ports_of service [] = []
keep_ports_of service ((port, svc) ∷ ports) =
    ite (text_dec svc service) ((port, svc) ∷ keep_ports_of service ports)
      (keep_ports_of service ports)

unfoldable pub release : LocalPool → Ip → Text → LocalPool
release p ip service = record p {
  sharing_keys = delete ip_dec (Ip.string ip) p.sharing_keys;
  addresses_in_use =
      put_or_drop ip (delete text_dec service (at p.addresses_in_use ip)) p.addresses_in_use;
  ports_in_use = put_or_drop ip (keep_ports_of service (at p.ports_in_use ip)) p.ports_in_use;
}

unfoldable pub in_use : LocalPool → ℕ
in_use p = length p.addresses_in_use

-- A pool without addresses has the size 0. `none` is a panic.
unfoldable pub size : LocalPool → Option ℕ
size p = elim p.addresses [ none ↦ some 0 | some r ↦ Range.size r ]

unfoldable pub contains : LocalPool → Ip → Bool
contains p ip = elim p.addresses [ none ↦ false | some r ↦ Range.contains r ip ]

-- A value of the interface `Pool`: the type assertion of `Overlaps` tells a `LocalPool` from a
-- pointer to one, and `NewLocalPool` returns a pointer.
pub data PoolValue : Type 0 where
  value : LocalPool → PoolValue
  pointer : LocalPool → PoolValue

-- `none` is the panic of a nil `addresses`.
unfoldable pub overlaps : LocalPool → PoolValue → Option Bool
overlaps p (pointer other) = some false
overlaps p (value other) = elim p.addresses [
  | none ↦ none
  | some r ↦ elim other.addresses [ none ↦ none | some o ↦ some (Range.overlaps r o) ]
]
