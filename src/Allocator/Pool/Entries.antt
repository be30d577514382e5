-- ===== src/Allocator/Pool/Entries.antt =====
-- The entry of one address in the pool's maps after a write.
use resource_model.Base.{◌≡◌, ite, Bool, true, List, Option, none, arith, Text, text_dec}
use resource_model.GoMap.{GoMap, insert, delete, lookup-insert, lookup-delete, keys}
use resource_model.Allocator.Ip
use resource_model.Allocator.Ip.{Ip, ip_dec}
use resource_model.Allocator.Pool.{
  LocalPool, ServicePort, Key, at, put_or_drop, sharing_key, services_on_ip, keep_ports_of,
  take_ports, occupy, release,
}

module _ {K V : Type 0} (ip other : Ip) (inner : GoMap K V) (m : GoMap Ip (GoMap K V)) where
  pub at-insert :
      at (insert ip_dec (Ip.string ip) inner m) other
      ≡ ite (ip_dec (Ip.string ip) (Ip.string other)) inner (at m other)
  at-insert = ground (arith, lookup-insert ip_dec (Ip.string ip) (Ip.string other) inner m)

  pub at-put_or_drop :
      at (put_or_drop ip inner m) other
      ≡ ite (ip_dec (Ip.string ip) (Ip.string other)) inner (at m other)
  at-put_or_drop = ground (
    arith,
    lookup-insert ip_dec (Ip.string ip) (Ip.string other) inner m,
    lookup-delete ip_dec (Ip.string ip) (Ip.string other) m,
  )

-- `servicesOnIP` lists the keys of the address's entry.
pub services_on_ip-keys :
    (p : LocalPool) (ip : Ip) → services_on_ip p ip ≡ keys (at p.addresses_in_use ip)
unfolding services_on_ip
services_on_ip-keys p ip = ground arith

-- Who uses the address, and its sharing key.
abbrev pub slot : LocalPool → Ip → GoMap Text Bool × Option Key
slot p ip = (at p.addresses_in_use ip, sharing_key p ip)

-- `occupy` writes the slot of one address.
pub slot-occupy :
    (p : LocalPool) (ip other : Ip) (ports : List ServicePort) (service : Text) (key : Option Key)
    → slot (occupy p ip ports service key) other
      ≡ ite
          (ip_dec (Ip.string ip) (Ip.string other))
          (insert text_dec service true (at p.addresses_in_use ip), key)
          (slot p other)
unfolding sharing_key occupy
slot-occupy p ip other ports service key = ground (
  arith,
  lookup-insert ip_dec (Ip.string ip) (Ip.string other) key p.sharing_keys,
  at-insert ip other (insert text_dec service true (at p.addresses_in_use ip)) p.addresses_in_use,
)

pub ports-occupy :
    (p : LocalPool) (ip other : Ip) (ports : List ServicePort) (service : Text) (key : Option Key)
    → at (occupy p ip ports service key).ports_in_use other
      ≡ ite
          (ip_dec (Ip.string ip) (Ip.string other))
          (take_ports service ports (at p.ports_in_use ip))
          (at p.ports_in_use other)
unfolding occupy
ports-occupy p ip other ports service key = at-insert ip other _ p.ports_in_use

module _ (p : LocalPool) (ip other : Ip) (service : Text) where
  -- `release` deletes the sharing key and one user.
  pub slot-release :
      slot (release p ip service) other
      ≡ ite
          (ip_dec (Ip.string ip) (Ip.string other))
          (delete text_dec service (at p.addresses_in_use ip), none)
          (slot p other)
  unfolding sharing_key release
  slot-release = ground (
    arith,
    lookup-delete ip_dec (Ip.string ip) (Ip.string other) p.sharing_keys,
    at-put_or_drop ip other (delete text_dec service (at p.addresses_in_use ip)) p.addresses_in_use,
  )

  pub ports-release :
      at (release p ip service).ports_in_use other
      ≡ ite
          (ip_dec (Ip.string ip) (Ip.string other))
          (keep_ports_of service (at p.ports_in_use ip))
          (at p.ports_in_use other)
  unfolding release
  ports-release = at-put_or_drop ip other _ p.ports_in_use
