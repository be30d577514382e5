-- ===== src/Allocator/Pool/Ports.antt =====
-- The ports that an assignment takes on an address.
use resource_model.Base.{◌≡◌, refl, List, [], ◌∷◌, none, some, arith, Text, All}
use resource_model.GoMap.{GoMap, lookup, insert, lookup-insert, lookup-insert_self}
use resource_model.Allocator.Ip.{Ip}
use resource_model.Allocator.Pool.{ServicePort, port_dec, take_ports, port_conflict}

-- The port is the service's.
abbrev pub IsOwn : GoMap ServicePort Text → Text → ServicePort → Type 0
IsOwn in_use service port = lookup port_dec port in_use ≡ some service

take_ports_keep :
    (service : Text) (ports : List ServicePort) (in_use : GoMap ServicePort Text)
    (port : ServicePort)
    → IsOwn in_use service port
    → IsOwn (take_ports service ports in_use) service port
unfolding take_ports
take_ports_keep service [] in_use port h = h
take_ports_keep service (q ∷ ports) in_use port h =
    take_ports_keep service ports (insert port_dec q service in_use) port
      (ground (arith, lookup-insert port_dec q port service in_use))

pub take_ports-All :
    (service : Text) (ports : List ServicePort) (in_use : GoMap ServicePort Text)
    → All (IsOwn (take_ports service ports in_use) service) ports
unfolding take_ports
take_ports-All service [] in_use = tt
take_ports-All service (q ∷ ports) in_use = (
  take_ports_keep service ports (insert port_dec q service in_use) q
      (lookup-insert_self port_dec q service in_use),
  take_ports-All service ports (insert port_dec q service in_use),
)

pub port_conflict_own :
    (in_use : GoMap ServicePort Text) (ip : Ip) (service : Text) (ports : List ServicePort)
    → All (IsOwn in_use service) ports
    → port_conflict in_use ip service ports ≡ none
unfolding port_conflict
port_conflict_own in_use ip service [] h = refl
port_conflict_own in_use ip service (q ∷ ports) h =
    ground (arith, h.0, port_conflict_own in_use ip service ports h.1)
