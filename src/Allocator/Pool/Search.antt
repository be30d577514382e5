-- ===== src/Allocator/Pool/Search.antt =====
-- `AssignNext`: the walk through the range finds the lowest address that can be assigned.
use resource_model.Base.{ℕ, ◌≤◌, ◌<◌, ◌≡◌, List, Option, some, Text, Result, ok, err}
use resource_model.Allocator.Ip.{Ip}
use resource_model.Allocator.Ip.Value.{value}
use resource_model.Allocator.Range
use resource_model.Allocator.Range.{IpRange}
use resource_model.Allocator.Range.Bounds.{IsLike, IsValid}
use resource_model.Allocator.Pool.{
  LocalPool, ServicePort, Key, Error, no_available_addresses, assign,
}

module _ (p : LocalPool) (r : IpRange) (service : Text) (ports : List ServicePort)
    (key : Option Key) (range : p.addresses ≡ some r) (v : IsValid r) where
  -- `Assign` refuses the address.
  abbrev pub IsRefused : Ip → Type 0
  IsRefused a = (e : Error) × (assign p a ports service key ≡ err e)

  -- The walk ends at the first address, from a number on, that can be assigned.
  abbrev pub Finds : ℕ → Result Error (Ip × LocalPool) → Type 0
  Finds low result =
      (ip : Ip) × (p' : LocalPool) × (result ≡ ok (ip, p'))
      × IsLike r ip
      × (low ≤ value ip)
      × (value ip ≤ value r.to)
      × (assign p ip ports service key ≡ ok p')
      × ((a : Ip) → IsLike r a → low ≤ value a → value a < value ip → IsRefused a)

  -- No address from the number on can be assigned.
  abbrev pub Fails : ℕ → Result Error (Ip × LocalPool) → Type 0
  Fails low result =
      (result ≡ err no_available_addresses)
      × ((a : Ip) → IsLike r a → low ≤ value a → value a ≤ value r.to → IsRefused a)
