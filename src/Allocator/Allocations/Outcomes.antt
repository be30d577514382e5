-- ===== src/Allocator/Allocations/Outcomes.antt =====
-- What `AllocateFromPool` answers: the lowest free address of the pool, or that there is none.
use resource_model.Base.{ℕ, ◌≡◌, ◌<◌, ◌≤◌, List, [], some, Text, text_dec}
use resource_model.GoMap.{lookup}
use resource_model.Allocator.Ip.{Ip}
use resource_model.Allocator.Ip.Value.{value}
use resource_model.Allocator.Range
use resource_model.Allocator.Range.{IpRange}
use resource_model.Allocator.Range.Bounds.{IsLike, IsValid, count}
use resource_model.Allocator.Pool
use resource_model.Allocator.Pool.{LocalPool, ServicePort}
use resource_model.Allocator.Pool.Holding.{IsHeld}
use resource_model.Allocator.Allocations.{Allocator, alloc_of}
use resource_model.Allocator.Allocations.Exclusive.{IsSound}
use resource_model.Allocator.Allocations.Handing.{IsHanded}

-- Some service holds the address.
abbrev pub IsTaken : LocalPool → Ip → Type 0
IsTaken p ip = (t : Text) × IsHeld p ip t

module _ (fuel : ℕ) (a : Allocator) (svc name : Text) (ports : List ServicePort) (p : LocalPool)
    (r : IpRange) (n : ℕ) (sound : IsSound a) (known : lookup text_dec name a.pools ≡ some p)
    (range : p.addresses ≡ some r) (v : IsValid r) (size : Range.size r ≡ some n)
    (enough : count r < fuel) where
  -- The address is handed out, and every lower address of the range is taken.
  abbrev pub IsLowest : Ip → Allocator → Type 0
  IsLowest ip b =
      IsHanded a b svc (alloc_of name ip ports [])
      × IsLike r ip
      × (value r.from ≤ value ip)
      × (value ip ≤ value r.to)
      × ((lower : Ip)
          → IsLike r lower
          → value r.from ≤ value lower
          → value lower < value ip
          → IsTaken p lower)

  abbrev pub IsFull : Type 0
  IsFull = (ip : Ip) → IsLike r ip → value r.from ≤ value ip → value ip ≤ value r.to → IsTaken p ip
