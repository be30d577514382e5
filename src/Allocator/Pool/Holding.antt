-- ===== src/Allocator/Pool/Holding.antt =====
-- Who holds an address of a pool whose addresses are handed out without a sharing key.
use resource_model.Base.{◌≡◌, ◌≢◌, ◌⊎◌, true, [], ◌∷◌, none, some, arith, ◌∙◌, Text}
use resource_model.Allocator.Ip
use resource_model.Allocator.Ip.{Ip}
use resource_model.Allocator.Pool.{LocalPool, Key, sharing_key}
use resource_model.Allocator.Pool.Entries.{slot}

abbrev pub unshared : Key
unshared = record { sharing = [] }

abbrev pub IsFree : LocalPool → Ip → Type 0
IsFree p ip = slot p ip ≡ ([], none)

abbrev pub IsHeld : LocalPool → Ip → Text → Type 0
IsHeld p ip service = slot p ip ≡ ((service, true) ∷ [], some unshared)

-- Every address is free, or held by one service that does not share it.
abbrev pub IsExclusive : LocalPool → Type 0
IsExclusive p = (ip : Ip) → IsFree p ip ⊎ ((service : Text) × IsHeld p ip service)

-- The slot depends only on the text of the address.
pub slot-string :
    (p : LocalPool) (ip other : Ip) → Ip.string ip ≡ Ip.string other → slot p ip ≡ slot p other
unfolding sharing_key
slot-string p ip other e = rw e

-- Two holders of one address are the same service.
pub IsHeld-unique :
    (p : LocalPool) (ip other : Ip) (s t : Text)
    → Ip.string ip ≡ Ip.string other
    → IsHeld p ip s
    → IsHeld p other t
    → s ≡ t
IsHeld-unique p ip other s t e h k = ground (arith, slot-string p ip other e)

pub IsFree-not-IsHeld :
    (p : LocalPool) (ip other : Ip) (t : Text)
    → Ip.string ip ≡ Ip.string other
    → IsFree p ip
    → ¬ IsHeld p other t
IsFree-not-IsHeld p ip other t e h k = ground (arith, slot-string p ip other e)

-- From `p` to `q` the service became the one holder of the address, and nothing else changed hands.
pub record IsPlaced (p q : LocalPool) (ip : Ip) (service : Text) : Type 0 where
  pub exclusive : IsExclusive q
  pub held : IsHeld q ip service
  pub elsewhere : (other : Ip) → Ip.string ip ≢ Ip.string other → slot q other ≡ slot p other

pub IsPlaced-trans :
    {p q r : LocalPool} {ip : Ip} {service : Text}
    → IsPlaced p q ip service
    → IsPlaced q r ip service
    → IsPlaced p r ip service
IsPlaced-trans a b = record {
  exclusive = b.exclusive;
  held = b.held;
  elsewhere = λ other d. b.elsewhere other d ∙ a.elsewhere other d;
}
