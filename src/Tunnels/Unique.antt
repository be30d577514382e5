-- ===== src/Tunnels/Unique.antt =====
-- Tunnel IDs that processes allocate at the same time: any number of them read the counter and try
-- to write it back, and the API server refuses an update of an object that changed since it was
-- read.
use mathlib.Core.Path.{ap₂}
use resource_model.Base.{
  ℕ, zero, suc, ◌+◌, ◌%◌, ◌^◌, ◌<◌, ◌≤◌, ◌≡◌, ◌≢◌, refl, List, [], ◌∷◌, arith, length, All, All-In,
  All-map, In, ap, sym, subst, ◌∙◌,
}
use resource_model.Tunnels.{EpicStatus, take_current, take_next}

-- The stored object with its resource version, the copies that processes read and have not written
-- back, and the IDs handed out so far.
pub record World : Type 0 where
  pub stored : EpicStatus
  pub version : ℕ
  pub read : List (EpicStatus × ℕ)
  pub issued : List ℕ

-- A process of `AllocateTunnelID` reads the object, or writes back a copy that it read, with the
-- counter changed. The update succeeds if nobody wrote since; otherwise the copy is useless and
-- the process reads again.
pub data Step (w : World) : World → Type 0 where
  get : Step w (record w { read = (w.stored, w.version) ∷ w.read })
  update :
      (copy : EpicStatus)
      → In (copy, w.version) w.read
      → Step w (record w {
        stored = (take_current copy).1;
        version = w.version + 1;
        issued = (take_current copy).0 ∷ w.issued;
      })

pub data IsReachable : World → Type 0 where
  start : (w : World) → w.stored.current_tunnel_id ≡ 0 → w.read ≡ [] → w.issued ≡ [] → IsReachable w
  more : {w v : World} → IsReachable w → Step w v → IsReachable v

-- The IDs from a number down to 1.
abbrev pub down_from : ℕ → List ℕ
down_from zero = []
down_from (suc n) = suc n ∷ down_from n

-- The counter that stands for a number of IDs handed out.
abbrev counter : ℕ → ℕ
counter zero = 0
counter (suc n) = suc (suc n)

-- A copy of the current version holds the current counter, and the IDs are those from 1 on.
abbrev CopyOf : World → EpicStatus × ℕ → Type 0
CopyOf w c =
    (c.1 ≤ w.version) × (c.1 ≡ w.version → c.0.current_tunnel_id ≡ w.stored.current_tunnel_id)

record IsCounting (w : World) : Type 0 where
  copies : All (CopyOf w) w.read
  count : w.stored.current_tunnel_id ≡ counter (length w.issued)
  ids : w.issued ≡ down_from (length w.issued)

-- The uint32 does not wrap around.
abbrev pub IsShort : World → Type 0
IsShort w = length w.issued + 1 < 2 ^ 32

module _ (w : World) (h : IsCounting w) (copy : EpicStatus) (i : In (copy, w.version) w.read) where
  same_counter : copy.current_tunnel_id ≡ w.stored.current_tunnel_id
  same_counter = (All-In (CopyOf w) (copy, w.version) w.read h.copies i).1 refl

  take_current-counter :
      length w.issued + 2 < 2 ^ 32
      → ((take_current copy).0 ≡ suc (length w.issued))
        × ((take_current copy).1.current_tunnel_id ≡ suc (suc (length w.issued)))
  unfolding take_current
  take_current-counter short = ground (arith, same_counter, h.count)

  update-IsCounting :
      length w.issued + 2 < 2 ^ 32
      → IsCounting (record w {
        stored = (take_current copy).1;
        version = w.version + 1;
        issued = (take_current copy).0 ∷ w.issued;
      })
  update-IsCounting short = record {
    copies = All-map w.read (λ c (old, _). ((omega arith), λ e. absurd (omega arith))) h.copies;
    count = (take_current-counter short).1;
    ids = ap₂ ◌∷◌ (take_current-counter short).0 h.ids;
  }

Step-IsCounting : {w v : World} → Step w v → IsShort v → IsCounting w → IsCounting v
Step-IsCounting {w} get short h = record {
  copies = ((omega arith, λ _. refl), h.copies);
  count = h.count;
  ids = h.ids;
}
Step-IsCounting {w} (update copy i) short h = update-IsCounting w h copy i (omega arith)

Step-IsShort : {w v : World} → Step w v → IsShort v → IsShort w
Step-IsShort get short = short
Step-IsShort (update copy i) short = omega arith

IsReachable-IsCounting : {w : World} → IsReachable w → IsShort w → IsCounting w
IsReachable-IsCounting (start w zero_ none_read none_issued) short = record {
  copies = subst (All (CopyOf w)) (sym none_read) tt;
  count = zero_ ∙ ap (λ l. counter (length l)) (sym none_issued);
  ids = none_issued ∙ ap (λ l. down_from (length l)) (sym none_issued);
}
IsReachable-IsCounting (more r s) short =
    Step-IsCounting s short (IsReachable-IsCounting r (Step-IsShort s short))

-- However the processes of `AllocateTunnelID` interleave, from a counter of 0 and as long as fewer
-- than 2^32 - 1 IDs are handed out, the IDs are the numbers from 1 on, in order, each once.
pub issued-down_from :
    (w : World) → IsReachable w → IsShort w → w.issued ≡ down_from (length w.issued)
issued-down_from w r short = (IsReachable-IsCounting r short).ids

-- `allocateTunnelID` of the RemoteEndpoint controller returns the number that it stores, and
-- `AllocateTunnelID` returns the number that it finds: when the first is followed by the second,
-- both return the same ID, unless the counter wraps around to 0.
pub allocations_collide :
    (epic : EpicStatus)
    → (epic.current_tunnel_id + 1) % 2 ^ 32 ≢ 0
    → (take_current (take_next epic).1).0 ≡ (take_next epic).0
unfolding take_current take_next
allocations_collide epic h = ground arith
