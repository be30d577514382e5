-- ===== src/Tunnels.antt =====
-- Tunnel IDs: `AllocateTunnelID` of api/v1/epic_types.go, and `allocateTunnelID` with
-- `nextTunnelID` of controllers/remoteendpoint_controller.go. Both read the EPIC singleton, change
-- its counter and write it back.
pub mod Retries
pub mod Unique
use resource_model.Base.{
  ℕ, zero, suc, ◌+◌, ◌%◌, ◌^◌, Option, none, some, Result, ok, err, if◌then◌else◌, ◌==◌,
}

-- The field of `EPICStatus` that both use.
pub record EpicStatus : Type 0 where
  pub current_tunnel_id : ℕ

-- `AllocateTunnelID` between `Get` and `Update`: the ID and the changed object. The counter is a
-- uint32.
unfoldable pub take_current : EpicStatus → ℕ × EpicStatus
take_current epic =
    let current = if epic.current_tunnel_id == 0 then 1 else epic.current_tunnel_id in
    (current, record epic { current_tunnel_id = (current + 1) % 2 ^ 32 })

-- `nextTunnelID` between `Get` and `Update`.
unfoldable pub take_next : EpicStatus → ℕ × EpicStatus
take_next epic =
    let next = (epic.current_tunnel_id + 1) % 2 ^ 32 in
    (next, record epic { current_tunnel_id = next })

-- The Kubernetes client, which belongs to another repository: `S` is the state of the world, in
-- which other processes may act at any time, and `E` its errors.
module _ {S E : Type 0} (get : S → S × Result E EpicStatus)
    (update : S → EpicStatus → S × Option E) where
  -- `nextTunnelID`: the ID and the error, of which none is nil.
  unfoldable pub next_tunnel_id : S → S × ℕ × Option E
  next_tunnel_id s =
      let (s1, got) = get s in
      elim got [
        | err e ↦ (s1, 0, some e)
        | ok epic ↦
            let (next, changed) = take_next epic in let (s2, e) = update s1 changed in (s2, next, e)
      ]

  -- The loop of `allocateTunnelID`: the last ID and error, and the tries that are left.
  unfoldable pub allocate_loop : ℕ → S → ℕ → Option E → S × ℕ × Option E
  allocate_loop tries s id none = (s, id, none)
  allocate_loop zero s id (some e) = (s, id, some e)
  allocate_loop (suc tries) s id (some e) =
      let (s', id', e') = next_tunnel_id s in allocate_loop tries s' id' e'

  -- `allocateTunnelID`, whose loop starts with an error of its own.
  unfoldable pub allocate_tunnel_id : E → S → S × ℕ × Option E
  allocate_tunnel_id empty_error s = allocate_loop 3 s 0 (some empty_error)
