-- ===== src/Tests/Tunnels.antt =====
-- Tunnel IDs at concrete counters.
use resource_model.Base.{ℕ, ◌≡◌, refl, inl, [], ◌∷◌, Option, none, arith, Result, ok}
use resource_model.Tunnels.{
  EpicStatus, take_current, take_next, allocate_tunnel_id, allocate_loop, next_tunnel_id,
}
use resource_model.Tunnels.Unique.{
  World, get, update, IsReachable, start, more, down_from, issued-down_from, allocations_collide,
}
use resource_model.Tunnels.Retries.{IsStored, allocate_tunnel_id-IsStored}

abbrev epic : ℕ → EpicStatus
epic n = record { current_tunnel_id = n }

abbrev empty : World
empty = record { stored = epic 0; version = 7; read = []; issued = [] }

abbrev read_once : World
read_once = record empty { read = (epic 0, 7) ∷ [] }

abbrev issued_once : World
issued_once = record read_once { stored = epic 2; version = 8; issued = 1 ∷ [] }

reach_once : IsReachable issued_once
unfolding take_current
reach_once = more (more (start empty refl refl refl) get) (update (epic 0) (inl refl))

issued-down_from_example : issued_once.issued ≡ down_from 1
issued-down_from_example = issued-down_from issued_once reach_once (omega arith)

allocations_collide_example : (take_current (take_next (epic 4)).1).0 ≡ (take_next (epic 4)).0
allocations_collide_example = allocations_collide (epic 4) (λ e. omega arith)

-- A client for one process: the object is the whole state, and no call fails.
abbrev get_alone : EpicStatus → EpicStatus × Result ℕ EpicStatus
get_alone s = (s, ok s)

abbrev update_alone : EpicStatus → EpicStatus → EpicStatus × Option ℕ
update_alone s changed = (changed, none)

allocate_tunnel_id-IsStored_example : IsStored get_alone update_alone (epic 5) 5
unfolding allocate_tunnel_id allocate_loop next_tunnel_id take_next
allocate_tunnel_id-IsStored_example =
    allocate_tunnel_id-IsStored get_alone update_alone 0 (epic 4) (epic 5) 5 refl
