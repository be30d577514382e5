-- ===== src/Tunnels/Retries.antt =====
-- What `allocateTunnelID` returns when it reports no error.
use resource_model.Base.{
  ℕ, zero, suc, ◌+◌, ◌%◌, ◌^◌, ◌≡◌, refl, inl, inr, Option, none, some, Result, ok, arith,
  Option-cases, Result-cases, ap, sym, ◌∙◌,
}
use resource_model.Tunnels.{
  EpicStatus, take_next, next_tunnel_id, allocate_loop, allocate_tunnel_id,
}

module _ {S E : Type 0} (get : S → S × Result E EpicStatus)
    (update : S → EpicStatus → S × Option E) where
  -- The ID was stored by an update that succeeded, on an object read just before.
  abbrev pub IsStored : S → ℕ → Type 0
  IsStored after id =
      (before : S) × (between : S) × (epic : EpicStatus) × (get before ≡ (between, ok epic))
      × (id ≡ (epic.current_tunnel_id + 1) % 2 ^ 32)
      × (update between (record epic { current_tunnel_id = id }) ≡ (after, none))

  next_tunnel_id-IsStored :
      (s s' : S) (id : ℕ) → next_tunnel_id get update s ≡ (s', id, none) → IsStored s' id
  unfolding next_tunnel_id take_next
  next_tunnel_id-IsStored s s' id e = elim (Result-cases (get s).1) [
    | inr (x, bad) ↦ absurd (ground arith)
    | inl (epic, good) ↦ (s, (get s).0, epic, ground arith, ground arith, ground arith)
  ]

  allocate_loop-none :
      (tries : ℕ) (s : S) (id : ℕ) → allocate_loop get update tries s id none ≡ (s, id, none)
  unfolding allocate_loop
  allocate_loop-none zero s id = refl
  allocate_loop-none (suc tries) s id = refl

  allocate_loop-IsStored :
      (tries : ℕ) (s s' : S) (id id' : ℕ) (x : E)
      → allocate_loop get update tries s id (some x) ≡ (s', id', none)
      → IsStored s' id'
  unfolding allocate_loop
  allocate_loop-IsStored zero s s' id id' x e = absurd (ground arith)
  allocate_loop-IsStored (suc tries) s s' id id' x e =
      let s1 : S = (next_tunnel_id get update s).0 in
      let id1 : ℕ = (next_tunnel_id get update s).1 in
      elim (Option-cases (next_tunnel_id get update s).2) [
        | inl n ↦ next_tunnel_id-IsStored s s' id' (
            ap (λ e. (s1, id1, e)) n
            ∙ sym (allocate_loop-none tries s1 id1)
            ∙ rw (n, allocate_loop) at e)
        | inr (y, m) ↦ allocate_loop-IsStored tries s1 s' id1 id' y (rw (m, allocate_loop) at e)
      ]

  -- Whatever the client answers, where `allocateTunnelID` reports no error, the ID that it returns
  -- is one more than the counter of an object that it read, modulo 2^32, and the update that stored
  -- this ID succeeded.
  pub allocate_tunnel_id-IsStored :
      (empty_error : E) (s s' : S) (id : ℕ)
      → allocate_tunnel_id get update empty_error s ≡ (s', id, none)
      → IsStored s' id
  unfolding allocate_tunnel_id
  allocate_tunnel_id-IsStored empty_error s s' id e =
      allocate_loop-IsStored 3 s s' 0 id empty_error e
