-- ===== src/Proxies/Complete.antt =====
-- The tunnels of the loops of `allocateProxyTunnels`.
use resource_model.Base.{
  ℕ, ◌≡◌, ◌↔◌, ap, subst, inl, inr, List, [], ◌∷◌, map, some, arith, In, Text, Result, ok,
  Result-cases,
}
use resource_model.GoMap.{GoMap, lookup}
use resource_model.Proxies.{
  Tunnel, TunnelMaps, ProxyInterface, tunnel_at, add_tunnel, add_node_tunnels, add_tunnels,
  proxy_tunnels,
}
use resource_model.Proxies.Filling.{
  Fills, IsProper, Only, Fills-trans, Fills-refl, add_tunnel-Fills,
}

module _ {S E : Type 0} (allocate_id : S → S × Result E ℕ) (base : Tunnel) (old : TunnelMaps) where
  abbrev Adds : TunnelMaps → TunnelMaps → (Text → Text → Type 0) → Type 0
  Adds = Fills allocate_id base old

  abbrev OneNode : Text → List Text → Text → Text → Type 0
  OneNode node proxy_nodes n p = (n ≡ node) × In p proxy_nodes

  abbrev AllNodes : List Text → List Text → Text → Text → Type 0
  AllNodes nodes proxy_nodes n p = In n nodes × In p proxy_nodes

  add_node_tunnels-Fills :
      (node : Text) (proxy_nodes : List Text) (s s' : S) (m m' : TunnelMaps)
      → add_node_tunnels allocate_id base old node proxy_nodes s m ≡ (s', ok m')
      → Adds m m' (OneNode node proxy_nodes)
  unfolding add_node_tunnels
  add_node_tunnels-Fills node [] s s' m m' e =
      let is : m ≡ m' = ground arith in
      subst (λ x. Adds m x (OneNode node [])) is
        (Fills-refl allocate_id base old m (OneNode node []) (λ n p h. h.1))
  add_node_tunnels-Fills node (pn ∷ pns) s s' m m' e =
      let s1 : S = (add_tunnel allocate_id base old node pn s m).0 in
      elim (Result-cases (add_tunnel allocate_id base old node pn s m).1) [
        | inr (x, bad) ↦ absurd (ground arith)
        | inl (m1, good) ↦
            Fills-trans allocate_id base old m m1 m' (Only allocate_id base old node pn)
              (OneNode node pns) (OneNode node (pn ∷ pns))
              (λ n p (a, i). elim i [ inl same ↦ inl (a, same) | inr later ↦ inr (a, later) ])
              (λ n p h. elim h [ inl (a, same) ↦ (a, inl same) | inr (a, later) ↦ (a, inr later) ])
              (add_tunnel-Fills allocate_id base old node pn s s1 m m1 (ap (λ r. (s1, r)) good))
              (add_node_tunnels-Fills node pns s1 s' m1 m' (ground arith))
      ]

  add_tunnels-Fills :
      (nodes proxy_nodes : List Text) (s s' : S) (m m' : TunnelMaps)
      → add_tunnels allocate_id base old nodes proxy_nodes s m ≡ (s', ok m')
      → Adds m m' (AllNodes nodes proxy_nodes)
  unfolding add_tunnels
  add_tunnels-Fills [] pns s s' m m' e =
      let is : m ≡ m' = ground arith in
      subst (λ x. Adds m x (AllNodes [] pns)) is
        (Fills-refl allocate_id base old m (AllNodes [] pns) (λ n p h. h.0))
  add_tunnels-Fills (node ∷ nodes) pns s s' m m' e =
      let s1 : S = (add_node_tunnels allocate_id base old node pns s m).0 in
      elim (Result-cases (add_node_tunnels allocate_id base old node pns s m).1) [
        | inr (x, bad) ↦ absurd (ground arith)
        | inl (m1, good) ↦
            Fills-trans allocate_id base old m m1 m' (OneNode node pns) (AllNodes nodes pns)
              (AllNodes (node ∷ nodes) pns)
              (λ n p (a, i). elim a [ inl same ↦ inl (same, i) | inr later ↦ inr (later, i) ])
              (λ n p h. elim h [ inl (same, i) ↦ (inl same, i) | inr (later, i) ↦ (inr later, i) ])
              (add_node_tunnels-Fills node pns s s1 m m1 (ap (λ r. (s1, r)) good))
              (add_tunnels-Fills nodes pns s1 s' m1 m' (ground arith))
      ]

  -- Where `allocateProxyTunnels` gets all the tunnel IDs that it asks for, the map that it patches
  -- in has a tunnel for exactly the pairs of a node with an active endpoint and a node of the
  -- proxy. A tunnel that the proxy had for the pair is kept, and a new one has the address of the
  -- proxy's node.
  pub proxy_tunnels_lem :
      (nodes : List Text) (interfaces : GoMap Text ProxyInterface) (s s' : S) (m : TunnelMaps)
      (n p : Text)
      → proxy_tunnels allocate_id base old nodes interfaces s ≡ (s', ok m)
      → (((t : Tunnel) × (tunnel_at m n p ≡ some t))
          ↔ (In n nodes × In p (map (λ e. e.1.epic_node_address) interfaces)))
        × ((t : Tunnel) → tunnel_at m n p ≡ some t → IsProper allocate_id base old n p t)
  unfolding proxy_tunnels lookup
  proxy_tunnels_lem nodes interfaces s s' m n p e =
      let fills =
        add_tunnels-Fills nodes (map (λ e. e.1.epic_node_address) interfaces) s s' [] m e in
      (
        (
          (λ (t, h). elim (fills.origin n p t h) [
            | inl before ↦ absurd (ground arith)
            | inr (pair, proper) ↦ pair
          ]),
          λ pair. fills.kept n p (inr pair),
        ),
        λ t h. elim (fills.origin n p t h) [
          | inl before ↦ absurd (ground arith)
          | inr (pair, proper) ↦ proper
        ],
      )
