-- ===== src/Proxies/Filling.antt =====
-- Which tunnels `allocateProxyTunnels` puts into its patch.
use resource_model.Base.{
  ℕ, ◌≡◌, ◌⊎◌, refl, sym, subst, inl, inr, [], none, some, arith, ite, Text, text_dec, Result, ok,
  Option-cases, Result-cases,
}
use resource_model.GoMap.{lookup, insert, lookup-insert}
use resource_model.Proxies.{
  Tunnel, TunnelMaps, endpoints_at, tunnel_at, put_tunnel, with_node, add_tunnel,
}

tunnel_at-put_tunnel :
    (node proxy_node n p : Text) (t : Tunnel) (m : TunnelMaps)
    → tunnel_at (put_tunnel node proxy_node t m) n p
      ≡ ite
          (text_dec node n)
          (ite (text_dec proxy_node p) (some t) (tunnel_at m n p))
          (tunnel_at m n p)
tunnel_at-put_tunnel node proxy_node n p t m = ground (
  arith,
  lookup-insert text_dec node n (insert text_dec proxy_node t (endpoints_at m node)) m,
  lookup-insert text_dec proxy_node p t (endpoints_at m node),
)

module _ {S E : Type 0} (allocate_id : S → S × Result E ℕ) (base : Tunnel) (old : TunnelMaps) where
  tunnel_at-with_node :
      (node n p : Text) (m : TunnelMaps)
      → tunnel_at (with_node allocate_id base old node m) n p ≡ tunnel_at m n p
  unfolding lookup
  tunnel_at-with_node node n p m = ground (arith, lookup-insert text_dec node n [] m)

  -- A tunnel that was there before is kept, and a new one leads to the node.
  abbrev pub IsProper : Text → Text → Tunnel → Type 0
  IsProper node proxy_node t =
      (tunnel_at old node proxy_node ≡ some t)
      ⊎ ((tunnel_at old node proxy_node ≡ none) × (t.address ≡ proxy_node))

  -- From the first map to the second, proper tunnels were added for exactly these pairs of nodes.
  pub record Fills (m m' : TunnelMaps) (pairs : Text → Text → Type 0) : Type 0 where
    pub origin :
        (n p : Text) (t : Tunnel)
        → tunnel_at m' n p ≡ some t
        → (tunnel_at m n p ≡ some t) ⊎ (pairs n p × IsProper n p t)
    pub kept :
        (n p : Text)
        → ((t : Tunnel) × (tunnel_at m n p ≡ some t)) ⊎ pairs n p
        → (t : Tunnel) × (tunnel_at m' n p ≡ some t)

  abbrev pub Only : Text → Text → Text → Text → Type 0
  Only node proxy_node n p = (n ≡ node) × (p ≡ proxy_node)

  put_tunnel-Fills :
      (node proxy_node : Text) (t : Tunnel) (m : TunnelMaps)
      → IsProper node proxy_node t
      → Fills m
          (put_tunnel node proxy_node t (with_node allocate_id base old node m))
          (Only node proxy_node)
  put_tunnel-Fills node proxy_node t m proper = record {
    origin = λ n p u e. elim (text_dec node n) [
      | no d ↦ inl (ground (arith, after n p))
      | yes s ↦ elim (text_dec proxy_node p) [
        | no d ↦ inl (ground (arith, after n p))
        | yes r ↦
            let is : t ≡ u = ground (arith, after n p) in
            inr (
              (sym s, sym r),
              subst (λ n. IsProper n p u) s
                  (subst (λ p. IsProper node p u) r (subst (IsProper node proxy_node) is proper)),
            )
      ]
    ];
    kept = λ n p h. elim (text_dec node n) [
      | yes s ↦ elim (text_dec proxy_node p) [
        | yes r ↦ (t, ground (arith, after n p))
        | no d ↦ elim h [
          | inl (u, e) ↦ (u, ground (arith, after n p))
          | inr (a, b) ↦ absurd (d (sym b))
        ]
      ]
      | no d ↦ elim h [
        | inl (u, e) ↦ (u, ground (arith, after n p))
        | inr (a, b) ↦ absurd (d (sym a))
      ]
    ];
  }
    where
      after :
          (n p : Text)
          → tunnel_at (put_tunnel node proxy_node t (with_node allocate_id base old node m)) n p
            ≡ ite
                (text_dec node n)
                (ite (text_dec proxy_node p) (some t) (tunnel_at m n p))
                (tunnel_at m n p)
      after n p = ground (
        arith,
        tunnel_at-put_tunnel node proxy_node n p t (with_node allocate_id base old node m),
        tunnel_at-with_node node n p m,
      )

  pub Fills-trans :
      (m1 m2 m3 : TunnelMaps) (P Q R : Text → Text → Type 0)
      → ((n p : Text) → R n p → P n p ⊎ Q n p)
      → ((n p : Text) → P n p ⊎ Q n p → R n p)
      → Fills m1 m2 P
      → Fills m2 m3 Q
      → Fills m1 m3 R
  Fills-trans m1 m2 m3 P Q R split join a b = record {
    origin = λ n p t e. elim (b.origin n p t e) [
      | inr (q, proper) ↦ inr (join n p (inr q), proper)
      | inl e' ↦ elim (a.origin n p t e') [
        | inl e'' ↦ inl e''
        | inr (q, proper) ↦ inr (join n p (inl q), proper)
      ]
    ];
    kept = λ n p h. elim h [
      | inl before ↦ b.kept n p (inl (a.kept n p (inl before)))
      | inr r ↦ elim (split n p r) [
        | inl q ↦ b.kept n p (inl (a.kept n p (inr q)))
        | inr q ↦ b.kept n p (inr q)
      ]
    ];
  }

  pub Fills-refl :
      (m : TunnelMaps) (P : Text → Text → Type 0) → ((n p : Text) → ¬ P n p) → Fills m m P
  Fills-refl m P never = record {
    origin = λ n p t e. inl e;
    kept = λ n p h. elim h [ inl before ↦ before | inr r ↦ absurd (never n p r) ];
  }

  pub add_tunnel-Fills :
      (node proxy_node : Text) (s s' : S) (m m' : TunnelMaps)
      → add_tunnel allocate_id base old node proxy_node s m ≡ (s', ok m')
      → Fills m m' (Only node proxy_node)
  unfolding add_tunnel
  add_tunnel-Fills node proxy_node s s' m m' e =
      elim (Option-cases (tunnel_at old node proxy_node)) [
        | inr (t, there) ↦
            let is : put_tunnel node proxy_node t (with_node allocate_id base old node m) ≡ m' =
              ground arith in
            subst (λ x. Fills m x (Only node proxy_node)) is
              (put_tunnel-Fills node proxy_node t m (inl there))
        | inl absent ↦ elim (Result-cases (allocate_id s).1) [
          | inr (x, bad) ↦ absurd (ground arith)
          | inl (id, good) ↦
              let t : Tunnel = record base { address = proxy_node; tunnel_id = id } in
              let is : put_tunnel node proxy_node t (with_node allocate_id base old node m) ≡ m' =
                ground arith in
              subst (λ x. Fills m x (Only node proxy_node)) is
                (put_tunnel-Fills node proxy_node t m (inr (absent, refl)))
        ]
      ]
