-- ===== src/Remotes/Tunnels.antt =====
-- What the endpoint controller does to the tunnels of a load balancer.
use resource_model.Base.{
  ℕ, ◌≡◌, ◌≢◌, refl, sym, ap, subst, ◌∙◌, ◌⊎◌, inl, inr, true, false, List, [], ◌∷◌, Option, none,
  some, arith, In, Text, text_dec, Result, ok, Result-cases, Option-cases,
}
use resource_model.GoMap.{GoMap, lookup, insert, lookup-insert, lookup-delete}
use resource_model.Proxies.{Tunnel, TunnelMaps, tunnel_at, endpoint_tunnels}
use resource_model.Proxies.Filling.{IsProper}
use resource_model.Remotes.{RemoteEndpoint, node_of, is_last_on_node, without_rep}

module _ {S E : Type 0} (allocate_id : S → S × Result E ℕ) (base : Tunnel) (old : TunnelMaps)
    (node : Text) where
  -- The tunnel to a node of the proxy in the new entry: there is a proper one if the loop came to the
  -- node, and else the entry is as it was.
  abbrev pub IsEntered : List Text → Text → Option Tunnel → Option Tunnel → Type 0
  IsEntered proxy_nodes p before after =
      (In p proxy_nodes
        × ((t : Tunnel) × (after ≡ some t) × IsProper allocate_id base old node p t))
      ⊎ ((¬ In p proxy_nodes) × (after ≡ before))

  IsEntered-later :
      (q : Text) (qs : List Text) (before after : GoMap Text Tunnel) (p : Text) (t : Tunnel)
      → IsProper allocate_id base old node q t
      → IsEntered qs p (lookup text_dec p (insert text_dec q t before)) (lookup text_dec p after)
      → IsEntered (q ∷ qs) p (lookup text_dec p before) (lookup text_dec p after)
  IsEntered-later q qs before after p t proper (inl (i, rest)) = inl (inr i, rest)
  IsEntered-later q qs before after p t proper (inr (out, same)) = elim (text_dec q p) [
    | yes is ↦ inl (
      inl (sym is),
      (
        t,
        same ∙ ground (arith, lookup-insert text_dec q p t before),
        subst (λ x. IsProper allocate_id base old node x t) is proper,
      ),
    )
    | no differ ↦ inr (
      (λ i. elim i [ inl is ↦ differ (sym is) | inr j ↦ out j ]),
      same ∙ ground (arith, lookup-insert text_dec q p t before),
    )
  ]

  pub endpoint_tunnels-IsEntered :
      (proxy_nodes : List Text) (s s' : S) (before after : GoMap Text Tunnel) (p : Text)
      → endpoint_tunnels allocate_id base old node proxy_nodes s before ≡ (s', ok after)
      → IsEntered proxy_nodes p (lookup text_dec p before) (lookup text_dec p after)
  unfolding endpoint_tunnels
  endpoint_tunnels-IsEntered [] s s' before after p e = inr (λ i. i, ground arith)
  endpoint_tunnels-IsEntered (q ∷ qs) s s' before after p e =
      elim (Option-cases (tunnel_at old node q)) [
        | inr (t, there) ↦
            IsEntered-later q qs before after p t (inl there) (
              endpoint_tunnels-IsEntered qs s s' (insert text_dec q t before) after p
                (ground arith))
        | inl absent ↦ elim (Result-cases (allocate_id s).1) [
          | inr (x, bad) ↦ absurd (ground arith)
          | inl (id, good) ↦
              let t : Tunnel = record base { address = q; tunnel_id = id } in
              IsEntered-later q qs before after p t (inr (absent, refl)) (
                endpoint_tunnels-IsEntered qs (allocate_id s).0 s' (insert text_dec q t before)
                  after p (ground arith))
        ]
      ]

-- Every active endpoint on the node of this one is this one.
abbrev pub IsAlone : RemoteEndpoint → List RemoteEndpoint → Type 0
IsAlone rep reps =
    (other : RemoteEndpoint) → In other reps → node_of other ≡ node_of rep → other.name ≡ rep.name

-- Another one is on the node.
abbrev pub IsAccompanied : RemoteEndpoint → List RemoteEndpoint → Type 0
IsAccompanied rep reps =
    (other : RemoteEndpoint) × In other reps
    × (other.name ≢ rep.name)
    × (node_of other ≡ node_of rep)

is_last_on_node-IsAlone :
    (rep : RemoteEndpoint) (reps : List RemoteEndpoint)
    → ((is_last_on_node rep reps ≡ true) × IsAlone rep reps)
      ⊎ ((is_last_on_node rep reps ≡ false) × IsAccompanied rep reps)
unfolding is_last_on_node
is_last_on_node-IsAlone rep [] = inl (refl, λ other i. absurd i)
is_last_on_node-IsAlone rep (x ∷ reps) = elim (text_dec x.name rep.name) [
  | yes same ↦ elim (is_last_on_node-IsAlone rep reps) [
    | inl (e, alone) ↦ inl (
      ground arith,
      λ other i n. elim i [
        | inl is ↦ ap (λ (r : RemoteEndpoint). r.name) is ∙ same
        | inr j ↦ alone other j n
      ],
    )
    | inr (e, (other, i, d, n)) ↦ inr (ground arith, (other, inr i, d, n))
  ]
  | no differ ↦ elim (text_dec (node_of x) (node_of rep)) [
    | yes here ↦ inr (ground arith, (x, inl refl, differ, here))
    | no away ↦ elim (is_last_on_node-IsAlone rep reps) [
      | inl (e, alone) ↦ inl (
        ground arith,
        λ other i n. elim i [
          | inl is ↦ absurd (away (sym (ap (λ (r : RemoteEndpoint). node_of r) is) ∙ n))
          | inr j ↦ alone other j n
        ],
      )
      | inr (e, (other, i, d, n)) ↦ inr (ground arith, (other, inr i, d, n))
    ]
  ]
]

-- What `removeRepInfo` does to the tunnels of a load balancer: if no other active endpoint is on the
-- node of this one, the entry of the node goes and every other stays; else all stay.
pub without_rep_lem :
    (rep : RemoteEndpoint) (reps : List RemoteEndpoint) (maps : TunnelMaps)
    → (IsAlone rep reps
        × (lookup text_dec (node_of rep) (without_rep rep reps maps) ≡ none)
        × ((n : Text)
            → n ≢ node_of rep
            → lookup text_dec n (without_rep rep reps maps) ≡ lookup text_dec n maps))
      ⊎ (IsAccompanied rep reps × (without_rep rep reps maps ≡ maps))
unfolding without_rep
without_rep_lem rep reps maps = elim (is_last_on_node-IsAlone rep reps) [
  | inl (e, alone) ↦ inl (
    alone,
    ground (arith, lookup-delete text_dec (node_of rep) (node_of rep) maps),
    λ n d. ground (arith, lookup-delete text_dec (node_of rep) n maps),
  )
  | inr (e, other) ↦ inr (other, ground arith)
]
