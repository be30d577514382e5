-- ===== src/Proxies/Pods.antt =====
-- The tunnels of a pod of a proxy: `addProxyTunnels` and `addPodTunnels` of
-- controllers/pod_controller.go, whose loops are the same.
use resource_model.Base.{
  ℕ, ◌≡◌, ◌≢◌, refl, sym, subst, ◌∙◌, ◌⊎◌, inl, inr, [], ◌∷◌, Option, none, some, Text, text_dec,
  Result, ok, err, arith, Option-cases, Result-cases,
}
use resource_model.GoMap.{GoMap, lookup, insert, IsMap, lookup-insert_self, lookup-insert_ne}
use resource_model.Proxies.{Tunnel, TunnelMaps}

-- The allocation of an ID with the state of the world `S`, the tunnel of the node configuration,
-- and the node on which the pod runs.
module _ {S E : Type 0} (allocate_id : S → S × Result E ℕ) (base : Tunnel) (host : Text) where
  -- The tunnel with the ID, alone in its map.
  abbrev pub only_tunnel : ℕ → GoMap Text Tunnel
  only_tunnel id = (host, record base { address = host; tunnel_id = id }) ∷ []

  -- The loop over the tunnel maps of the proxy: the maps that go into the patch.
  unfoldable pub pod_tunnels : TunnelMaps → S → TunnelMaps → S × Result E TunnelMaps
  pod_tunnels [] s patch = (s, ok patch)
  pod_tunnels ((endpoint, tunnels) ∷ maps) s patch = elim (lookup text_dec host tunnels) [
    | some tunnel ↦ pod_tunnels maps s patch
    | none ↦
        let (s', allocated) = allocate_id s in
        elim allocated [
          | err e ↦ (s', err e)
          | ok id ↦ pod_tunnels maps s' (insert text_dec endpoint (only_tunnel id) patch)
        ]
  ]

  -- What the loop does to the entry of an endpoint: it has a map without a tunnel to the node, and
  -- the entry is one tunnel to the node; or it has no such map, and the entry is as before.
  abbrev pub IsAdded : Option (GoMap Text Tunnel) → Option (GoMap Text Tunnel) → Type 0
  IsAdded found entry =
      (tunnels : GoMap Text Tunnel) × (tunnel : Tunnel) × (found ≡ some tunnels)
      × (lookup text_dec host tunnels ≡ none)
      × (entry ≡ some ((host, tunnel) ∷ []))
      × (tunnel.address ≡ host)

  abbrev pub IsLeft :
      Option (GoMap Text Tunnel) → Option (GoMap Text Tunnel) → Option (GoMap Text Tunnel) → Type 0
  IsLeft found before entry =
      ((tunnels : GoMap Text Tunnel) → found ≡ some tunnels → lookup text_dec host tunnels ≢ none)
      × (entry ≡ before)

  abbrev Extends : TunnelMaps → TunnelMaps → TunnelMaps → Text → Type 0
  Extends maps before patch endpoint =
      IsAdded (lookup text_dec endpoint maps) (lookup text_dec endpoint patch)
      ⊎ IsLeft (lookup text_dec endpoint maps) (lookup text_dec endpoint before)
          (lookup text_dec endpoint patch)

  -- The entry of an endpoint that has no map is left.
  left_alone :
      (maps before patch : TunnelMaps) (endpoint : Text)
      → lookup text_dec endpoint maps ≡ none
      → Extends maps before patch endpoint
      → lookup text_dec endpoint patch ≡ lookup text_dec endpoint before
  left_alone maps before patch endpoint e (inr (_, same)) = same
  left_alone maps before patch endpoint e (inl (tunnels, _, found, _, _, _)) = absurd (ground arith)

  module _ (p : Text) (tunnels : GoMap Text Tunnel) (maps before more patch : TunnelMaps)
      (endpoint : Text) where
    Extends-other :
        p ≢ endpoint
        → lookup text_dec endpoint more ≡ lookup text_dec endpoint before
        → Extends maps more patch endpoint
        → Extends ((p, tunnels) ∷ maps) before patch endpoint
    unfolding lookup
    Extends-other d same later =
        let found = lookup text_dec endpoint ((p, tunnels) ∷ maps) in
        let skip : found ≡ lookup text_dec endpoint maps = ground arith in
        elim later [
          | inl (ts, t, f, n, e, a) ↦ inl (ts, t, skip ∙ f, n, e, a)
          | inr (none_new, e) ↦ inr (λ ts f. none_new ts (sym skip ∙ f), e ∙ same)
        ]

  Extends-there :
      (p : Text) (tunnels : GoMap Text Tunnel) (tunnel : Tunnel) (maps before patch : TunnelMaps)
      (endpoint : Text)
      → lookup text_dec p maps ≡ none
      → lookup text_dec host tunnels ≡ some tunnel
      → Extends maps before patch endpoint
      → Extends ((p, tunnels) ∷ maps) before patch endpoint
  unfolding lookup
  Extends-there p tunnels tunnel maps before patch endpoint fresh there later =
      elim (text_dec p endpoint) [
        | no d ↦ Extends-other p tunnels maps before before patch endpoint d refl later
        | yes same ↦
            let gone : lookup text_dec endpoint maps ≡ none = ground arith in
            inr (λ ts f. ground arith, left_alone maps before patch endpoint gone later)
      ]

  Extends-new :
      (p : Text) (tunnels : GoMap Text Tunnel) (id : ℕ) (maps before patch : TunnelMaps)
      (endpoint : Text)
      → lookup text_dec p maps ≡ none
      → lookup text_dec host tunnels ≡ none
      → Extends maps (insert text_dec p (only_tunnel id) before) patch endpoint
      → Extends ((p, tunnels) ∷ maps) before patch endpoint
  unfolding lookup
  Extends-new p tunnels id maps before patch endpoint fresh new later =
      let more : TunnelMaps = insert text_dec p (only_tunnel id) before in
      elim (text_dec p endpoint) [
        | no d ↦
            Extends-other p tunnels maps before more patch endpoint d
              (lookup-insert_ne text_dec p endpoint (only_tunnel id) before d) later
        | yes same ↦
            let gone : lookup text_dec endpoint maps ≡ none = ground arith in
            let stored : lookup text_dec endpoint more ≡ some (only_tunnel id) =
              subst (λ k. lookup text_dec k more ≡ some (only_tunnel id)) same
                (lookup-insert_self text_dec p (only_tunnel id) before) in
            inl (
              tunnels,
              record base { address = host; tunnel_id = id },
              ground arith,
              new,
              left_alone maps more patch endpoint gone later ∙ stored,
              refl,
            )
      ]

  pod_tunnels-Extends :
      (maps : TunnelMaps) (s s' : S) (before patch : TunnelMaps) (endpoint : Text)
      → IsMap text_dec maps
      → pod_tunnels maps s before ≡ (s', ok patch)
      → Extends maps before patch endpoint
  unfolding pod_tunnels lookup
  pod_tunnels-Extends [] s s' before patch endpoint m e = inr (λ t x. ground arith, ground arith)
  pod_tunnels-Extends ((p, tunnels) ∷ maps) s s' before patch endpoint (fresh, m) e =
      elim (Option-cases (lookup text_dec host tunnels)) [
        | inr (tunnel, there) ↦
            let rest : pod_tunnels maps s before ≡ (s', ok patch) = ground arith in
            Extends-there p tunnels tunnel maps before patch endpoint fresh there
              (pod_tunnels-Extends maps s s' before patch endpoint m rest)
        | inl new ↦ elim (Result-cases (allocate_id s).1) [
          | inr (x, bad) ↦ absurd (ground arith)
          | inl (id, good) ↦
              let more : TunnelMaps = insert text_dec p (only_tunnel id) before in
              let rest : pod_tunnels maps (allocate_id s).0 more ≡ (s', ok patch) = ground arith in
              Extends-new p tunnels id maps before patch endpoint fresh new
                (pod_tunnels-Extends maps (allocate_id s).0 s' more patch endpoint m rest)
        ]
      ]

  -- Where `addProxyTunnels` or `addPodTunnels` gets all the tunnel IDs that it asks for, the map
  -- that it puts into its patch has an entry for exactly the client nodes whose tunnel map lacks a
  -- tunnel to the node of the pod, and the entry is one tunnel, to the address of this node.
  pub pod_tunnels_lem :
      (maps : TunnelMaps) (s s' : S) (patch : TunnelMaps) (endpoint : Text)
      → IsMap text_dec maps
      → pod_tunnels maps s [] ≡ (s', ok patch)
      → IsAdded (lookup text_dec endpoint maps) (lookup text_dec endpoint patch)
        ⊎ IsLeft (lookup text_dec endpoint maps) none (lookup text_dec endpoint patch)
  unfolding lookup
  pod_tunnels_lem maps s s' patch endpoint m e = pod_tunnels-Extends maps s s' [] patch endpoint m e
