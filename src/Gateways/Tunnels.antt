-- ===== src/Gateways/Tunnels.antt =====
-- What `allocateProxyTunnels` patches into a proxy.
use resource_model.Base.{
  ◌≡◌, refl, ap, subst, ◌∙◌, ◌↔◌, inl, inr, List, [], ◌∷◌, map, Option, none, some, arith, In, Text,
  Result, ok, err, Result-cases, Option-cases,
}
use resource_model.Links.{
  GwRoute, GwEndpointSlice, RemoteEndpoint, active_proxy_endpoints, to_endpoints,
}
use resource_model.Links.Joined.{IsJoined, IsJoin, active_proxy_endpoints_lem}
use resource_model.Proxies.{Tunnel, TunnelMaps, tunnel_at, proxy_tunnels}
use resource_model.Proxies.Complete.{proxy_tunnels_lem}
use resource_model.Proxies.Filling.{IsProper}
use resource_model.Envoys.{Epic}
use resource_model.Gateways.{
  GwProxy, Client, tunnel_patch, name_of, nodes_of, client_error, client_result, read_endpoints,
  patch_proxy_tunnels, allocate_proxy_tunnels,
}

In-map :
    {A B : Type 0} (f : A → B) (xs : List A) (y : B)
    → In y (map f xs) ↔ ((x : A) × In x xs × (y ≡ f x))
In-map f [] y = (λ i. absurd i, λ (x, i, e). absurd i)
In-map f (x ∷ xs) y =
    let (into, back) = In-map f xs y in
    (
      (λ i. elim i [
        | inl is ↦ (x, inl refl, is)
        | inr j ↦ let (z, k, e) = into j in (z, inr k, e)
      ]),
      (λ (z, i, e). elim i [ inl same ↦ inl (e ∙ ap f same) | inr k ↦ inr (back (z, k, e)) ]),
    )

pub client_error-none :
    {S E : Type 0} (r : S × Option E) (s' : S) → client_error r ≡ (s', none) → r ≡ (s', none)
client_error-none (s, none) s' e = ground arith
client_error-none (s, some x) s' e = absurd (ground arith)

client_result-ok :
    {S E A : Type 0} (r : S × Result E A) (s' : S) (x : A)
    → client_result r ≡ (s', ok x)
    → r ≡ (s', ok x)
client_result-ok (s, ok y) s' x e = ground arith
client_result-ok (s, err y) s' x e = absurd (ground arith)

module _ {S E F B : Type 0} (cl : Client S E F B) where
  -- Some slice that is joined to the proxy by a route has an endpoint on the node.
  abbrev pub IsClientNode : GwProxy → List GwRoute → List GwEndpointSlice → Text → Type 0
  IsClientNode proxy routes slices node =
      (slice : GwEndpointSlice) × (part : List RemoteEndpoint) × (ep : RemoteEndpoint) × IsJoined
        (name_of proxy) routes slices slice
      × (to_endpoints slice ≡ some part)
      × In ep part
      × (node ≡ ep.node_address)

  -- The tunnels that a proxy is to have, given the lists that were read.
  abbrev pub IsTunneled :
      GwProxy → Tunnel → List GwRoute → List GwEndpointSlice → TunnelMaps → Type 0
  IsTunneled proxy base routes slices new =
      (n p : Text)
      → (((t : Tunnel) × (tunnel_at new n p ≡ some t)) ↔ (
          IsClientNode proxy routes slices n
          × In p (map (λ e. e.1.epic_node_address) proxy.proxy_interfaces)))
        × ((t : Tunnel)
            → tunnel_at new n p ≡ some t
            → IsProper cl.fresh_tunnel_id base proxy.gue_tunnel_maps n p t)

  -- The map of the new tunnels, from the endpoints that the lists give.
  tunnels-IsTunneled :
      (proxy : GwProxy) (base : Tunnel) (routes : List GwRoute) (slices : List GwEndpointSlice)
      (endpoints : List RemoteEndpoint) (s s' : S) (new : TunnelMaps)
      → active_proxy_endpoints (name_of proxy) routes slices ≡ some endpoints
      → proxy_tunnels cl.fresh_tunnel_id base proxy.gue_tunnel_maps
          (nodes_of endpoints)
          proxy.proxy_interfaces
          s
        ≡ (s', ok new)
      → IsTunneled proxy base routes slices new
  tunnels-IsTunneled proxy base routes slices endpoints s s' new found e n p =
      let (exact, proper) =
        proxy_tunnels_lem cl.fresh_tunnel_id base proxy.gue_tunnel_maps (nodes_of endpoints)
          proxy.proxy_interfaces s s' new n p e in
      let (_, joined) =
        subst (IsJoin (name_of proxy) routes slices) found
          (active_proxy_endpoints_lem (name_of proxy) routes slices) in
      let (into, back) = In-map (λ (e : RemoteEndpoint). e.node_address) endpoints n in
      (
        (
          (λ t.
              let (i, j) = exact.0 t in
              let (ep, k, at) = into i in
              let (slice, part, linked, gives, l) = (joined ep).0 k in
              ((slice, part, ep, linked, gives, l, at), j)),
          (λ ((slice, part, ep, linked, gives, l, at), j).
              exact.1 (back (ep, (joined ep).1 (slice, part, linked, gives, l), at), j)),
        ),
        proper,
      )

  -- Both lists were read, and no slice panicked.
  abbrev IsRead : GwProxy → S → List RemoteEndpoint → Type 0
  IsRead proxy s endpoints =
      (routes : List GwRoute) × (slices : List GwEndpointSlice) × ((cl.list_routes s
          proxy.envoy.namespace).1
        ≡ ok routes)
      × ((cl.list_slices (cl.list_routes s proxy.envoy.namespace).0 proxy.envoy.namespace).1
          ≡ ok slices)
      × (active_proxy_endpoints (name_of proxy) routes slices ≡ some endpoints)

  read_endpoints-IsRead :
      (proxy : GwProxy) (s : S) (endpoints : List RemoteEndpoint)
      → (read_endpoints cl proxy s).1 ≡ ok endpoints
      → IsRead proxy s endpoints
  unfolding read_endpoints
  read_endpoints-IsRead proxy s endpoints e =
      let s1 : S = (cl.list_routes s proxy.envoy.namespace).0 in
      elim (Result-cases (cl.list_routes s proxy.envoy.namespace).1) [
        | inr (x, bad) ↦ absurd (ground arith)
        | inl (routes, listed) ↦ elim (Result-cases (cl.list_slices s1 proxy.envoy.namespace).1) [
          | inr (x, bad) ↦ absurd (ground arith)
          | inl (slices, listed') ↦
              elim (Option-cases (active_proxy_endpoints (name_of proxy) routes slices)) [
                | inl bad ↦ absurd (ground arith)
                | inr (eps, found) ↦
                    let is : eps ≡ endpoints = ground arith in
                    (routes, slices, listed, listed', found ∙ ap some is)
              ]
        ]
      ]

  -- What is patched in, and by which call.
  abbrev pub IsPatched : GwProxy → S → GwProxy → S → Type 0
  IsPatched proxy s patched s' =
      (epic : Epic) × (base : Tunnel) × (routes : List GwRoute) × (slices : List GwEndpointSlice)
      × (new : TunnelMaps) × (before : S) × ((cl.get_epic s).1 ≡ ok (epic, base))
      × ((cl.list_routes (cl.get_epic s).0 proxy.envoy.namespace).1 ≡ ok routes)
      × ((cl.list_slices (cl.list_routes (cl.get_epic s).0 proxy.envoy.namespace).0
            proxy.envoy.namespace).1
          ≡ ok slices)
      × (cl.patch_tunnels before proxy (tunnel_patch proxy.gue_tunnel_maps new) ≡ (s', ok patched))
      × IsTunneled proxy base routes slices new

  -- Where `allocateProxyTunnels` reports no error, its patch went through and gave it the proxy as the
  -- server has it. The map of tunnels that it
  -- puts in has a tunnel for exactly the pairs of a node with an endpoint of a client, and of a node of
  -- the proxy: the endpoint is one of an active slice whose cluster is a back end of an active route that
  -- names the proxy as a parent, in the lists that were read. A tunnel that the proxy had for the pair is
  -- kept, and a new one has the address of the proxy's node.
  pub allocate_proxy_tunnels_lem :
      (proxy patched : GwProxy) (s s' : S)
      → allocate_proxy_tunnels cl proxy s ≡ (s', ok patched)
      → IsPatched proxy s patched s'
  unfolding allocate_proxy_tunnels patch_proxy_tunnels
  allocate_proxy_tunnels_lem proxy patched s s' e =
      let s1 : S = (cl.get_epic s).0 in
      let s2 : S = (read_endpoints cl proxy s1).0 in
      elim (Result-cases (cl.get_epic s).1) [
        | inr (x, bad) ↦ absurd (ground arith)
        | inl ((epic, base), got) ↦ elim (Result-cases (read_endpoints cl proxy s1).1) [
          | inr (x, bad) ↦ absurd (ground arith)
          | inl (endpoints, found) ↦
              let (routes, slices, listed, listed', joined) =
                read_endpoints-IsRead proxy s1 endpoints found in
              let run =
                proxy_tunnels cl.fresh_tunnel_id base proxy.gue_tunnel_maps (nodes_of endpoints)
                  proxy.proxy_interfaces s2 in
              elim (Result-cases run.1) [
                | inr (x, bad) ↦ absurd (ground arith)
                | inl (new, tunnels) ↦
                    let went : client_result
                          (cl.patch_tunnels run.0 proxy (tunnel_patch proxy.gue_tunnel_maps new))
                        ≡ (s', ok patched) =
                      ground arith in
                    (
                      epic,
                      base,
                      routes,
                      slices,
                      new,
                      run.0,
                      got,
                      listed,
                      listed',
                      client_result-ok _ s' patched went,
                      tunnels-IsTunneled proxy base routes slices endpoints s2 run.0 new joined
                          (ground arith),
                    )
              ]
        ]
      ]
