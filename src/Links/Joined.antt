-- ===== src/Links/Joined.antt =====
-- `ActiveProxyEndpoints` and `GetChildRoutes` as joins of routes and slices.
use resource_model.Base.{
  ◌≡◌, ◌≢◌, refl, sym, subst, ◌∙◌, ◌↔◌, ◌⊎◌, inl, inr, true, false, List, [], ◌∷◌, Option, none,
  some, arith, In, In-append, Text, text_dec, Option-cases, Bool-cases,
}
use resource_model.Links.{
  NamespacedName, GwRoute, GwEndpointSlice, RemoteEndpoint, parents, backends, refers_to,
  is_child_of, child_routes_of, get_child_routes, append_each, to_endpoints, cluster_endpoints,
  route_endpoints, active_proxy_endpoints,
}
use resource_model.Links.Appending.{append_each-none, append_each-from, append_each-member}

pub refers_to-In : (name : Text) (refs : List Text) → (refers_to name refs ≡ true) ↔ In name refs
unfolding refers_to
refers_to-In name [] = ground arith
refers_to-In name (ref ∷ refs) = elim (text_dec ref name) [
  | yes same ↦ (λ e. inl (sym same), λ i. ground arith)
  | no d ↦
      let rest = refers_to-In name refs in
      (
        λ e. inr (rest.0 (ground arith)),
        λ i. elim i [ inl same ↦ absurd (d (sym same)) | inr j ↦ let e = rest.1 j in ground arith ],
      )
]

module _ (gateway : NamespacedName) (routes : List GwRoute) (slices : List GwEndpointSlice) where
  -- Some active route has the gateway among its parents and the slice's cluster among its back
  -- ends, and the slice is active.
  abbrev pub IsJoined : GwEndpointSlice → Type 0
  IsJoined slice =
      (route : GwRoute) × In route routes
      × (route.deleting ≡ false)
      × In gateway.name (parents route)
      × In slice slices
      × (slice.deleting ≡ false)
      × In slice.parent_uid (backends route)

  cluster_endpoints-cases :
      (ref : Text) (slice : GwEndpointSlice)
      → ((slice.parent_uid ≡ ref)
          × (slice.deleting ≡ false)
          × (cluster_endpoints ref slice ≡ to_endpoints slice))
        ⊎ ((cluster_endpoints ref slice ≡ some [])
            × ¬ ((slice.parent_uid ≡ ref) × (slice.deleting ≡ false)))
  unfolding cluster_endpoints to_endpoints
  cluster_endpoints-cases ref slice = elim (text_dec slice.parent_uid ref) [
    | no d ↦ inr (ground arith, λ h. d h.0)
    | yes same ↦ elim (Bool-cases slice.deleting) [
      | inl gone ↦ inr (ground arith, λ h. ground arith)
      | inr here ↦ inl (same, here, ground arith)
    ]
  ]

  -- The loops of `ActiveProxyEndpoints` within a route that counts.
  abbrev within : GwRoute → Option (List RemoteEndpoint)
  within route = append_each (λ ref. append_each (cluster_endpoints ref) slices) (backends route)

  route_endpoints-cases :
      (route : GwRoute)
      → ((route.deleting ≡ false)
          × In gateway.name (parents route)
          × (route_endpoints gateway slices route ≡ within route))
        ⊎ ((route_endpoints gateway slices route ≡ some [])
            × ¬ ((route.deleting ≡ false) × In gateway.name (parents route)))
  unfolding route_endpoints is_child_of
  route_endpoints-cases route = elim (Bool-cases route.deleting) [
    | inl gone ↦ inr (ground arith, λ h. ground arith)
    | inr here ↦ elim (Bool-cases (refers_to gateway.name (parents route))) [
      | inl child ↦ inl (here, (refers_to-In gateway.name (parents route)).0 child, ground arith)
      | inr other ↦ inr (
        ground arith,
        λ h. let e = (refers_to-In gateway.name (parents route)).1 h.1 in ground arith,
      )
    ]
  ]

  -- What `ActiveProxyEndpoints` gives: its endpoints are those of the slices that are joined to the
  -- gateway, and it panics where one of these has none that can be read.
  abbrev pub IsJoin : Option (List RemoteEndpoint) → Type 0
  IsJoin none = (slice : GwEndpointSlice) × IsJoined slice × (to_endpoints slice ≡ none)
  IsJoin (some eps) =
      ((slice : GwEndpointSlice) → IsJoined slice → to_endpoints slice ≢ none)
      × ((ep : RemoteEndpoint)
          → In ep eps ↔ (
              (slice : GwEndpointSlice) × (part : List RemoteEndpoint) × IsJoined slice
              × (to_endpoints slice ≡ some part)
              × In ep part))

  some_inj : {xs ys : List RemoteEndpoint} → some xs ≡ some ys → xs ≡ ys
  some_inj e = ground arith

  joined-member :
      (eps : List RemoteEndpoint) (slice : GwEndpointSlice)
      → active_proxy_endpoints gateway routes slices ≡ some eps
      → IsJoined slice
      → (part : List RemoteEndpoint) × (to_endpoints slice ≡ some part)
        × ((ep : RemoteEndpoint) → In ep part → In ep eps)
  unfolding active_proxy_endpoints
  joined-member eps slice e (route, i, here, child, j, active, k) =
      let (es, f, up) = append_each-member (route_endpoints gateway slices) routes eps route e i in
      elim (route_endpoints-cases route) [
        | inr (_, not_so) ↦ absurd (not_so (here, child))
        | inl (_, _, is) ↦
            let (cs, g, up') =
              append_each-member (λ ref. append_each (cluster_endpoints ref) slices)
                (backends route) es slice.parent_uid (sym is ∙ f) k in
            let (part, h, up'') =
              append_each-member (cluster_endpoints slice.parent_uid) slices cs slice g j in
            elim (cluster_endpoints-cases slice.parent_uid slice) [
              | inr (_, not_so) ↦ absurd (not_so (refl, active))
              | inl (_, _, same) ↦ (part, sym same ∙ h, λ ep l. up ep (up' ep (up'' ep l)))
            ]
      ]

  within-from :
      (route : GwRoute) (es : List RemoteEndpoint) (ep : RemoteEndpoint)
      → within route ≡ some es
      → In ep es
      → (slice : GwEndpointSlice) × (part : List RemoteEndpoint) × In slice slices
        × (slice.deleting ≡ false)
        × In slice.parent_uid (backends route)
        × (to_endpoints slice ≡ some part)
        × In ep part
  within-from route es ep e i =
      let (ref, cs, l, g, m) =
        append_each-from (λ ref. append_each (cluster_endpoints ref) slices) (backends route) es ep
          e i in
      let (slice, part, n, h, o) = append_each-from (cluster_endpoints ref) slices cs ep g m in
      elim (cluster_endpoints-cases ref slice) [
        | inr (is, _) ↦ absurd (subst (In ep) (some_inj (sym h ∙ is)) o)
        | inl (uid, active, same) ↦ (
          slice,
          part,
          n,
          active,
          subst (λ r. In r (backends route)) (sym uid) l,
          sym same ∙ h,
          o,
        )
      ]

  IsJoined-from :
      (eps : List RemoteEndpoint) (ep : RemoteEndpoint)
      → active_proxy_endpoints gateway routes slices ≡ some eps
      → In ep eps
      → (slice : GwEndpointSlice) × (part : List RemoteEndpoint) × IsJoined slice
        × (to_endpoints slice ≡ some part)
        × In ep part
  unfolding active_proxy_endpoints
  IsJoined-from eps ep e i =
      let (route, es, j, f, k) =
        append_each-from (route_endpoints gateway slices) routes eps ep e i in
      elim (route_endpoints-cases route) [
        | inr (is, _) ↦ absurd (subst (In ep) (some_inj (sym f ∙ is)) k)
        | inl (here, child, is) ↦
            let (slice, part, n, active, uid, h, o) = within-from route es ep (sym is ∙ f) k in
            (slice, part, (route, j, here, child, n, active, uid), h, o)
      ]

  IsJoined-none :
      active_proxy_endpoints gateway routes slices ≡ none
      → (slice : GwEndpointSlice) × IsJoined slice × (to_endpoints slice ≡ none)
  unfolding active_proxy_endpoints
  IsJoined-none e =
      let (route, i, f) = append_each-none (route_endpoints gateway slices) routes e in
      elim (route_endpoints-cases route) [
        | inr (is, _) ↦ absurd (ground arith)
        | inl (here, child, is) ↦
            let (ref, j, g) =
              append_each-none (λ ref. append_each (cluster_endpoints ref) slices) (backends route)
                (sym is ∙ f) in
            let (slice, k, h) = append_each-none (cluster_endpoints ref) slices g in
            elim (cluster_endpoints-cases ref slice) [
              | inr (is', _) ↦ absurd (ground arith)
              | inl (uid, active, same) ↦ (
                slice,
                (route, i, here, child, k, active, subst (λ r. In r (backends route)) (sym uid) j),
                sym same ∙ h,
              )
            ]
      ]

  -- `ActiveProxyEndpoints` of a gateway: an endpoint is in the result exactly if `ToEndpoints` gives
  -- it for an active slice whose cluster is a back end of an active route that has the gateway among
  -- its parents. It panics exactly if `ToEndpoints` panics for such a slice.
  pub active_proxy_endpoints_lem : IsJoin (active_proxy_endpoints gateway routes slices)
  active_proxy_endpoints_lem = elim (Option-cases (active_proxy_endpoints gateway routes slices)) [
    | inl n ↦ subst IsJoin (sym n) (IsJoined-none n)
    | inr (eps, e) ↦ subst IsJoin (sym e) (
        (
          λ slice j n. let (part, f, _) = joined-member eps slice e j in ground arith,
          λ ep. (
            λ i. IsJoined-from eps ep e i,
            λ (slice, part, j, f, i).
                let (part', f', up) = joined-member eps slice e j in
                up ep (subst (In ep) (some_inj (sym f ∙ f')) i),
          ),
        ))
  ]

child_routes_of-In :
    (name : Text) (route r : GwRoute) (refs : List Text)
    → In r (child_routes_of name route refs)
      ↔ ((r ≡ route) × (route.deleting ≡ false) × In name refs)
unfolding child_routes_of
child_routes_of-In name route r [] = ground arith
child_routes_of-In name route r (ref ∷ refs) =
    ground (arith, child_routes_of-In name route r refs, Bool-cases route.deleting)

-- `GetChildRoutes` lists exactly the active routes that are children of the proxy.
pub get_child_routes-In :
    (gateway : NamespacedName) (routes : List GwRoute) (route : GwRoute)
    → In route (get_child_routes gateway.name routes)
      ↔ (In route routes × (route.deleting ≡ false) × (is_child_of route gateway ≡ true))
unfolding get_child_routes is_child_of
get_child_routes-In gateway [] route = ground arith
get_child_routes-In gateway (r ∷ routes) route =
    let (there, back) =
      In-append route (child_routes_of gateway.name r (parents r))
        (get_child_routes gateway.name routes) in
    let (mine, make) = child_routes_of-In gateway.name r route (parents r) in
    let (later, keep) = get_child_routes-In gateway routes route in
    (
      λ i. elim (there i) [
        | inl j ↦
            let (same, here, child) = mine j in
            (
              inl same,
              subst (λ x. x.deleting ≡ false) (sym same) here,
              subst (λ x. refers_to gateway.name (parents x) ≡ true) (sym same)
                  ((refers_to-In gateway.name (parents r)).1 child),
            )
        | inr j ↦ let (k, here, child) = later j in (inr k, here, child)
      ],
      λ (k, here, child). back (elim k [
        | inl same ↦ inl (
            make (
              same,
              subst (λ x. x.deleting ≡ false) same here,
              (refers_to-In gateway.name (parents r)).0
                  (subst (λ x. refers_to gateway.name (parents x) ≡ true) same child),
            ))
        | inr j ↦ inr (keep (j, here, child))
      ]),
    )
