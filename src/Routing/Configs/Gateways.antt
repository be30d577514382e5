-- ===== src/Routing/Configs/Gateways.antt =====
-- The Envoy configuration of a gateway proxy.
use resource_model.Base.{
  ◌≡◌, refl, sym, ap, subst, ◌∙◌, ◌↔◌, ◌⊎◌, inl, inr, Bool, true, List, [], ◌∷◌, ◌++◌, some, arith,
  In, Text, text, Result, ok, Result-cases, Option-cases,
}
use resource_model.Routing.Rules.{LongSort}
use resource_model.GoMap.{
  GoMap, lookup, insert, IsMap, insert-IsMap, lookup-insert_self, lookup-insert_ne,
}
use resource_model.Routing.Listeners.{
  Listener, listener_dec, compatible_listeners, collapse, filter_referent_routes,
}
use resource_model.Routing.Listeners.Collapsed.{collapse_lem}
use resource_model.Routing.Configs.{
  GwProxy, Route, Templates, Resource, Error, EnvoyConfig, nonempty, route_parents, envoy_config,
}
use resource_model.Routing.Configs.Printing.{each_pair}
use resource_model.Routing.Configs.Translation.{
  Ranges, preprocess_routes, listener_routes, execute_listener_template, make_gw_listeners,
  gw_proxy_to_envoy_config, routes_to_clusters, gateway_cluster_params,
}
use resource_model.Routing.Configs.Clusters.{IsReferenced, IsOutput, routes_to_clusters_lem}
use resource_model.Routing.Configs.Balancers.{each_pair-In, each_pair-runs}

module _ {R : Type 0} where
  -- An entry of the map under a key that it has.
  lookup-In :
      (l : Listener) (m : GoMap Listener (List R)) (rs : List R)
      → lookup listener_dec l m ≡ some rs
      → In (l, rs) m
  unfolding lookup
  lookup-In l [] rs e = absurd (ground arith)
  lookup-In l ((k, r) ∷ m) rs e = elim (listener_dec k l) [
    | yes same ↦ inl (ground arith)
    | no differ ↦ inr (lookup-In l m rs (ground arith))
  ]

  In-lookup :
      (l : Listener) (m : GoMap Listener (List R)) (rs : List R)
      → IsMap listener_dec m
      → In (l, rs) m
      → lookup listener_dec l m ≡ some rs
  unfolding lookup
  In-lookup l [] rs map i = absurd i
  In-lookup l ((k, r) ∷ m) rs map (inl is) = ground arith
  In-lookup l ((k, r) ∷ m) rs map (inr i) = ground (arith, In-lookup l m rs map.1 i, map.0)

-- `range` visits each entry of a map once, and each name.
pub record IsRange {R : Type 0} (rg : Ranges R) : Type 0 where
  pub names : (names : List Text) (x : Text) → In x (rg.names names) ↔ In x names
  pub entries :
      (m : GoMap Listener (List R)) (e : Listener × List R) → In e (rg.listeners m) ↔ In e m
  pub map :
      (m : GoMap Listener (List R)) → IsMap listener_dec m → IsMap listener_dec (rg.listeners m)

module _ {T E F B : Type 0} (tp : Templates T (Route F B) E) (rg : Ranges (Route F B))
    (ref_name : B → Text) (filter_dec : Discrete F) (sort_long : LongSort F B)
    (is_ip is_wildcard_subdomain is_subdomain : Text → Bool) where
  -- The routes of a listener of the gateway, before listeners are collapsed.
  abbrev pub own_routes : List (Route F B) → Listener → Result (Error E) (List (Route F B))
  own_routes routes l =
      preprocess_routes tp rg ref_name filter_dec sort_long is_ip is_wildcard_subdomain is_subdomain
        l (filter_referent_routes route_parents l routes)

  abbrev gathered :
      List (Route F B)
      → List Listener
      → GoMap Listener (List (Route F B))
      → Result (Error E) (GoMap Listener (List (Route F B)))
  gathered =
      listener_routes tp rg ref_name filter_dec sort_long is_ip is_wildcard_subdomain is_subdomain

  listener_routes-IsMap :
      (routes : List (Route F B)) (ls : List Listener) (raw out : GoMap Listener (List (Route F B)))
      → gathered routes ls raw ≡ ok out
      → IsMap listener_dec raw
      → IsMap listener_dec out
        × ((l : Listener)
            → In l ls
            → (rs : List (Route F B)) × (own_routes routes l ≡ ok rs)
              × (lookup listener_dec l out ≡ some rs))
        × ((l : Listener) (rs : List (Route F B))
            → own_routes routes l ≡ ok rs
            → lookup listener_dec l raw ≡ some rs
            → lookup listener_dec l out ≡ some rs)
  unfolding listener_routes
  listener_routes-IsMap routes [] raw out e map =
      let is : raw ≡ out = ground arith in
      (subst (IsMap listener_dec) is map, λ l i. absurd i, λ l rs own f. ground arith)
  listener_routes-IsMap routes (x ∷ ls) raw out e map = elim (Result-cases (own_routes routes x)) [
    | inr (y, bad) ↦ absurd (ground arith)
    | inl (rs, own) ↦
        let (map', has, keeps) =
          listener_routes-IsMap routes ls (insert listener_dec x rs raw) out (ground arith)
            (insert-IsMap listener_dec x rs raw map) in
        (
          map',
          λ l i. elim i [
            | inl same ↦ (
              rs,
              ap (own_routes routes) same ∙ own,
              ap (λ l. lookup listener_dec l out) same
                  ∙ keeps x rs own (lookup-insert_self listener_dec x rs raw),
            )
            | inr j ↦ has l j
          ],
          λ l ls' own' f. keeps l ls' own' (elim (listener_dec x l) [
            | yes same ↦
                let both : own_routes routes x ≡ ok ls' = ap (own_routes routes) same ∙ own' in
                let is : rs ≡ ls' = ground arith in
                ap (λ l. lookup listener_dec l (insert listener_dec x rs raw)) (sym same)
                ∙ lookup-insert_self listener_dec x rs raw
                ∙ ap some is
            | no differ ↦ lookup-insert_ne listener_dec x l rs raw differ ∙ f
          ]),
        )
  ]

  -- What `makeGWListeners` owes to a listener of the gateway and a template: a resource that the template
  -- prints for the listener or a compatible one, with all routes of the listener among its routes.
  abbrev pub IsListened : GwProxy → List (Route F B) → List Resource → Listener → Resource → Type 0
  IsListened proxy routes rs l t =
      (own : List (Route F B)) × (k : Listener) × (held : List (Route F B)) × (r : Resource)
      × (own_routes routes l ≡ ok own)
      × ((k ≡ l) ⊎ (compatible_listeners l k ≡ true))
      × ((x : Route F B) → In x own → In x held)
      × In r rs
      × (execute_listener_template tp rg ref_name filter_dec sort_long is_ip is_wildcard_subdomain
            is_subdomain t.value proxy (k, held)
          ≡ ok r)

  make_gw_listeners-IsListened :
      (proxy : GwProxy) (routes : List (Route F B)) (rs : List Resource)
      → IsRange rg
      → make_gw_listeners tp rg ref_name filter_dec sort_long is_ip is_wildcard_subdomain
          is_subdomain proxy routes
        ≡ ok rs
      → (l : Listener) (t : Resource) → In l proxy.listeners
      → In t proxy.template.resources.listeners
      → IsListened proxy routes rs l t
  unfolding make_gw_listeners
  make_gw_listeners-IsListened proxy routes rs range e l t i j =
      elim (Result-cases (gathered routes proxy.listeners [])) [
        | inr (y, bad) ↦ absurd (ground arith)
        | inl (raw, good) ↦
            let (map, has, _) = listener_routes-IsMap routes proxy.listeners [] raw good tt in
            let (own, preprocessed, entry) = has l i in
            let visited : lookup listener_dec l (rg.listeners raw) ≡ some own =
              In-lookup l (rg.listeners raw) own (range.map raw map)
                ((range.entries raw (l, own)).1 (lookup-In l raw own entry)) in
            let (k, which, (held, served, all)) =
              collapse_lem (rg.listeners raw) l own (range.map raw map) visited in
            let body : Resource → Listener × List (Route F B) → Result (Error E) Resource =
              λ t entry.
                execute_listener_template tp rg ref_name filter_dec sort_long is_ip
                  is_wildcard_subdomain is_subdomain t.value proxy entry in
            let done : each_pair tp body proxy.template.resources.listeners
                  (rg.listeners (collapse (rg.listeners raw)))
                ≡ ok rs =
              ground arith in
            let there : In (k, held) (rg.listeners (collapse (rg.listeners raw))) =
              (range.entries (collapse (rg.listeners raw)) (k, held)).1
                (lookup-In k (collapse (rg.listeners raw)) held served) in
            let (r, printed) =
              each_pair-runs tp body proxy.template.resources.listeners
                (rg.listeners (collapse (rg.listeners raw))) rs t (k, held) done j there in
            let (_, back) =
              each_pair-In tp body proxy.template.resources.listeners
                (rg.listeners (collapse (rg.listeners raw))) rs done r in
            (
              own,
              k,
              held,
              r,
              preprocessed,
              which,
              all,
              back (t, (k, held), j, there, printed),
              printed,
            )
      ]

  abbrev pub IsConfigured : GwProxy → List (Route F B) → EnvoyConfig → Type 0
  IsConfigured proxy routes config =
      (config.node_id ≡ proxy.namespace ++ text "." ++ proxy.name)
      × ((r : Resource)
          → In r config.resources.clusters ↔ (
              (t : Resource) × (tmpl : T) × (name : Text) × In t proxy.template.resources.clusters
              × (tp.parse t.value ≡ ok tmpl)
              × IsReferenced ref_name routes name
              × IsOutput tp nonempty (gateway_cluster_params proxy) tmpl name r))
      × ((l : Listener) (t : Resource)
          → In l proxy.listeners
          → In t proxy.template.resources.listeners
          → IsListened proxy routes config.resources.listeners l t)

  -- Where `range` visits each entry of a map and no other, and `GWProxyToEnvoyConfig` reports no error,
  -- the node ID is the namespace and the name of the proxy. The clusters are exactly what a template of
  -- the proxy prints for a back end of a route, less what is empty. And each listener of the gateway is
  -- served: its routes could be preprocessed, and for every template of a listener there is a resource
  -- that the template prints for the listener or one that is compatible with it, with all of these
  -- routes among its routes.
  pub gw_proxy_to_envoy_config_lem :
      (proxy : GwProxy) (routes : List (Route F B)) (config : EnvoyConfig)
      → IsRange rg
      → gw_proxy_to_envoy_config tp rg ref_name filter_dec sort_long is_ip is_wildcard_subdomain
          is_subdomain proxy routes
        ≡ ok config
      → IsConfigured proxy routes config
  unfolding gw_proxy_to_envoy_config
  gw_proxy_to_envoy_config_lem proxy routes config range e =
      elim (Option-cases
        (routes_to_clusters tp rg ref_name filter_dec sort_long is_ip is_wildcard_subdomain
          is_subdomain proxy routes).1) [
            | inr (x, bad) ↦ absurd (ground arith)
            | inl good ↦
                elim (Result-cases (
                  make_gw_listeners tp rg ref_name filter_dec sort_long is_ip is_wildcard_subdomain
                    is_subdomain proxy routes)) [
                      | inr (y, bad) ↦ absurd (ground arith)
                      | inl (rs, made) ↦
                          let out : List Resource =
                            (routes_to_clusters tp rg ref_name filter_dec sort_long is_ip
                              is_wildcard_subdomain is_subdomain proxy routes).0 in
                          let is : envoy_config proxy.namespace proxy.name proxy.template out rs
                              ≡ config =
                            ground arith in
                          subst (IsConfigured proxy routes) is (
                            refl,
                            routes_to_clusters_lem tp rg ref_name filter_dec sort_long is_ip
                                is_wildcard_subdomain is_subdomain proxy routes out range.names
                                (ground arith),
                            make_gw_listeners-IsListened proxy routes rs range made,
                          )
                    ]
          ]
