-- ===== src/Routing/Configs/Clusters.antt =====
-- The clusters of the Envoy configuration of a gateway proxy.
use mathlib.Core.List.{append-nil}
use resource_model.Base.{
  ◌≡◌, refl, sym, ap, subst, ◌∙◌, ◌↔◌, ◌⊎◌, inl, inr, Bool, true, List, [], ◌∷◌, ◌++◌, Option, none,
  arith, In, In-append, Text, text_dec, ok, Result-cases, Bool-cases,
}
use resource_model.Routing.Rules.{LongSort}
use resource_model.Routing.Configs.{GwProxy, Route, Templates, ClusterParams, Resource, nonempty}
use resource_model.Routing.Configs.Printing.{run_cluster_template, run_cluster_templates}
use resource_model.Routing.Configs.Translation.{
  Ranges, cluster_names, add_names, add_name, route_backends, gateway_cluster_params,
  routes_to_clusters,
}

module _ {T R E : Type 0} (tp : Templates T R E) (keep : Text → Bool)
    (params : Text → ClusterParams) where
  -- The output of the template for the name, where it is kept.
  abbrev pub IsOutput : T → Text → Resource → Type 0
  IsOutput tmpl name r =
      (r ≡ record { name = name; value = (tp.execute_cluster tmpl (params name)).0 })
      × (keep (tp.execute_cluster tmpl (params name)).0 ≡ true)

  -- A step of the loop appends the output of one name, where it is kept.
  run_cluster_template-step :
      (tmpl : T) (name : Text) (names : List Text) (clusters : List Resource) (e : Option E)
      → (own : List Resource) × (failed : Option E) × (run_cluster_template tp keep tmpl params
            (name ∷ names)
            (clusters, e)
          ≡ run_cluster_template tp keep tmpl params names (clusters ++ own, failed))
        × ((r : Resource) → In r own ↔ IsOutput tmpl name r)
  unfolding run_cluster_template
  run_cluster_template-step tmpl name names clusters e =
      let doc : Text = (tp.execute_cluster tmpl (params name)).0 in
      let one : Resource = record { name = name; value = doc } in
      let failed : Option E = (tp.execute_cluster tmpl (params name)).1 in
      elim (Bool-cases (keep doc)) [
        | inl kept ↦ (
          one ∷ [],
          failed,
          ground arith,
          λ r. (
            (λ i. elim i [ inl is ↦ (is, kept) | inr none_left ↦ absurd none_left ]),
            λ (is, _). inl is,
          ),
        )
        | inr dropped ↦
            let none_added : run_cluster_template tp keep tmpl params (name ∷ names) (clusters, e)
                ≡ run_cluster_template tp keep tmpl params names (clusters, failed) =
              ground arith in
            (
              [],
              failed,
              none_added
                  ∙ ap (λ cs. run_cluster_template tp keep tmpl params names (cs, failed))
                      (sym (append-nil clusters)),
              λ r. (λ i. absurd i, λ (_, kept). absurd (ground arith)),
            )
      ]

  run_cluster_template-In :
      (tmpl : T) (names : List Text) (clusters : List Resource) (e : Option E) (r : Resource)
      → In r (run_cluster_template tp keep tmpl params names (clusters, e)).0
        ↔ (In r clusters ⊎ ((name : Text) × In name names × IsOutput tmpl name r))
  unfolding run_cluster_template
  run_cluster_template-In tmpl [] clusters e r =
      (λ i. inl i, λ u. elim u [ inl i ↦ i | inr (n, i, o) ↦ absurd i ])
  run_cluster_template-In tmpl (name ∷ names) clusters e r =
      let (own, failed, step, own-IsOutput) =
        run_cluster_template-step tmpl name names clusters e in
      let (into, back) = run_cluster_template-In tmpl names (clusters ++ own) failed r in
      let (split, join) = In-append r clusters own in
      let (into1, back1) = own-IsOutput r in
      (
        (λ i. elim (into (subst (λ o. In r o.0) step i)) [
          | inl j ↦ elim (split j) [ inl k ↦ inl k | inr k ↦ inr (name, inl refl, into1 k) ]
          | inr (n, k, o) ↦ inr (n, inr k, o)
        ]),
        λ u.
            subst (λ o. In r o.0) (sym step)
              (back (elim u [
                | inl k ↦ inl (join (inl k))
                | inr (n, inl same, o) ↦
                    inl (join (inr (back1 (subst (λ n. IsOutput tmpl n r) same o))))
                | inr (n, inr k, o) ↦ inr (n, k, o)
              ])),
      )

  -- An output of one of the templates for one of the names.
  abbrev pub IsPrinted : List Resource → List Text → Resource → Type 0
  IsPrinted templates names r =
      (t : Resource) × (tmpl : T) × (name : Text) × In t templates
      × (tp.parse t.value ≡ ok tmpl)
      × In name names
      × IsOutput tmpl name r

  run_cluster_templates-In :
      (names : List Text) (templates : List Resource) (clusters out : List Resource) (e : Option E)
      → run_cluster_templates tp keep params names templates (clusters, e) ≡ (out, none)
      → (r : Resource) → In r out ↔ (In r clusters ⊎ IsPrinted templates names r)
  unfolding run_cluster_templates
  run_cluster_templates-In names [] clusters out e done r =
      let is : clusters ≡ out = ground arith in
      subst (λ out. In r out ↔ (In r clusters ⊎ IsPrinted [] names r)) is
        (λ i. inl i, λ u. elim u [ inl i ↦ i | inr (t, tmpl, n, i, pa, j, o) ↦ absurd i ])
  run_cluster_templates-In names (t ∷ templates) clusters out e done r =
      elim (Result-cases (tp.parse t.value)) [
        | inr (x, bad) ↦ absurd (ground arith)
        | inl (tmpl, parsed) ↦
            let next = run_cluster_template tp keep tmpl params names (clusters, none) in
            let (into, back) =
              run_cluster_templates-In names templates next.0 out next.1 (ground arith) r in
            let (into1, back1) = run_cluster_template-In tmpl names clusters none r in
            (
              (λ i. elim (into i) [
                | inl j ↦ elim (into1 j) [
                  | inl k ↦ inl k
                  | inr (n, k, o) ↦ inr (t, tmpl, n, inl refl, parsed, k, o)
                ]
                | inr (t', tmpl', n, j, pa, k, o) ↦ inr (t', tmpl', n, inr j, pa, k, o)
              ]),
              (λ u. back (elim u [
                | inl k ↦ inl (back1 (inl k))
                | inr (t', tmpl', n, inl same, parsed', k, o) ↦
                    let both : tp.parse t.value ≡ ok tmpl' =
                      ap (λ (t : Resource). tp.parse t.value) (sym same) ∙ parsed' in
                    let is : tmpl' ≡ tmpl = ground arith in
                    inl (back1 (inr (n, k, subst (λ x. IsOutput x n r) is o)))
                | inr (t', tmpl', n, inr j, pa, k, o) ↦ inr (t', tmpl', n, j, pa, k, o)
              ])),
            )
      ]

add_name-In :
    (x name : Text) (names : List Text) → In x (add_name name names) ↔ ((x ≡ name) ⊎ In x names)
add_name-In x name [] = ground arith
add_name-In x name (n ∷ names) = elim (text_dec n name) [
  | yes same ↦ ground arith
  | no differ ↦ ground (arith, add_name-In x name names)
]

add_names-In :
    (x : Text) (new names : List Text) → In x (add_names new names) ↔ (In x new ⊎ In x names)
add_names-In x [] names = ground arith
add_names-In x (n ∷ new) names =
    ground (arith, add_names-In x new (add_name n names), add_name-In x n names)

module _ {F B : Type 0} (ref_name : B → Text) where
  -- Some route has the cluster among its back ends.
  abbrev pub IsReferenced : List (Route F B) → Text → Type 0
  IsReferenced [] x = ⊥
  IsReferenced (route ∷ routes) x = In x (route_backends ref_name route) ⊎ IsReferenced routes x

  cluster_names-In :
      (x : Text) (routes : List (Route F B)) (names : List Text)
      → In x (cluster_names ref_name routes names) ↔ (IsReferenced routes x ⊎ In x names)
  unfolding cluster_names
  cluster_names-In x [] names = ground arith
  cluster_names-In x (route ∷ routes) names = ground (
    arith,
    cluster_names-In x routes (add_names (route_backends ref_name route) names),
    add_names-In x (route_backends ref_name route) names,
  )

module _ {T E F B : Type 0} (tp : Templates T (Route F B) E) (rg : Ranges (Route F B))
    (ref_name : B → Text) (filter_dec : Discrete F) (sort_long : LongSort F B)
    (is_ip is_wildcard_subdomain is_subdomain : Text → Bool) where
  -- Where `range` visits each name and no other, and `routesToClusters` reports no error, the clusters
  -- are exactly what a template of the proxy prints for a back end of a route, less what is empty.
  pub routes_to_clusters_lem :
      (proxy : GwProxy) (routes : List (Route F B)) (out : List Resource)
      → ((names : List Text) (x : Text) → In x (rg.names names) ↔ In x names)
      → routes_to_clusters tp rg ref_name filter_dec sort_long is_ip is_wildcard_subdomain
          is_subdomain proxy routes
        ≡ (out, none)
      → (r : Resource)
      → In r out ↔ (
          (t : Resource) × (tmpl : T) × (name : Text) × In t proxy.template.resources.clusters
          × (tp.parse t.value ≡ ok tmpl)
          × IsReferenced ref_name routes name
          × IsOutput tp nonempty (gateway_cluster_params proxy) tmpl name r)
  unfolding routes_to_clusters
  routes_to_clusters_lem proxy routes out all e r =
      let params = gateway_cluster_params proxy in
      let names = cluster_names ref_name routes [] in
      let (into, back) =
        run_cluster_templates-In tp nonempty params (rg.names names)
          proxy.template.resources.clusters [] out none e r in
      let member = λ (x : Text). cluster_names-In ref_name x routes [] in
      (
        (λ i. elim (into i) [
          | inl nothing ↦ absurd nothing
          | inr (t, tmpl, n, j, parsed, k, o) ↦ elim ((member n).0 ((all names n).0 k)) [
            | inl referenced ↦ (t, tmpl, n, j, parsed, referenced, o)
            | inr nothing ↦ absurd nothing
          ]
        ]),
        (λ (t, tmpl, n, j, parsed, referenced, o).
            back (inr (t, tmpl, n, j, parsed, (all names n).1 ((member n).1 (inl referenced)), o))),
      )
