-- ===== src/Routing/Configs/Balancers.antt =====
-- The Envoy configuration of a load balancer.
use native.Mathlib.Nat.{div-add-mod', mod-lt}
use resource_model.Base.{
  ◌+◌, ◌*◌, ◌≤◌, ◌<◌, ◌≡◌, ◌≢◌, refl, sym, ap, subst, ◌∙◌, ◌↔◌, ◌⊎◌, inl, inr, true, false, List,
  [], ◌∷◌, ◌++◌, arith, In, In-append, Text, Result, ok, Result-cases, Bool-cases, ltb, length,
}
use resource_model.Allocator.Pool.{ServicePort}
use resource_model.Routing.Configs.{
  LoadBalancer, Templates, ListenerParams, Resource, Error, http_listener_params,
}
use resource_model.Routing.Configs.Printing.{
  each_resource, each_pair, run_listener, make_http_listener, make_http_listeners,
}

length-empty : {A : Type 0} (xs : List A) → ltb 0 (length xs) ≡ false → xs ≡ []
length-empty [] e = refl
length-empty (x ∷ xs) e = absurd (ground arith)

module _ {T R E : Type 0} (tp : Templates T R E) where
  each_resource-cons :
      {A : Type 0} (body : A → Result (Error E) Resource) (x : A) (xs : List A) (rs : List Resource)
      → each_resource tp body (x ∷ xs) ≡ ok rs
      → (r : Resource) × (rest : List Resource) × (body x ≡ ok r)
        × (each_resource tp body xs ≡ ok rest)
        × (rs ≡ r ∷ rest)
  unfolding each_resource
  each_resource-cons body x xs rs e = elim (Result-cases (body x)) [
    | inr (y, bad) ↦ absurd (ground arith)
    | inl (r, good) ↦ elim (Result-cases (each_resource tp body xs)) [
      | inr (y, bad) ↦ absurd (ground arith)
      | inl (rest, more) ↦ (r, rest, good, more, ground arith)
    ]
  ]

  -- The elements of the result of a loop.
  pub each_resource-In :
      {A : Type 0} (body : A → Result (Error E) Resource) (xs : List A) (rs : List Resource)
      → each_resource tp body xs ≡ ok rs
      → (r : Resource) → In r rs ↔ ((x : A) × In x xs × (body x ≡ ok r))
  unfolding each_resource
  each_resource-In body [] rs e r =
      let is : [] ≡ rs = ground arith in
      subst (λ (l : List Resource). In r l ↔ ((x : _) × In x [] × (body x ≡ ok r))) is
        (λ i. absurd i, λ (x, i, f). absurd i)
  each_resource-In body (x ∷ xs) rs e r =
      let (r0, rest, good, more, is) = each_resource-cons body x xs rs e in
      let (into, back) = each_resource-In body xs rest more r in
      subst (λ (l : List Resource). In r l ↔ ((y : _) × In y (x ∷ xs) × (body y ≡ ok r))) (sym is)
        (
          (λ i. elim i [
            | inl same ↦ (x, inl refl, good ∙ ap ok (sym same))
            | inr j ↦ let (y, k, f) = into j in (y, inr k, f)
          ]),
          (λ (y, i, f). elim i [
            | inl same ↦ let both : body x ≡ ok r = ap body (sym same) ∙ f in inl (ground arith)
            | inr k ↦ inr (back (y, k, f))
          ]),
        )

  each_pair-cons :
      {A C : Type 0} (body : A → C → Result (Error E) Resource) (x : A) (xs : List A) (ys : List C)
      (rs : List Resource)
      → each_pair tp body (x ∷ xs) ys ≡ ok rs
      → (some_rs : List Resource) × (rest : List Resource) × (each_resource tp (body x) ys
          ≡ ok some_rs)
        × (each_pair tp body xs ys ≡ ok rest)
        × (rs ≡ some_rs ++ rest)
  unfolding each_pair
  each_pair-cons body x xs ys rs e = elim (Result-cases (each_resource tp (body x) ys)) [
    | inr (y, bad) ↦ absurd (ground arith)
    | inl (r, good) ↦ elim (Result-cases (each_pair tp body xs ys)) [
      | inr (y, bad) ↦ absurd (ground arith)
      | inl (rest, more) ↦ (r, rest, good, more, ground arith)
    ]
  ]

  -- The elements of the result of two loops.
  pub each_pair-In :
      {A C : Type 0} (body : A → C → Result (Error E) Resource) (xs : List A) (ys : List C)
      (rs : List Resource)
      → each_pair tp body xs ys ≡ ok rs
      → (r : Resource) → In r rs ↔ ((x : A) × (y : C) × In x xs × In y ys × (body x y ≡ ok r))
  unfolding each_pair
  each_pair-In body [] ys rs e r =
      let is : [] ≡ rs = ground arith in
      subst
        (λ (l : List Resource).
          In r l ↔ ((x : _) × (y : _) × In x [] × In y ys × (body x y ≡ ok r)))
        is (λ i. absurd i, λ (x, y, i, j, f). absurd i)
  each_pair-In body (x ∷ xs) ys rs e r =
      let (rs0, rest, good, more, is) = each_pair-cons body x xs ys rs e in
      let (into, back) = each_pair-In body xs ys rest more r in
      let (into0, back0) = each_resource-In (body x) ys rs0 good r in
      subst
        (λ (l : List Resource).
          In r l ↔ ((z : _) × (y : _) × In z (x ∷ xs) × In y ys × (body z y ≡ ok r)))
        (sym is)
        (
          (λ i. elim ((In-append r rs0 rest).0 i) [
            | inl j ↦ let (y, k, f) = into0 j in (x, y, inl refl, k, f)
            | inr j ↦ let (z, y, k, l, f) = into j in (z, y, inr k, l, f)
          ]),
          (λ (z, y, i, l, f). (In-append r rs0 rest).1 (elim i [
            | inl same ↦ inl (back0 (y, l, ap (λ w. body w y) (sym same) ∙ f))
            | inr k ↦ inr (back (z, y, k, l, f))
          ])),
        )

  each_resource-runs :
      {A : Type 0} (body : A → Result (Error E) Resource) (xs : List A) (rs : List Resource) (x : A)
      → each_resource tp body xs ≡ ok rs
      → In x xs
      → (r : Resource) × (body x ≡ ok r)
  each_resource-runs body [] rs x e i = absurd i
  each_resource-runs body (y ∷ xs) rs x e i =
      let (r, rest, good, more, is) = each_resource-cons body y xs rs e in
      elim i [
        | inl same ↦ (r, ap body same ∙ good)
        | inr j ↦ each_resource-runs body xs rest x more j
      ]

  -- Two loops without an error have run their body for each pair.
  pub each_pair-runs :
      {A C : Type 0} (body : A → C → Result (Error E) Resource) (xs : List A) (ys : List C)
      (rs : List Resource) (x : A) (y : C)
      → each_pair tp body xs ys ≡ ok rs
      → In x xs
      → In y ys
      → (r : Resource) × (body x y ≡ ok r)
  each_pair-runs body [] ys rs x y e i j = absurd i
  each_pair-runs body (z ∷ xs) ys rs x y e i j =
      let (rs0, rest, good, more, is) = each_pair-cons body z xs ys rs e in
      elim i [
        | inl same ↦
            let (r, f) = each_resource-runs (body z) ys rs0 y good j in
            (r, ap (λ w. body w y) same ∙ f)
        | inr k ↦ each_pair-runs body xs ys rest x y more k j
      ]

  -- The weights of the clusters of a listener: all the same, with a total of at most 100, and of more
  -- than 100 without one for each cluster.
  pub record IsWeighted (params : ListenerParams R) : Type 0 where
    pub total : params.total_weight ≡ params.cluster_weight * length params.clusters
    pub at_most : params.total_weight ≤ 100
    pub close : 100 < params.total_weight + length params.clusters

  weighted :
      (service : LoadBalancer) (port : ServicePort)
      → 0 < length service.upstream_clusters
      → IsWeighted (http_listener_params service port)
  weighted service port some_clusters = record {
    total = refl;
    at_most = omega (arith, div-add-mod' 100 (length service.upstream_clusters));
    close =
        omega
          (arith, div-add-mod' 100 (length service.upstream_clusters), mod-lt 100 some_clusters);
  }

  make_http_listener-run :
      (service : LoadBalancer)
      → ltb 0 (length service.upstream_clusters) ≡ true
      → (value : Text) (port : ServicePort)
      → make_http_listener tp value service port
        ≡ run_listener tp value (http_listener_params service port)
  unfolding make_http_listener
  make_http_listener-run service there value port = ground arith

  -- Where `makeHTTPListeners` reports no error, a load balancer without upstream clusters has no
  -- listeners. Any other has exactly those that a template of its prints for one of its ports, with
  -- all of its clusters: they have the same weight, and the total is at most 100, and of more than 100
  -- with one more for each cluster.
  pub make_http_listeners_lem :
      (service : LoadBalancer) (rs : List Resource)
      → make_http_listeners tp service ≡ ok rs
      → ((service.upstream_clusters ≡ []) × (rs ≡ []))
        ⊎ ((service.upstream_clusters ≢ [])
            × ((r : Resource)
                → In r rs ↔ (
                    (t : Resource) × (port : ServicePort) × In t
                      service.template.resources.listeners
                    × In port service.public_ports
                    × (run_listener tp t.value (http_listener_params service port) ≡ ok r)))
            × ((port : ServicePort) → IsWeighted (http_listener_params service port)))
  unfolding make_http_listeners
  make_http_listeners_lem service rs e =
      elim (Bool-cases (ltb 0 (length service.upstream_clusters))) [
        | inr none_there ↦ inl (length-empty service.upstream_clusters none_there, ground arith)
        | inl there ↦
            let some_clusters : 0 < length service.upstream_clusters = ground arith in
            let pairs =
              each_pair-In (λ (t : Resource) port. make_http_listener tp t.value service port)
                service.template.resources.listeners service.public_ports rs (ground arith) in
            let run = make_http_listener-run service there in
            inr (
              (λ empty. let l = ap length empty in omega (arith, l, some_clusters)),
              (λ r.
                  let (into, back) = pairs r in
                  (
                    λ i.
                        let (t, port, k, l, f) = into i in
                        (t, port, k, l, sym (run t.value port) ∙ f),
                    λ (t, port, k, l, f). back (t, port, k, l, run t.value port ∙ f),
                  )),
              λ port. weighted service port some_clusters,
            )
      ]
