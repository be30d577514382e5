-- ===== src/Nudges/Slices.antt =====
-- Which proxies the slice controller reaches.
use resource_model.Base.{
  ◌≡◌, refl, sym, subst, ◌⊎◌, inl, inr, true, false, List, [], ◌∷◌, ◌++◌, none, arith, In,
  In-append, Text, text_dec, Option-cases, Bool-cases, ok, err, Result-cases, until_error,
  until_error-In,
}
use resource_model.Links.{NamespacedName, GwRoute, GwEndpointSlice, parents, backends}
use resource_model.Finalizers.{add_finalizer, remove_finalizer}
use resource_model.Nudges.{
  Client, GwProxy, finalizer_name, nudge, get_parents, get_referencing, get_from_routes,
  referencing_proxies, nudge_referencing, reconcile_slice,
}

module _ {S E : Type 0} (cl : Client S E) where
  abbrev in_namespace : Text → Text → NamespacedName
  in_namespace namespace name = record { namespace = namespace; name = name }

  -- The client was asked for the proxy: it is in the list, or there is none.
  abbrev Answered : Text → Text → List GwProxy → Type 0
  Answered namespace name found =
      (s : S) × (((p : GwProxy) × ((cl.get_proxy s (in_namespace namespace name)).1 ≡ ok p)
          × In p found)
        ⊎ ((e : E) × ((cl.get_proxy s (in_namespace namespace name)).1 ≡ err e)
            × (cl.is_not_found e ≡ true)))

  abbrev Grows : List GwProxy → List GwProxy → Type 0
  Grows refs found = (p : GwProxy) → In p refs → In p found

  Answered-Grows :
      (namespace name : Text) (refs found : List GwProxy)
      → Grows refs found
      → Answered namespace name refs
      → Answered namespace name found
  Answered-Grows namespace name refs found grows (s, answer) =
      (s, elim answer [ inl (p, e, i) ↦ inl (p, e, grows p i) | inr absent ↦ inr absent ])

  get_parents-Answered :
      (namespace : Text) (names : List Text) (s s' : S) (refs found : List GwProxy)
      → get_parents cl namespace names s refs ≡ (s', ok found)
      → Grows refs found × ((name : Text) → In name names → Answered namespace name found)
  unfolding get_parents
  get_parents-Answered namespace [] s s' refs found e =
      let is : refs ≡ found = ground arith in (λ p i. subst (In p) is i, λ name i. absurd i)
  get_parents-Answered namespace (n ∷ names) s s' refs found e =
      elim (Result-cases (cl.get_proxy s (in_namespace namespace n)).1) [
        | inl (p, got) ↦
            let (grows, all) =
              get_parents-Answered namespace names (cl.get_proxy s (in_namespace namespace n)).0 s'
                (refs ++ p ∷ []) found (ground arith) in
            let here = grows p ((In-append p refs (p ∷ [])).1 (inr (inl refl))) in
            (
              λ q i. grows q ((In-append q refs (p ∷ [])).1 (inl i)),
              λ name i. elim i [
                | inl same ↦
                    subst (λ m. Answered namespace m found) (sym same) (s, inl (p, got, here))
                | inr j ↦ all name j
              ],
            )
        | inr (x, got) ↦ elim (Bool-cases (cl.is_not_found x)) [
          | inr other ↦ absurd (ground arith)
          | inl absent ↦
              let (grows, all) =
                get_parents-Answered namespace names (cl.get_proxy s (in_namespace namespace n)).0
                  s' refs found (ground arith) in
              (
                grows,
                λ name i. elim i [
                  | inl same ↦
                      subst (λ m. Answered namespace m found) (sym same) (s, inr (x, got, absent))
                  | inr j ↦ all name j
                ],
              )
        ]
      ]

  module _ (slice : GwEndpointSlice) where
    get_referencing-Answered :
        (names refs : List Text) (s s' : S) (before found : List GwProxy)
        → get_referencing cl slice names refs s before ≡ (s', ok found)
        → Grows before found
          × ((name : Text)
              → In slice.parent_uid refs
              → In name names
              → Answered slice.namespace name found)
    unfolding get_referencing
    get_referencing-Answered names [] s s' before found e =
        let is : before ≡ found = ground arith in (λ p i. subst (In p) is i, λ name i j. absurd i)
    get_referencing-Answered names (ref ∷ refs) s s' before found e =
        elim (text_dec ref slice.parent_uid) [
          | no d ↦
              let (grows, all) =
                get_referencing-Answered names refs s s' before found (ground arith) in
              (
                grows,
                λ name i j. elim i [ inl same ↦ absurd (d (sym same)) | inr k ↦ all name k j ],
              )
          | yes same ↦
              let s1 : S = (get_parents cl slice.namespace names s before).0 in
              elim (Result-cases (get_parents cl slice.namespace names s before).1) [
                | inr (x, bad) ↦ absurd (ground arith)
                | inl (mid, good) ↦
                    let (up, some_of) =
                      get_parents-Answered slice.namespace names s s1 before mid (ground arith) in
                    let (grows, all) =
                      get_referencing-Answered names refs s1 s' mid found (ground arith) in
                    (
                      λ p i. grows p (up p i),
                      λ name i j.
                          Answered-Grows slice.namespace name mid found grows (some_of name j),
                    )
              ]
        ]

    get_from_routes-Answered :
        (routes : List GwRoute) (s s' : S) (before found : List GwProxy)
        → get_from_routes cl slice routes s before ≡ (s', ok found)
        → Grows before found
          × ((route : GwRoute) (name : Text)
              → In route routes
              → In slice.parent_uid (backends route)
              → In name (parents route)
              → Answered slice.namespace name found)
    unfolding get_from_routes
    get_from_routes-Answered [] s s' before found e =
        let is : before ≡ found = ground arith in (λ p i. subst (In p) is i, λ r n i j k. absurd i)
    get_from_routes-Answered (r ∷ routes) s s' before found e =
        let s1 : S = (get_referencing cl slice (parents r) (backends r) s before).0 in
        elim (Result-cases (get_referencing cl slice (parents r) (backends r) s before).1) [
          | inr (x, bad) ↦ absurd (ground arith)
          | inl (mid, good) ↦
              let (up, these) =
                get_referencing-Answered (parents r) (backends r) s s1 before mid (ground arith) in
              let (grows, rest) = get_from_routes-Answered routes s1 s' mid found (ground arith) in
              (
                λ p i. grows p (up p i),
                λ route name i j k. elim i [
                  | inl same ↦ Answered-Grows slice.namespace name mid found grows (
                      these name (subst (λ x. In slice.parent_uid (backends x)) same j)
                        (subst (λ x. In name (parents x)) same k))
                  | inr l ↦ rest route name l j k
                ],
              )
        ]

  -- The client found the proxy and it was nudged, or there is none.
  abbrev pub IsNotified : Text → Text → Type 0
  IsNotified namespace name =
      (s : S) × (((p : GwProxy) × (before : S) × (after : S) × ((cl.get_proxy s
              (in_namespace namespace name)).1
            ≡ ok p)
          × (nudge cl before p ≡ (after, none)))
        ⊎ ((e : E) × ((cl.get_proxy s (in_namespace namespace name)).1 ≡ err e)
            × (cl.is_not_found e ≡ true)))

  -- Every proxy that a route of the list joins to the slice was notified.
  abbrev pub AllNotified : GwEndpointSlice → List GwRoute → Type 0
  AllNotified slice routes =
      (route : GwRoute) (name : Text)
      → In route routes
      → In slice.parent_uid (backends route)
      → In name (parents route)
      → IsNotified slice.namespace name

  nudge_referencing-AllNotified :
      (slice : GwEndpointSlice) (s s' : S)
      → nudge_referencing cl slice s ≡ (s', none)
      → (routes : List GwRoute) × ((cl.list_routes s slice.namespace).1 ≡ ok routes)
        × AllNotified slice routes
  unfolding nudge_referencing referencing_proxies
  nudge_referencing-AllNotified slice s s' e =
      let s1 : S = (cl.list_routes s slice.namespace).0 in
      elim (Result-cases (cl.list_routes s slice.namespace).1) [
        | inr (x, bad) ↦ absurd (ground arith)
        | inl (routes, listed) ↦ elim (Result-cases (get_from_routes cl slice routes s1 []).1) [
          | inr (x, bad) ↦ absurd (ground arith)
          | inl (found, good) ↦
              let s2 : S = (get_from_routes cl slice routes s1 []).0 in
              let (_, all) = get_from_routes-Answered slice routes s1 s2 [] found (ground arith) in
              let nudged : until_error (nudge cl) found s2 ≡ (s', none) = ground arith in
              (
                routes,
                listed,
                λ route name i j k.
                    let (s0, answer) = all route name i j k in
                    (
                      s0,
                      elim answer [
                        | inr absent ↦ inr absent
                        | inl (p, got, l) ↦
                            let (before, after, done) =
                              until_error-In (nudge cl) found s2 s' p nudged l in
                            inl (p, before, after, got, done)
                      ],
                    ),
              )
        ]
      ]

  -- What `Reconcile` of the slice controller did where it returns no error.
  abbrev pub IsDone : NamespacedName → S → S → Type 0
  IsDone request s s' =
      ((e : E) × ((cl.get_slice s request).1 ≡ err e) × (cl.is_not_found e ≡ true))
      ⊎ ((slice : GwEndpointSlice) × (obj : GwEndpointSlice) × ((cl.get_slice s request).1
            ≡ ok slice)
          × (slice.deleting ≡ true)
          × (remove_finalizer cl.slice_finalizers finalizer_name ((cl.get_slice s request).0, slice)
              ≡ (s', obj, none)))
      ⊎ ((slice : GwEndpointSlice) × (obj : GwEndpointSlice) × (held : S) × (routes : List GwRoute)
          × ((cl.get_slice s request).1 ≡ ok slice)
          × (slice.deleting ≡ false)
          × (add_finalizer cl.slice_finalizers finalizer_name ((cl.get_slice s request).0, slice)
              ≡ (held, obj, none))
          × ((cl.list_routes held obj.namespace).1 ≡ ok routes)
          × AllNotified obj routes)

  -- Where the slice controller's `Reconcile` returns no error, the slice is gone; or it is being
  -- deleted and the finalizer was removed; or the finalizer was added, and for every route in the
  -- list that it read, with the slice's cluster among its back ends, each parent was nudged if there
  -- is such a proxy.
  pub reconcile_slice_lem :
      (request : NamespacedName) (s s' : S)
      → reconcile_slice cl request s ≡ (s', none)
      → IsDone request s s'
  unfolding reconcile_slice
  reconcile_slice_lem request s s' e =
      let s1 : S = (cl.get_slice s request).0 in
      elim (Result-cases (cl.get_slice s request).1) [
        | inr (x, bad) ↦ elim (Bool-cases (cl.is_not_found x)) [
          | inl absent ↦ inl (x, bad, absent)
          | inr other ↦ absurd (ground arith)
        ]
        | inl (slice, got) ↦ elim (Bool-cases slice.deleting) [
          | inl gone ↦
              let run = remove_finalizer cl.slice_finalizers finalizer_name (s1, slice) in
              inr (inl (slice, run.1, got, gone, ground arith))
          | inr here ↦
              let run = add_finalizer cl.slice_finalizers finalizer_name (s1, slice) in
              elim (Option-cases run.2) [
                | inr (x, bad) ↦ absurd (ground arith)
                | inl good ↦
                    let ended : nudge_referencing cl run.1 run.0 ≡ (s', none) = ground arith in
                    let (routes, listed, all) =
                      nudge_referencing-AllNotified run.1 run.0 s' ended in
                    inr (inr (slice, run.1, run.0, routes, got, here, ground arith, listed, all))
              ]
        ]
      ]
