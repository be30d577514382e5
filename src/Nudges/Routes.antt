-- ===== src/Nudges/Routes.antt =====
-- Which proxies and slices the route controller reaches.
use resource_model.Base.{
  ◌≡◌, sym, subst, ◌⊎◌, inl, inr, true, false, List, [], ◌∷◌, Option, none, arith, In, In-append,
  Text, Option-cases, Bool-cases, ok, err, Result-cases, until_error, until_error-In, if◌then◌else◌,
}
use resource_model.Links.{NamespacedName, GwRoute, GwEndpointSlice, parents, backends, is_child_of}
use resource_model.Links.Joined.{refers_to-In}
use resource_model.Finalizers.{add_finalizer, remove_finalizer}
use resource_model.Nudges.{
  Client, GwProxy, finalizer_name, nudge_proxy, nudge_slice, nudge_parent, slices_of, active_slices,
  backend_refs, nudge_slices, nudge_linked, reconcile_route,
}

slices_of-In :
    (cluster : Text) (slices : List GwEndpointSlice) (slice : GwEndpointSlice)
    → In slice slices
    → slice.parent_uid ≡ cluster
    → slice.deleting ≡ false
    → In slice (slices_of cluster slices)
unfolding slices_of
slices_of-In cluster [] slice i uid here = absurd i
slices_of-In cluster (x ∷ slices) slice (inl same) uid here =
    let uid' : x.parent_uid ≡ cluster = subst (λ y. y.parent_uid ≡ cluster) same uid in
    let here' : x.deleting ≡ false = subst (λ y. y.deleting ≡ false) same here in ground arith
slices_of-In cluster (x ∷ slices) slice (inr j) uid here =
    let later = slices_of-In cluster slices slice j uid here in
    ground (arith, Bool-cases x.deleting)

active_slices-In :
    (refs : List Text) (slices : List GwEndpointSlice) (slice : GwEndpointSlice)
    → In slice slices
    → In slice.parent_uid refs
    → slice.deleting ≡ false
    → In slice (active_slices refs slices)
unfolding active_slices
active_slices-In [] slices slice i j here = absurd j
active_slices-In (ref ∷ refs) slices slice i j here =
    (In-append slice (slices_of ref slices) (active_slices refs slices)).1 (elim j [
      | inl same ↦ inl (slices_of-In ref slices slice i same here)
      | inr k ↦ inr (active_slices-In refs slices slice i k here)
    ])

module _ {S E : Type 0} (cl : Client S E) where
  -- The client could not read the proxy, or it was nudged.
  abbrev pub IsNudged : NamespacedName → Type 0
  IsNudged name =
      (s : S) × (((p : GwProxy) × (after : S) × (cl.get_proxy s name
            ≡ ((cl.get_proxy s name).0, ok p))
          × (nudge_proxy cl (cl.get_proxy s name).0 p ≡ (after, none)))
        ⊎ ((e : E) × ((cl.get_proxy s name).1 ≡ err e)))

  -- Each proxy of which the route is a child was nudged, and each active slice of a cluster that is
  -- among the route's back ends.
  abbrev pub Reaches : GwRoute → Type 0
  Reaches route =
      ((gateway : NamespacedName)
        → gateway.namespace ≡ route.namespace
        → is_child_of route gateway ≡ true
        → IsNudged gateway)
      × ((s : S) × (slices : List GwEndpointSlice) × ((cl.list_slices s route.namespace).1
            ≡ ok slices)
          × ((slice : GwEndpointSlice)
              → In slice slices
              → In slice.parent_uid (backends route)
              → slice.deleting ≡ false
              → (before : S) × (after : S) × (nudge_slice cl before slice ≡ (after, none))))

  nudge_parent-IsNudged :
      (gateway : NamespacedName) (before after : S)
      → nudge_parent cl gateway.namespace before gateway.name ≡ (after, none)
      → IsNudged gateway
  unfolding nudge_parent
  nudge_parent-IsNudged gateway before after e =
      elim (Result-cases (cl.get_proxy before gateway).1) [
        | inl (p, got) ↦ (before, inl (p, after, ground arith, ground arith))
        | inr (x, bad) ↦ (before, inr (x, bad))
      ]

  nudge_linked-Reaches :
      (route : GwRoute) (s s' : S) → nudge_linked cl route s ≡ (s', none) → Reaches route
  unfolding nudge_linked nudge_slices backend_refs is_child_of
  nudge_linked-Reaches route s s' e =
      let first = until_error (nudge_parent cl route.namespace) (parents route) s in
      elim (Option-cases first.1) [
        | inr (x, bad) ↦ absurd (ground arith)
        | inl good ↦ elim (Result-cases (cl.list_slices first.0 route.namespace).1) [
          | inr (x, bad) ↦ absurd (ground arith)
          | inl (slices, listed) ↦
              let s2 : S = (cl.list_slices first.0 route.namespace).0 in
              let ran : until_error (nudge_parent cl route.namespace) (parents route) s
                  ≡ (first.0, none) =
                ground arith in
              let nudged : until_error (nudge_slice cl) (active_slices (backends route) slices) s2
                  ≡ (s', none) =
                ground arith in
              (
                λ gateway same child.
                    let i = (refers_to-In gateway.name (parents route)).0 child in
                    let (before, after, done) =
                      until_error-In (nudge_parent cl route.namespace) (parents route) s first.0
                        gateway.name ran i in
                    nudge_parent-IsNudged gateway before after (
                      subst (λ n. nudge_parent cl n before gateway.name ≡ (after, none)) (sym same)
                        done),
                (
                  first.0,
                  slices,
                  listed,
                  λ slice i j here.
                      until_error-In (nudge_slice cl) (active_slices (backends route) slices) s2 s'
                        slice nudged (active_slices-In (backends route) slices slice i j here),
                ),
              )
        ]
      ]

  -- The run of the finalizer functions on the route.
  abbrev finalized : GwRoute → S → S × GwRoute × Option E
  finalized route s =
      if route.deleting
      then remove_finalizer cl.route_finalizers finalizer_name (s, route)
      else add_finalizer cl.route_finalizers finalizer_name (s, route)

  abbrev pub IsRouteDone : NamespacedName → S → Type 0
  IsRouteDone request s =
      ((e : E) × ((cl.get_route s request).1 ≡ err e) × (cl.is_not_found e ≡ true))
      ⊎ ((route : GwRoute) × (obj : GwRoute) × (held : S) × ((cl.get_route s request).1 ≡ ok route)
          × (finalized route (cl.get_route s request).0 ≡ (held, obj, none))
          × Reaches obj)

  -- Where the route controller's `Reconcile` returns no error, the route is gone; or its finalizer
  -- was removed or added, as it is being deleted or not, and each proxy in its namespace of which it
  -- is a child was nudged, if the proxy could be read, and so was each active slice, in the list that
  -- it read, of a cluster among the route's back ends.
  pub reconcile_route_lem :
      (request : NamespacedName) (s s' : S)
      → reconcile_route cl request s ≡ (s', none)
      → IsRouteDone request s
  unfolding reconcile_route
  reconcile_route_lem request s s' e = elim (Result-cases (cl.get_route s request).1) [
    | inr (x, bad) ↦ elim (Bool-cases (cl.is_not_found x)) [
      | inl absent ↦ inl (x, bad, absent)
      | inr other ↦ absurd (ground arith)
    ]
    | inl (route, got) ↦
        let run = finalized route (cl.get_route s request).0 in
        elim (Option-cases run.2) [
          | inr (x, bad) ↦ absurd (ground arith)
          | inl good ↦
              let ended : nudge_linked cl run.1 run.0 ≡ (s', none) = ground arith in
              inr
                (route, run.1, run.0, got, ground arith, nudge_linked-Reaches run.1 run.0 s' ended)
        ]
  ]
