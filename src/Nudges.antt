-- ===== src/Nudges.antt =====
-- How a change of a route or an endpoint slice reaches the proxies: controllers/gwroute_controller.go,
-- controllers/gwendpointslice_controller.go, `ReferencingProxies` of api/v1/gwendpointslice_types.go
-- and `Nudge` of api/v1/gwproxy_types.go. A nudge is a patch of an annotation, which makes the
-- object's own controller run.
pub mod Patches
pub mod Slices
pub mod Routes
use resource_model.Base.{
  Bool, List, [], ◌∷◌, ◌++◌, Option, none, some, Text, text, text_dec, ite, if◌then◌else◌, Result,
  ok, err, until_error,
}
use resource_model.GoMap.{GoMap}
use resource_model.Links.{NamespacedName, GwRoute, GwEndpointSlice, parents, backends}
use resource_model.Finalizers.{Library, add_finalizer, remove_finalizer}

abbrev pub finalizer_name : Text
finalizer_name = text "epic.acnodal.io/controller"

-- A `GWProxy`, with what a nudge reads. `none` is a nil map.
pub record GwProxy : Type 0 where
  pub namespace : Text
  pub name : Text
  pub annotations : Option (GoMap Text Text)

-- An operation of a JSON patch.
pub data Value : Type 0 where
  string : Text → Value
  object : GoMap Text Text → Value

pub record Operation : Type 0 where
  pub op : Text
  pub path : Text
  pub value : Value

-- The patch of the three functions that nudge.
unfoldable pub nudge_patch : Option (GoMap Text Text) → Text → List Operation
nudge_patch none raw =
    record {
      op = text "add";
      path = text "/metadata/annotations";
      value = object ((text "nudge", raw) ∷ []);
    }
    ∷ []
nudge_patch (some annotations) raw =
    record { op = text "add"; path = text "/metadata/annotations/nudge"; value = string raw } ∷ []

-- The inner loop of `backendRefs`.
unfoldable pub slices_of : Text → List GwEndpointSlice → List GwEndpointSlice
slices_of cluster [] = []
slices_of cluster (slice ∷ slices) =
    let rest = slices_of cluster slices in
    ite (text_dec slice.parent_uid cluster) (if slice.deleting then rest else slice ∷ rest) rest

unfoldable pub active_slices : List Text → List GwEndpointSlice → List GwEndpointSlice
active_slices [] slices = []
active_slices (ref ∷ refs) slices = slices_of ref slices ++ active_slices refs slices

-- The Kubernetes client and the source of random names, which belong to other repositories: `S` is
-- the state of the world, in which other processes may act at any time, and `E` the errors. The two
-- libraries are the finalizer functions on slices and on routes.
pub record Client (S E : Type 0) : Type 1 where
  pub get_route : S → NamespacedName → S × Result E GwRoute
  pub get_slice : S → NamespacedName → S × Result E GwEndpointSlice
  pub get_proxy : S → NamespacedName → S × Result E GwProxy
  pub list_routes : S → Text → S × Result E (List GwRoute)
  pub list_slices : S → Text → S × Result E (List GwEndpointSlice)
  pub patch_proxy : S → GwProxy → List Operation → S × Option E
  pub patch_slice : S → GwEndpointSlice → List Operation → S × Option E
  pub random : S → S × Text
  pub is_not_found : E → Bool
  pub slice_finalizers : Library S GwEndpointSlice E
  pub route_finalizers : Library S GwRoute E

module _ {S E : Type 0} (cl : Client S E) where
  -- `client.IgnoreNotFound`
  abbrev pub ignore_not_found : E → Option E
  ignore_not_found e = if cl.is_not_found e then none else some e

  -- `Nudge`
  unfoldable pub nudge : S → GwProxy → S × Option E
  nudge s proxy =
      let (s1, raw) = cl.random s in cl.patch_proxy s1 proxy (nudge_patch proxy.annotations raw)

  -- `nudgeProxy`
  unfoldable pub nudge_proxy : S → GwProxy → S × Option E
  nudge_proxy s proxy =
      let (s1, raw) = cl.random s in cl.patch_proxy s1 proxy (nudge_patch proxy.annotations raw)

  -- `nudgeSlice`
  unfoldable pub nudge_slice : S → GwEndpointSlice → S × Option E
  nudge_slice s slice =
      let (s1, raw) = cl.random s in cl.patch_slice s1 slice (nudge_patch slice.annotations raw)

  -- The loop of `ReferencingProxies` over the parents of a route, with the proxies so far.
  unfoldable pub get_parents : Text → List Text → S → List GwProxy → S × Result E (List GwProxy)
  get_parents namespace [] s refs = (s, ok refs)
  get_parents namespace (parent ∷ rest) s refs =
      let (s1, got) = cl.get_proxy s (record { namespace = namespace; name = parent }) in
      elim got [
        | err e ↦ elim (ignore_not_found e) [
          | some e ↦ (s1, err e)
          | none ↦ get_parents namespace rest s1 refs
        ]
        | ok proxy ↦ get_parents namespace rest s1 (refs ++ proxy ∷ [])
      ]

  -- The loop over the back ends of a route, each time with all of its parents.
  unfoldable pub get_referencing :
      GwEndpointSlice → List Text → List Text → S → List GwProxy → S × Result E (List GwProxy)
  get_referencing slice parents [] s refs = (s, ok refs)
  get_referencing slice parents (ref ∷ rest) s refs = elim (text_dec ref slice.parent_uid) [
    | no _ ↦ get_referencing slice parents rest s refs
    | yes _ ↦
        let (s1, found) = get_parents slice.namespace parents s refs in
        elim found [ err e ↦ (s1, err e) | ok refs' ↦ get_referencing slice parents rest s1 refs' ]
  ]

  unfoldable pub get_from_routes :
      GwEndpointSlice → List GwRoute → S → List GwProxy → S × Result E (List GwProxy)
  get_from_routes slice [] s refs = (s, ok refs)
  get_from_routes slice (route ∷ routes) s refs =
      let (s1, found) = get_referencing slice (parents route) (backends route) s refs in
      elim found [ err e ↦ (s1, err e) | ok refs' ↦ get_from_routes slice routes s1 refs' ]

  -- `ReferencingProxies`, without the proxies that it returns beside an error.
  unfoldable pub referencing_proxies : GwEndpointSlice → S → S × Result E (List GwProxy)
  referencing_proxies slice s =
      let (s1, listed) = cl.list_routes s slice.namespace in
      elim listed [ err e ↦ (s1, err e) | ok routes ↦ get_from_routes slice routes s1 [] ]

  -- The end of the slice controller's `Reconcile`.
  unfoldable pub nudge_referencing : GwEndpointSlice → S → S × Option E
  nudge_referencing slice s =
      let (s1, found) = referencing_proxies slice s in
      elim found [ err e ↦ (s1, some e) | ok proxies ↦ until_error nudge proxies s1 ]

  -- `Reconcile` of the slice controller: the error.
  unfoldable pub reconcile_slice : NamespacedName → S → S × Option E
  reconcile_slice request s =
      let (s1, got) = cl.get_slice s request in
      elim got [
        | err e ↦ (s1, ignore_not_found e)
        | ok slice ↦
            if slice.deleting
            then (let (s2, _, e) =
                  remove_finalizer cl.slice_finalizers finalizer_name (s1, slice) in
                (s2, e))
            else (let (s2, slice', failed) =
                  add_finalizer cl.slice_finalizers finalizer_name (s1, slice) in
                elim failed [ some e ↦ (s2, some e) | none ↦ nudge_referencing slice' s2 ])
      ]

  -- The body of the route controller's first loop: a proxy that cannot be read is passed over.
  unfoldable pub nudge_parent : Text → S → Text → S × Option E
  nudge_parent namespace s parent =
      let (s1, got) = cl.get_proxy s (record { namespace = namespace; name = parent }) in
      elim got [ err e ↦ (s1, none) | ok proxy ↦ nudge_proxy s1 proxy ]

  unfoldable pub backend_refs : GwRoute → S → S × Result E (List GwEndpointSlice)
  backend_refs route s =
      let (s1, listed) = cl.list_slices s route.namespace in
      elim listed [
        | err e ↦ (s1, err e)
        | ok slices ↦ (s1, ok (active_slices (backends route) slices))
      ]

  unfoldable pub nudge_slices : GwRoute → S → S × Option E
  nudge_slices route s =
      let (s1, found) = backend_refs route s in
      elim found [ err e ↦ (s1, some e) | ok slices ↦ until_error nudge_slice slices s1 ]

  -- The two loops of the route controller's `Reconcile`.
  unfoldable pub nudge_linked : GwRoute → S → S × Option E
  nudge_linked route s =
      let (s1, failed) = until_error (nudge_parent route.namespace) (parents route) s in
      elim failed [ some e ↦ (s1, some e) | none ↦ nudge_slices route s1 ]

  -- `Reconcile` of the route controller: a route that is being deleted is nudged for as well.
  unfoldable pub reconcile_route : NamespacedName → S → S × Option E
  reconcile_route request s =
      let (s1, got) = cl.get_route s request in
      elim got [
        | err e ↦ (s1, ignore_not_found e)
        | ok route ↦
            let (s2, route', failed) =
              if route.deleting
              then remove_finalizer cl.route_finalizers finalizer_name (s1, route)
              else add_finalizer cl.route_finalizers finalizer_name (s1, route) in
            elim failed [ some e ↦ (s2, some e) | none ↦ nudge_linked route' s2 ]
      ]
