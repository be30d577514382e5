-- ===== src/Tests/Links.antt =====
-- A proxy with a route to a slice, and the controllers that nudge.
use resource_model.Base.{
  ℕ, ◌+◌, ◌≡◌, refl, false, List, [], ◌∷◌, Option, none, some, Text, text, text_dec, ite, Result,
  ok, err, ◌==◌, trim_prefix?, until_error,
}
use resource_model.GoMap.{GoMap, lookup, insert}
use resource_model.Finalizers.{Library, add_finalizer, try_change}
use resource_model.Links.{
  NamespacedName, GwRoute, GwEndpointSlice, parents, backends, refers_to, is_child_of, append_each,
  first_port, remote_endpoint, slice_endpoints, cluster_endpoints, route_endpoints,
  active_proxy_endpoints,
}
use resource_model.Links.Joined.{IsJoin, active_proxy_endpoints_lem}
use resource_model.Nudges.{
  Client, GwProxy, Operation, object, string, nudge, nudge_proxy, nudge_slice, get_parents,
  get_referencing, get_from_routes, referencing_proxies, nudge_referencing, reconcile_slice,
  nudge_parent, slices_of, active_slices, backend_refs, nudge_slices, nudge_linked, reconcile_route,
}
use resource_model.Nudges.Patches.{IsJsonPatch}
use resource_model.Nudges.Slices.{IsDone, reconcile_slice_lem}
use resource_model.Nudges.Routes.{IsRouteDone, reconcile_route_lem}

abbrev gateway : NamespacedName
gateway = record { namespace = text "ns"; name = text "gw" }

-- The second parent does not exist.
abbrev route : GwRoute
route = record {
  namespace = text "ns";
  name = text "r";
  deleting = false;
  http =
      some (record { parent_refs = text "gw" ∷ text "gone" ∷ []; rules = (text "c1" ∷ []) ∷ [] });
  tcp = none;
}

abbrev slice : GwEndpointSlice
slice = record {
  namespace = text "ns";
  name = text "s";
  deleting = false;
  annotations = none;
  parent_uid = text "c1";
  endpoints = record { addresses = text "10.1.0.1" ∷ []; node_name = some (text "n1") } ∷ [];
  ports = record { port = some 80; protocol = some (text "TCP") } ∷ [];
  node_addresses = (text "n1", text "192.168.0.1") ∷ [];
}

active_example :
    active_proxy_endpoints gateway (route ∷ []) (slice ∷ [])
    ≡ some (
        record {
          cluster = text "c1";
          address = text "10.1.0.1";
          node_address = text "192.168.0.1";
          port = 80;
          protocol = text "TCP";
        }
        ∷ [])
unfolding active_proxy_endpoints route_endpoints is_child_of refers_to parents backends append_each
    cluster_endpoints slice_endpoints remote_endpoint first_port lookup text_dec
active_example = refl

active_proxy_endpoints_lem_example :
    IsJoin gateway
      (route ∷ [])
      (slice ∷ [])
      (active_proxy_endpoints gateway (route ∷ []) (slice ∷ []))
active_proxy_endpoints_lem_example = active_proxy_endpoints_lem gateway (route ∷ []) (slice ∷ [])

abbrev proxy : GwProxy
proxy = record { namespace = text "ns"; name = text "gw"; annotations = some [] }

abbrev finalizers : {O : Type 0} → O → Library ℕ O ℕ
finalizers o = record {
  get = λ s. (s, ok o);
  update = λ s o'. (s + 1, o', none);
  contains_finalizer = λ o' n. false;
  add_finalizer = λ o' n. o';
  remove_finalizer = λ o' n. o';
  retry_on_conflict = λ f p. f p;
}

-- The state counts the writes, and 404 is the error for an object that is not there.
abbrev client : Client ℕ ℕ
client = record {
  get_route = λ s n. (s, ok route);
  get_slice = λ s n. (s, ok slice);
  get_proxy = λ s n. (s, ite (text_dec n.name (text "gw")) (ok proxy) (err 404));
  list_routes = λ s n. (s, ok (route ∷ []));
  list_slices = λ s n. (s, ok (slice ∷ []));
  patch_proxy = λ s p ops. (s + 1, none);
  patch_slice = λ s p ops. (s + 1, none);
  random = λ s. (s, text "00");
  is_not_found = λ e. e == 404;
  slice_finalizers = finalizers slice;
  route_finalizers = finalizers route;
}

reconcile_slice_lem_example : IsDone client gateway 0 2
unfolding reconcile_slice nudge_referencing referencing_proxies get_from_routes get_referencing
    get_parents until_error nudge add_finalizer try_change parents backends text_dec
reconcile_slice_lem_example = reconcile_slice_lem client gateway 0 2 refl

reconcile_route_lem_example : IsRouteDone client gateway 0
unfolding reconcile_route nudge_linked nudge_slices backend_refs active_slices slices_of
    nudge_parent until_error nudge_proxy nudge_slice add_finalizer try_change parents backends
    text_dec
reconcile_route_lem_example = reconcile_route_lem client gateway 0 3 refl

-- The two forms of patches that are used.
abbrev patched : List Operation → Option (GoMap Text Text) → Result ℕ (Option (GoMap Text Text))
patched [] before = err 0
patched (o ∷ rest) before = elim o.value [
  | object m ↦ ok (some m)
  | string v ↦ elim before [
    | none ↦ err 0
    | some m ↦ elim (trim_prefix? (text "/metadata/annotations/") o.path) [
      | none ↦ err 0
      | some k ↦ ok (some (insert text_dec k v m))
    ]
  ]
]

patched-IsJsonPatch : IsJsonPatch patched
unfolding trim_prefix?
patched-IsJsonPatch = record {
  add_annotations = λ before m. refl;
  add_member = λ m k v plain. refl;
}

abbrev before : GoMap Text Text
before = (text "owner", text "epic") ∷ []
