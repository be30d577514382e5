-- ===== src/Remotes.antt =====
-- controllers/remoteendpoint_controller.go with api/v1/remoteendpoint_webhook.go, and
-- `listActiveLBEndpoints` of controllers/loadbalancer_controller.go: the endpoints of a load balancer.
pub mod Tunnels
pub mod Removed
pub mod Reconciled
pub mod Validated
use resource_model.Base.{
  ℕ, ℕ_discrete, Bool, true, false, ◌&&◌, not, List, [], ◌∷◌, map, Option, none, some, Text, text,
  text_dec, ite, if◌then◌else◌, Result, ok, err,
}
use resource_model.GoMap.{GoMap, lookup, insert, delete}
use resource_model.Finalizers.{Library, add_finalizer, remove_finalizer}
use resource_model.Links
use resource_model.Links.{NamespacedName}
use resource_model.Proxies.{Tunnel, TunnelMaps, ProxyInterface, endpoint_tunnels}
use resource_model.PodLabels.{owning_load_balancer}
use resource_model.Admission.Validation.{contains_upstream}
use resource_model.Allocator.Ip.{Ip}
use resource_model.Envoys.Controller.{label_of}

-- `RemoteEndpointSpec`, with the two fields of its port that only the comparison reads.
pub record Spec : Type 0 where
  pub endpoint : Links.RemoteEndpoint
  pub port_name : Text
  pub app_protocol : Option Text

unfoldable pub spec_dec : Discrete Spec
unfolding text_dec ℕ_discrete
spec_dec = hlevel (text_dec, ℕ_discrete)

pub record RemoteEndpoint : Type 0 where
  pub name : Text
  pub deleting : Bool
  pub labels : GoMap Text Text
  pub finalizers : List Text
  pub spec : Spec

-- The load balancer that owns an endpoint. `none` is a nil map of labels.
pub record LoadBalancer : Type 0 where
  pub labels : Option (GoMap Text Text)
  pub upstream_clusters : List Text
  pub proxy_interfaces : GoMap Text ProxyInterface
  pub gue_tunnel_maps : TunnelMaps

abbrev pub node_of : RemoteEndpoint → Text
node_of rep = rep.spec.endpoint.node_address

unfoldable pub active : List RemoteEndpoint → List RemoteEndpoint
active [] = []
active (rep ∷ reps) = let rest = active reps in if rep.deleting then rest else rep ∷ rest

-- The loop of `removeRepInfo`: whether no other endpoint is on the node.
unfoldable pub is_last_on_node : RemoteEndpoint → List RemoteEndpoint → Bool
is_last_on_node rep [] = true
is_last_on_node rep (other ∷ reps) =
    let rest = is_last_on_node rep reps in
    ite (text_dec other.name rep.name) rest
      (ite (text_dec (node_of other) (node_of rep)) false rest)

-- The tunnel maps after `removeRepInfo`.
unfoldable pub without_rep : RemoteEndpoint → List RemoteEndpoint → TunnelMaps → TunnelMaps
without_rep rep reps maps =
    if is_last_on_node rep reps then delete text_dec (node_of rep) maps else maps

-- The Kubernetes client, which belongs to another repository, the random names, and the function that
-- allocates a tunnel ID. The patch has one client node, with its tunnels.
pub record Client (S E : Type 0) : Type 1 where
  pub get_endpoint : S → NamespacedName → S × Result E RemoteEndpoint
  pub get_load_balancer : S → NamespacedName → S × Result E LoadBalancer
  pub update_load_balancer : S → NamespacedName → LoadBalancer → S × Option E
  pub list_endpoints : S → NamespacedName → S × Result E (List RemoteEndpoint)
  pub get_base : S → S × Result E Tunnel
  pub patch_load_balancer : S → NamespacedName → Text → GoMap Text Tunnel → Text → S × Option E
  pub allocate_id : S → S × Result E ℕ
  pub random : S → S × Text
  pub is_not_found : E → Bool
  pub finalizers : Library S RemoteEndpoint E

-- `none` is a run-time panic.
abbrev pub Fallible : Type 0 → Type 0
Fallible E = Option (Option E)

module _ {S E : Type 0} (cl : Client S E) where
  abbrev pub owner_of : Text → RemoteEndpoint → NamespacedName
  owner_of namespace rep = record {
    namespace = namespace;
    name = label_of rep.labels owning_load_balancer;
  }

  -- The end of one try of `removeRepInfo`, with the new label.
  unfoldable pub store_without :
      NamespacedName → RemoteEndpoint → LoadBalancer → List RemoteEndpoint → S → S × Fallible E
  store_without key rep lb reps s =
      let (s1, raw) = cl.random s in
      elim lb.labels [
        | none ↦ (s1, none)
        | some labels ↦
            let (s2, failed) = cl.update_load_balancer s1 key (record lb {
              labels = some (insert text_dec (text "nudge") raw labels);
              gue_tunnel_maps = without_rep rep (active reps) lb.gue_tunnel_maps;
            }) in
            (s2, some failed)
      ]

  -- One try of `removeRepInfo`.
  unfoldable pub try_remove : NamespacedName → RemoteEndpoint → S → S × Fallible E
  try_remove key rep s =
      let (s1, got) = cl.get_load_balancer s key in
      elim got [
        | err e ↦ (s1, some (some e))
        | ok lb ↦
            let (s2, listed) = cl.list_endpoints s1 key in
            elim listed [ err e ↦ (s2, some (some e)) | ok reps ↦ store_without key rep lb reps s2 ]
      ]

  -- `addProxyTunnels`
  unfoldable pub add_proxy_tunnels : NamespacedName → LoadBalancer → Text → S → S × Option E
  add_proxy_tunnels key lb node s =
      let (s1, raw) = cl.random s in
      let (s2, got) = cl.get_base s1 in
      elim got [
        | err e ↦ (s2, some e)
        | ok base ↦
            let (s3, made) =
              endpoint_tunnels cl.allocate_id base lb.gue_tunnel_maps node
                (map (λ e. e.1.epic_node_address) lb.proxy_interfaces) s2 [] in
            elim made [
              | err e ↦ (s3, some e)
              | ok tunnels ↦ cl.patch_load_balancer s3 key node tunnels raw
            ]
      ]

-- `RetryOnConflict`, on functions that may panic.
module _ {S E : Type 0} (cl : Client S E)
    (retry_on_conflict : (S → S × Fallible E) → S → S × Fallible E) (finalizer_name : Text) where
  unfoldable pub remove_rep_info : NamespacedName → RemoteEndpoint → S → S × Fallible E
  remove_rep_info key rep = retry_on_conflict (try_remove cl key rep)

  -- The branch of `Reconcile` for an endpoint that is to be deleted.
  unfoldable pub delete_endpoint : Text → RemoteEndpoint → S → S × Fallible E
  delete_endpoint namespace rep s =
      let (s1, info) = remove_rep_info (owner_of cl namespace rep) rep s in
      elim info [
        | none ↦ (s1, none)
        | some info_error ↦
            let (s2, _, failed) = remove_finalizer cl.finalizers finalizer_name (s1, rep) in
            elim failed [ some e ↦ (s2, some (some e)) | none ↦ (s2, some info_error) ]
      ]

  unfoldable pub serve_endpoint : Text → RemoteEndpoint → S → S × Option E
  serve_endpoint namespace rep s =
      let (s1, got) = cl.get_load_balancer s (owner_of cl namespace rep) in
      elim got [
        | err e ↦ (s1, some e)
        | ok lb ↦
            let (s2, kept, failed) = add_finalizer cl.finalizers finalizer_name (s1, rep) in
            elim failed [
              | some e ↦ (s2, some e)
              | none ↦ add_proxy_tunnels cl (owner_of cl namespace rep) lb (node_of kept) s2
            ]
      ]

  -- `Reconcile`
  unfoldable pub reconcile_endpoint : NamespacedName → S → S × Fallible E
  reconcile_endpoint request s =
      let (s1, got) = cl.get_endpoint s request in
      elim got [
        | err e ↦ (s1, some (if cl.is_not_found e then none else some e))
        | ok rep ↦
            ite (text_dec (node_of rep) []) (s1, some none)
              (if rep.deleting
                then delete_endpoint request.namespace rep s1
                else (let (s2, failed) = serve_endpoint request.namespace rep s1 in
                    (s2, some failed)))
      ]

-- What `ValidateCreate` refuses an endpoint for.
pub data Refusal (E : Type 0) : Type 0 where
  bad_address : Text → Refusal E
  bad_node_address : Text → Refusal E
  client : E → Refusal E
  no_cluster : Text → Refusal E
  duplicate : Text → Refusal E

-- The loop of `ValidateCreate`: the first endpoint with the same spec.
unfoldable pub same_spec : Spec → List RemoteEndpoint → Option RemoteEndpoint
same_spec spec [] = none
same_spec spec (rep ∷ reps) =
    let rest = same_spec spec reps in ite (spec_dec spec rep.spec) (some rep) rest

module _ {S E : Type 0} (cl : Client S E) (parse_ip : Text → Option Ip) where
  abbrev pub can_parse : Text → Bool
  can_parse t = elim (parse_ip t) [ none ↦ false | some ip ↦ true ]

  unfoldable pub check_owner : Text → RemoteEndpoint → S → S × Option (Refusal E)
  check_owner namespace rep s =
      let (s1, got) = cl.get_load_balancer s (owner_of cl namespace rep) in
      elim got [
        | err e ↦ (s1, some (client e))
        | ok lb ↦
            if contains_upstream rep.spec.endpoint.cluster lb.upstream_clusters
            then (let (s2, listed) = cl.list_endpoints s1 (owner_of cl namespace rep) in
                elim listed [
                  | err e ↦ (s2, some (client e))
                  | ok reps ↦ elim (same_spec rep.spec reps) [
                    | none ↦ (s2, none)
                    | some other ↦ (s2, some (duplicate other.name))
                  ]
                ])
            else (s1, some (no_cluster rep.spec.endpoint.cluster))
      ]

  -- `ValidateCreate`
  unfoldable pub validate_create : Text → RemoteEndpoint → S → S × Option (Refusal E)
  validate_create namespace rep s =
      if can_parse rep.spec.endpoint.address
      then ite (text_dec (node_of rep) []) (check_owner namespace rep s) (
          if can_parse (node_of rep)
          then check_owner namespace rep s
          else (s, some (bad_node_address (node_of rep))))
      else (s, some (bad_address rep.spec.endpoint.address))
