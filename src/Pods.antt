-- ===== src/Pods.antt =====
-- controllers/pod_controller.go, and `RemoveProxyInfo` and `RemovePodInfo` of api/v1/gwproxy_types.go
-- with their calls of the client.
pub mod Reconciled
pub mod Deleted
use resource_model.Base.{
  ℕ, Bool, true, false, List, [], ◌∷◌, Option, none, some, Text, text, text_dec, ite, if◌then◌else◌,
  Result, ok, err,
}
use resource_model.GoMap.{GoMap, lookup}
use resource_model.Finalizers.{Library, add_finalizer, remove_finalizer}
use resource_model.Links.{NamespacedName}
use resource_model.Proxies.{Tunnel, TunnelMaps, Proxy, remove_proxy_info}
use resource_model.Proxies.Pods.{pod_tunnels}
use resource_model.PodLabels.{owning_load_balancer, owning_proxy, has_envoy_labels}

-- A pod, with what its controller reads.
pub record Pod : Type 0 where
  pub namespace : Text
  pub name : Text
  pub deleting : Bool
  pub labels : GoMap Text Text
  pub host_ip : Text

pub data Verdict : Type 0 where
  done try_again : Verdict

pub data Error (E : Type 0) : Type 0 where
  client : E → Error E
  not_owned : Text → Error E

-- `LoadBalancerSpec`, with the fields that the controller reads, which its patch has as well.
pub record LoadBalancer : Type 0 where
  pub gue_tunnel_maps : TunnelMaps
  pub true_ingress : Bool

-- The document of a merge patch: a load balancer that has just these fields in its spec, or the tunnel
-- maps in objects one within the other, under these keys.
pub data Document : Type 0 where
  in_spec : LoadBalancer → Document
  under : List Text → TunnelMaps → Document

-- The keys in the patch of `addProxyTunnels`.
abbrev pub proxy_keys : List Text
proxy_keys = text "proxy" ∷ text "spec" ∷ text "gue-tunnel-endpoints" ∷ []

-- The Kubernetes client, which belongs to another repository, and the two functions that allocate a
-- tunnel ID. Of the singleton the controller reads the tunnel.
pub record Client (S E : Type 0) : Type 1 where
  pub get_pod : S → NamespacedName → S × Result E Pod
  pub get_load_balancer : S → NamespacedName → S × Result E LoadBalancer
  pub get_proxy : S → NamespacedName → S × Result E Proxy
  pub update_proxy : S → NamespacedName → Proxy → S × Option E
  pub get_base : S → S × Result E Tunnel
  pub patch_load_balancer : S → NamespacedName → Document → S × Option E
  pub patch_proxy : S → NamespacedName → Document → S × Option E
  pub load_balancer_id : S → S × Result E ℕ
  pub proxy_id : S → S × Result E ℕ
  pub retry_on_conflict : (S → S × Option E) → S → S × Option E
  pub is_not_found : E → Bool
  pub finalizers : Library S Pod E

module _ {S E : Type 0} (cl : Client S E) where
  abbrev pub ignore_not_found : E → Option E
  ignore_not_found e = if cl.is_not_found e then none else some e

  -- The end of one try of the two functions that remove the information on a pod.
  abbrev update_info : NamespacedName → Text → Proxy → S → S × Option E
  update_info name pod proxy s = elim (remove_proxy_info pod proxy) [
    | none ↦ (s, none)
    | some changed ↦ cl.update_proxy s name changed
  ]

  unfoldable pub try_remove_proxy : NamespacedName → Text → S → S × Option E
  try_remove_proxy name pod s =
      let (s1, got) = cl.get_proxy s name in
      elim got [ err e ↦ (s1, ignore_not_found e) | ok proxy ↦ update_info name pod proxy s1 ]

  -- `RemovePodInfo` reads a proxy as well.
  unfoldable pub try_remove_pod : NamespacedName → Text → S → S × Option E
  try_remove_pod name pod s =
      let (s1, got) = cl.get_proxy s name in
      elim got [ err e ↦ (s1, some e) | ok proxy ↦ update_info name pod proxy s1 ]

  unfoldable pub remove_proxy : NamespacedName → Text → S → S × Option E
  remove_proxy name pod = cl.retry_on_conflict (try_remove_proxy name pod)

  unfoldable pub remove_pod : NamespacedName → Text → S → S × Option E
  remove_pod name pod = cl.retry_on_conflict (try_remove_pod name pod)

  -- `addPodTunnels` and `addProxyTunnels`: the tunnels to the pod's node that the maps lack.
  unfoldable pub add_tunnels :
      (S → S × Result E ℕ) → (S → TunnelMaps → S × Option E) → TunnelMaps → Pod → S → S × Option E
  add_tunnels allocate patch maps pod s =
      let (s1, got) = cl.get_base s in
      elim got [
        | err e ↦ (s1, some e)
        | ok base ↦
            let (s2, made) = pod_tunnels allocate base pod.host_ip maps s1 [] in
            elim made [ err e ↦ (s2, some e) | ok new ↦ patch s2 new ]
      ]

  abbrev pub owner : Pod → Text → NamespacedName
  owner pod name = record { namespace = pod.namespace; name = name }

  -- The clean-up for a pod that is to be deleted: the error of the second call replaces that of the
  -- first.
  unfoldable pub remove_info : Pod → S → S × Option E
  remove_info pod s =
      let first : S × Option E = elim (lookup text_dec owning_load_balancer pod.labels) [
        | none ↦ (s, none)
        | some lb ↦ remove_pod (owner pod lb) pod.name s
      ] in
      elim (lookup text_dec owning_proxy pod.labels) [
        | none ↦ first
        | some proxy ↦ remove_proxy (owner pod proxy) pod.name first.0
      ]

module _ {S E : Type 0} (cl : Client S E) (finalizer_name : Text) where
  abbrev Outcome : Type 0
  Outcome = S × Verdict × Option (Error E)

  abbrev finished : S × Option E → Outcome
  finished (s, none) = (s, done, none)
  finished (s, some e) = (s, done, some (client e))

  -- The branch of `Reconcile` for a pod that is to be deleted: the finalizer is removed whatever the
  -- clean-up did, and an error of the clean-up is reported after that.
  unfoldable pub delete_pod : Pod → S → Outcome
  delete_pod pod s =
      let (s1, info) = remove_info cl pod s in
      let (s2, _, failed) = remove_finalizer cl.finalizers finalizer_name (s1, pod) in
      elim failed [ some e ↦ (s2, done, some (client e)) | none ↦ finished (s2, info) ]

  unfoldable pub serve_load_balancer : NamespacedName → Pod → Text → S → Outcome
  serve_load_balancer request pod name s =
      let key : NamespacedName = record { namespace = request.namespace; name = name } in
      let (s1, got) = cl.get_load_balancer s key in
      elim got [
        | err e ↦ (s1, done, some (client e))
        | ok lb ↦ finished (
            add_tunnels cl cl.load_balancer_id
              (λ t new.
                cl.patch_load_balancer t key (in_spec (record lb { gue_tunnel_maps = new })))
              lb.gue_tunnel_maps pod s1)
      ]

  unfoldable pub serve_proxy : NamespacedName → Pod → Text → S → Outcome
  serve_proxy request pod name s =
      let key : NamespacedName = record { namespace = request.namespace; name = name } in
      let (s1, got) = cl.get_proxy s key in
      elim got [
        | err e ↦ finished (s1, ignore_not_found cl e)
        | ok proxy ↦ finished (
            add_tunnels cl cl.proxy_id (λ t new. cl.patch_proxy t key (under proxy_keys new))
              proxy.gue_tunnel_maps pod s1)
      ]

  -- The branches for a pod with a host, by its owner.
  unfoldable pub serve_pod : NamespacedName → Pod → S → Outcome
  serve_pod request pod s = elim (lookup text_dec owning_load_balancer pod.labels) [
    | some lb ↦ serve_load_balancer request pod lb s
    | none ↦ elim (lookup text_dec owning_proxy pod.labels) [
      | some proxy ↦ serve_proxy request pod proxy s
      | none ↦ (s, done, some (not_owned pod.name))
    ]
  ]

  unfoldable pub add_pod : NamespacedName → Pod → S → Outcome
  add_pod request pod s =
      let (s1, pod', failed) = add_finalizer cl.finalizers finalizer_name (s, pod) in
      elim failed [
        | some e ↦ (s1, done, some (client e))
        | none ↦ ite (text_dec pod'.host_ip []) (s1, try_again, none) (serve_pod request pod' s1)
      ]

  -- `Reconcile`
  unfoldable pub reconcile_pod : NamespacedName → S → Outcome
  reconcile_pod request s =
      let (s1, got) = cl.get_pod s request in
      elim got [
        | err e ↦ finished (s1, ignore_not_found cl e)
        | ok pod ↦
            if has_envoy_labels pod.labels
            then (if pod.deleting then delete_pod pod s1 else add_pod request pod s1)
            else (s1, done, none)
      ]
