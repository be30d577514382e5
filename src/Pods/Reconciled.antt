-- ===== src/Pods/Reconciled.antt =====
-- What the pod controller did.
use resource_model.Base.{
  ℕ, ◌≡◌, ◌⊎◌, inl, inr, true, false, [], Option, none, some, arith, Text, text_dec, Option-cases,
  Bool-cases, Result, ok, err, Result-cases,
}
use resource_model.GoMap.{lookup, IsMap}
use resource_model.Finalizers.{add_finalizer}
use resource_model.Links.{NamespacedName}
use resource_model.Proxies.{Tunnel, TunnelMaps, Proxy}
use resource_model.Proxies.Pods.{pod_tunnels, IsAdded, IsLeft, pod_tunnels_lem}
use resource_model.PodLabels.{owning_load_balancer, owning_proxy, has_envoy_labels}
use resource_model.Pods.{
  Pod, LoadBalancer, in_spec, under, proxy_keys, Verdict, try_again, Client, add_tunnels,
  serve_load_balancer, serve_proxy, serve_pod, add_pod, reconcile_pod,
}

module _ {S E : Type 0} (cl : Client S E) where
  -- A patch that went through, with a tunnel to the pod's node for each client node that lacks one.
  abbrev pub IsTunneled : (S → TunnelMaps → S × Option E) → TunnelMaps → Pod → S → Type 0
  IsTunneled patch maps pod after =
      (base : Tunnel) × (before : S) × (new : TunnelMaps) × (patch before new ≡ (after, none))
      × (IsMap text_dec maps
          → (endpoint : Text)
          → IsAdded cl.proxy_id base pod.host_ip (lookup text_dec endpoint maps)
              (lookup text_dec endpoint new)
            ⊎ IsLeft cl.proxy_id base pod.host_ip (lookup text_dec endpoint maps) none
                (lookup text_dec endpoint new))

  add_tunnels-IsTunneled :
      (allocate : S → S × Result E ℕ) (patch : S → TunnelMaps → S × Option E) (maps : TunnelMaps)
      (pod : Pod) (s s' : S)
      → add_tunnels cl allocate patch maps pod s ≡ (s', none)
      → IsTunneled patch maps pod s'
  unfolding add_tunnels
  add_tunnels-IsTunneled allocate patch maps pod s s' e =
      let s1 : S = (cl.get_base s).0 in
      elim (Result-cases (cl.get_base s).1) [
        | inr (x, bad) ↦ absurd (ground arith)
        | inl (base, got) ↦
            let run = pod_tunnels allocate base pod.host_ip maps s1 [] in
            elim (Result-cases run.1) [
              | inr (x, bad) ↦ absurd (ground arith)
              | inl (new, made) ↦ (
                base,
                run.0,
                new,
                ground arith,
                λ map endpoint.
                    pod_tunnels_lem allocate base pod.host_ip maps s1 run.0 new endpoint map
                      (ground arith),
              )
            ]
      ]

module _ {S E : Type 0} (cl : Client S E) (finalizer_name : Text) where
  abbrev key : NamespacedName → Text → NamespacedName
  key request name = record { namespace = request.namespace; name = name }

  -- The load balancer of the name was read, and the tunnels to the pod were patched into its spec.
  abbrev pub IsBalanced : NamespacedName → Pod → Text → S → S → Type 0
  IsBalanced request pod name s s' =
      (lb : LoadBalancer) × ((cl.get_load_balancer s (key request name)).1 ≡ ok lb)
      × IsTunneled cl
          (λ t new.
            cl.patch_load_balancer t (key request name)
              (in_spec (record lb { gue_tunnel_maps = new })))
          lb.gue_tunnel_maps pod s'

  -- The proxy of the name is gone, or it was read and the tunnels to the pod were patched in, but under
  -- the key "proxy", which a proxy does not have.
  abbrev pub IsProxied : NamespacedName → Pod → Text → S → S → Type 0
  IsProxied request pod name s s' =
      ((e : E) × ((cl.get_proxy s (key request name)).1 ≡ err e) × (cl.is_not_found e ≡ true))
      ⊎ ((proxy : Proxy) × ((cl.get_proxy s (key request name)).1 ≡ ok proxy)
          × IsTunneled cl (λ t new. cl.patch_proxy t (key request name) (under proxy_keys new))
              proxy.gue_tunnel_maps pod s')

  -- The pod's owner is a load balancer, or else a proxy.
  abbrev pub IsOwned : NamespacedName → Pod → S → S → Type 0
  IsOwned request pod s s' =
      ((name : Text) × (lookup text_dec owning_load_balancer pod.labels ≡ some name)
        × IsBalanced request pod name s s')
      ⊎ ((name : Text) × (lookup text_dec owning_load_balancer pod.labels ≡ none)
          × (lookup text_dec owning_proxy pod.labels ≡ some name)
          × IsProxied request pod name s s')

  serve_load_balancer-IsBalanced :
      (request : NamespacedName) (pod : Pod) (name : Text) (s s' : S) (v : Verdict)
      → serve_load_balancer cl finalizer_name request pod name s ≡ (s', v, none)
      → IsBalanced request pod name s s'
  unfolding serve_load_balancer
  serve_load_balancer-IsBalanced request pod name s s' v e =
      let s1 : S = (cl.get_load_balancer s (key request name)).0 in
      elim (Result-cases (cl.get_load_balancer s (key request name)).1) [
        | inr (x, bad) ↦ absurd (ground arith)
        | inl (lb, got) ↦
            let patch : S → TunnelMaps → S × Option E = λ t new.
              cl.patch_load_balancer t (key request name)
                (in_spec (record lb { gue_tunnel_maps = new })) in
            let run = add_tunnels cl cl.load_balancer_id patch lb.gue_tunnel_maps pod s1 in
            elim (Option-cases run.1) [
              | inr (x, bad) ↦ absurd (ground arith)
              | inl fine ↦ (
                lb,
                got,
                add_tunnels-IsTunneled cl cl.load_balancer_id patch lb.gue_tunnel_maps pod s1 s'
                    (ground arith),
              )
            ]
      ]

  serve_proxy-IsProxied :
      (request : NamespacedName) (pod : Pod) (name : Text) (s s' : S) (v : Verdict)
      → serve_proxy cl finalizer_name request pod name s ≡ (s', v, none)
      → IsProxied request pod name s s'
  unfolding serve_proxy
  serve_proxy-IsProxied request pod name s s' v e =
      let s1 : S = (cl.get_proxy s (key request name)).0 in
      let patch : S → TunnelMaps → S × Option E =
        λ t new. cl.patch_proxy t (key request name) (under proxy_keys new) in
      elim (Result-cases (cl.get_proxy s (key request name)).1) [
        | inr (x, gone) ↦ elim (Bool-cases (cl.is_not_found x)) [
          | inl absent ↦ inl (x, gone, absent)
          | inr other ↦ absurd (ground arith)
        ]
        | inl (proxy, got) ↦
            let run = add_tunnels cl cl.proxy_id patch proxy.gue_tunnel_maps pod s1 in
            elim (Option-cases run.1) [
              | inr (x, bad) ↦ absurd (ground arith)
              | inl fine ↦ inr (
                proxy,
                got,
                add_tunnels-IsTunneled cl cl.proxy_id patch proxy.gue_tunnel_maps pod s1 s'
                    (ground arith),
              )
            ]
      ]

  serve_pod-IsOwned :
      (request : NamespacedName) (pod : Pod) (s s' : S) (v : Verdict)
      → serve_pod cl finalizer_name request pod s ≡ (s', v, none)
      → IsOwned request pod s s'
  unfolding serve_pod
  serve_pod-IsOwned request pod s s' v e =
      elim (Option-cases (lookup text_dec owning_load_balancer pod.labels)) [
        | inr (name, is) ↦
            inl (name, is, serve_load_balancer-IsBalanced request pod name s s' v (ground arith))
        | inl unowned ↦ elim (Option-cases (lookup text_dec owning_proxy pod.labels)) [
          | inl neither ↦ absurd (ground arith)
          | inr (name, is) ↦
              inr (name, unowned, is, serve_proxy-IsProxied request pod name s s' v (ground arith))
        ]
      ]

  -- What a run without an error did.
  abbrev pub IsReconciled : NamespacedName → S → S → Verdict → Type 0
  IsReconciled request s s' v =
      let read = cl.get_pod s request in
      ((e : E) × (read.1 ≡ err e) × (cl.is_not_found e ≡ true))
      ⊎ ((pod : Pod) × (read.1 ≡ ok pod) × (has_envoy_labels pod.labels ≡ false) × (s' ≡ read.0))
      ⊎ ((pod : Pod) × (read.1 ≡ ok pod)
          × (has_envoy_labels pod.labels ≡ true)
          × (pod.deleting ≡ true))
      ⊎ ((pod : Pod) × (kept : Pod) × (held : S) × (read.1 ≡ ok pod)
          × (has_envoy_labels pod.labels ≡ true)
          × (pod.deleting ≡ false)
          × (add_finalizer cl.finalizers finalizer_name (read.0, pod) ≡ (held, kept, none))
          × (((kept.host_ip ≡ []) × (v ≡ try_again)) ⊎ IsOwned request kept held s'))

  -- Where `Reconcile` of a pod reports no error, the pod is gone; or it is not an Envoy pod, and nothing
  -- was done; or it is one that is to be deleted; or its finalizer was added. In that case it has no host
  -- yet and the request is tried again, or a merge patch went through: to the load balancer that owns it,
  -- with the tunnels in the spec; or else to the proxy that owns it, unless that is gone, with the tunnels
  -- under "spec" under the key "proxy", which is not where a proxy has its spec. The tunnels are one to
  -- the node of the pod for each client node that has tunnels, but none to this node.
  pub reconcile_pod_lem :
      (request : NamespacedName) (s s' : S) (v : Verdict)
      → reconcile_pod cl finalizer_name request s ≡ (s', v, none)
      → IsReconciled request s s' v
  unfolding reconcile_pod add_pod
  reconcile_pod_lem request s s' v e =
      let s1 : S = (cl.get_pod s request).0 in
      elim (Result-cases (cl.get_pod s request).1) [
        | inr (x, gone) ↦ elim (Bool-cases (cl.is_not_found x)) [
          | inl is ↦ inl (x, gone, is)
          | inr is ↦ absurd (ground arith)
        ]
        | inl (pod, got) ↦ elim (Bool-cases (has_envoy_labels pod.labels)) [
          | inr other ↦ inr (inl (pod, got, other, ground arith))
          | inl envoy ↦ elim (Bool-cases pod.deleting) [
            | inl is ↦ inr (inr (inl (pod, got, envoy, is)))
            | inr is ↦
                let run = add_finalizer cl.finalizers finalizer_name (s1, pod) in
                elim (Option-cases run.2) [
                  | inr (x, bad) ↦ absurd (ground arith)
                  | inl added ↦ inr (
                      inr (
                        inr (
                          pod,
                          run.1,
                          run.0,
                          got,
                          envoy,
                          is,
                          ground arith,
                          elim (text_dec run.1.host_ip []) [
                            | yes empty ↦ inl (empty, ground arith)
                            | no there ↦
                                inr (serve_pod-IsOwned request run.1 run.0 s' v (ground arith))
                          ],
                        )))
                ]
          ]
        ]
      ]
