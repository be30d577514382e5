-- ===== src/Remotes/Reconciled.antt =====
-- What the endpoint controller did.
use resource_model.Base.{
  ◌≡◌, ◌⊎◌, inl, inr, true, false, [], map, none, some, arith, Text, text_dec, ok, err,
  Result-cases, Option-cases, Bool-cases,
}
use resource_model.GoMap.{GoMap, lookup}
use resource_model.Finalizers.{add_finalizer, remove_finalizer}
use resource_model.Links.{NamespacedName}
use resource_model.Proxies.{Tunnel, endpoint_tunnels}
use resource_model.Remotes.{
  RemoteEndpoint, LoadBalancer, Client, Fallible, node_of, owner_of, add_proxy_tunnels,
  remove_rep_info, delete_endpoint, serve_endpoint, reconcile_endpoint,
}
use resource_model.Remotes.Tunnels.{IsEntered, endpoint_tunnels-IsEntered}

module _ {S E : Type 0} (cl : Client S E) where
  -- The patch went through: the entry of the node has a proper tunnel for exactly the proxy's nodes.
  abbrev pub IsTunneled : NamespacedName → LoadBalancer → Text → S → Type 0
  IsTunneled key lb node after =
      (base : Tunnel) × (raw : Text) × (before : S) × (new : GoMap Text Tunnel)
      × (cl.patch_load_balancer before key node new raw ≡ (after, none))
      × ((p : Text)
          → IsEntered cl.allocate_id base lb.gue_tunnel_maps node
              (map (λ e. e.1.epic_node_address) lb.proxy_interfaces) p none (lookup text_dec p new))

  add_proxy_tunnels-IsTunneled :
      (key : NamespacedName) (lb : LoadBalancer) (node : Text) (s s' : S)
      → add_proxy_tunnels cl key lb node s ≡ (s', none)
      → IsTunneled key lb node s'
  unfolding add_proxy_tunnels lookup
  add_proxy_tunnels-IsTunneled key lb node s s' e =
      let (s1, raw) = cl.random s in
      let got = cl.get_base (cl.random s).0 in
      elim (Result-cases got.1) [
        | inr (x, bad) ↦ absurd (ground arith)
        | inl (base, good) ↦
            let nodes = map (λ e. e.1.epic_node_address) lb.proxy_interfaces in
            let run = endpoint_tunnels cl.allocate_id base lb.gue_tunnel_maps node nodes got.0 [] in
            elim (Result-cases run.1) [
              | inr (x, bad) ↦ absurd (ground arith)
              | inl (new, made) ↦ (
                base,
                (cl.random s).1,
                run.0,
                new,
                ground arith,
                λ p.
                    endpoint_tunnels-IsEntered cl.allocate_id base lb.gue_tunnel_maps node nodes
                      got.0 run.0 [] new p (ground arith),
              )
            ]
      ]

module _ {S E : Type 0} (cl : Client S E)
    (retry_on_conflict : (S → S × Fallible E) → S → S × Fallible E) (finalizer_name : Text) where
  abbrev pub IsServed : Text → RemoteEndpoint → S → S → Type 0
  IsServed namespace rep s s' =
      let key = owner_of cl namespace rep in
      (lb : LoadBalancer) × (kept : RemoteEndpoint) × (held : S) × ((cl.get_load_balancer s key).1
        ≡ ok lb)
      × (add_finalizer cl.finalizers finalizer_name ((cl.get_load_balancer s key).0, rep)
          ≡ (held, kept, none))
      × IsTunneled cl key lb (node_of kept) s'

  serve_endpoint-IsServed :
      (namespace : Text) (rep : RemoteEndpoint) (s s' : S)
      → serve_endpoint cl retry_on_conflict finalizer_name namespace rep s ≡ (s', none)
      → IsServed namespace rep s s'
  unfolding serve_endpoint
  serve_endpoint-IsServed namespace rep s s' e =
      let key = owner_of cl namespace rep in
      let s1 : S = (cl.get_load_balancer s key).0 in
      elim (Result-cases (cl.get_load_balancer s key).1) [
        | inr (x, bad) ↦ absurd (ground arith)
        | inl (lb, got) ↦
            let run = add_finalizer cl.finalizers finalizer_name (s1, rep) in
            elim (Option-cases run.2) [
              | inr (x, bad) ↦ absurd (ground arith)
              | inl good ↦ (
                lb,
                run.1,
                run.0,
                got,
                ground arith,
                add_proxy_tunnels-IsTunneled cl key lb (node_of run.1) run.0 s' (ground arith),
              )
            ]
      ]

  -- What a run that ended without an error did.
  abbrev pub IsReconciled : NamespacedName → S → S → Type 0
  IsReconciled request s s' =
      let read = cl.get_endpoint s request in
      ((e : E) × (read.1 ≡ err e) × (cl.is_not_found e ≡ true))
      ⊎ ((rep : RemoteEndpoint) × (read.1 ≡ ok rep) × (node_of rep ≡ []) × (s' ≡ read.0))
      ⊎ ((rep : RemoteEndpoint) × (cleaned : S) × (read.1 ≡ ok rep)
          × (rep.deleting ≡ true)
          × (remove_rep_info cl retry_on_conflict finalizer_name (owner_of cl request.namespace rep)
                rep read.0
              ≡ (cleaned, some none))
          × ((remove_finalizer cl.finalizers finalizer_name (cleaned, rep)).0 ≡ s')
          × ((remove_finalizer cl.finalizers finalizer_name (cleaned, rep)).2 ≡ none))
      ⊎ ((rep : RemoteEndpoint) × (read.1 ≡ ok rep)
          × (rep.deleting ≡ false)
          × IsServed request.namespace rep read.0 s')

  -- Where `Reconcile` of an endpoint ends without an error, the endpoint is gone; or it has no node, and
  -- nothing was done; or it is to be deleted, its tunnels were cleaned up and the finalizer was removed,
  -- both without an error; or its load balancer was read, the finalizer was added, and the patch of the
  -- load balancer went through: the entry of the endpoint's node has a tunnel for exactly the nodes of the
  -- proxy, one that was there before is kept, and a new one has the address of the proxy's node.
  pub reconcile_endpoint_lem :
      (request : NamespacedName) (s s' : S)
      → reconcile_endpoint cl retry_on_conflict finalizer_name request s ≡ (s', some none)
      → IsReconciled request s s'
  unfolding reconcile_endpoint delete_endpoint
  reconcile_endpoint_lem request s s' e =
      let s1 : S = (cl.get_endpoint s request).0 in
      elim (Result-cases (cl.get_endpoint s request).1) [
        | inr (x, gone) ↦ elim (Bool-cases (cl.is_not_found x)) [
          | inl is ↦ inl (x, gone, is)
          | inr is ↦ absurd (ground arith)
        ]
        | inl (rep, got) ↦ elim (text_dec (node_of rep) []) [
          | yes empty ↦ inr (inl (rep, got, empty, ground arith))
          | no there ↦ elim (Bool-cases rep.deleting) [
            | inr is ↦ inr (
                inr (
                  inr (
                    rep,
                    got,
                    is,
                    serve_endpoint-IsServed request.namespace rep s1 s' (
                        let run =
                          serve_endpoint cl retry_on_conflict finalizer_name request.namespace rep
                            s1 in
                        ground arith),
                  )))
            | inl is ↦
                let cleaned =
                  remove_rep_info cl retry_on_conflict finalizer_name
                    (owner_of cl request.namespace rep) rep s1 in
                let removed = remove_finalizer cl.finalizers finalizer_name (cleaned.0, rep) in
                elim (Option-cases cleaned.1) [
                  | inl panicked ↦ absurd (ground arith)
                  | inr (info, cleaning) ↦ elim (Option-cases removed.2) [
                    | inr (x, bad) ↦ absurd (ground arith)
                    | inl good ↦
                        inr (inr (inl (rep, cleaned.0, got, is, ground arith, ground arith, good)))
                  ]
                ]
          ]
        ]
      ]
