-- ===== src/Agents/Reconciled.antt =====
-- What the agent did where it reports no error.
use resource_model.Base.{
  ◌≡◌, refl, ap, subst, ◌⊎◌, inl, inr, true, false, List, [], ◌∷◌, Option, none, some, arith, In,
  Text, Option-cases, Bool-cases, ok, err, Result-cases,
}
use resource_model.GoMap.{GoMap}
use resource_model.Finalizers.{add_finalizer, remove_finalizer}
use resource_model.Links.{
  NamespacedName, GwRoute, GwEndpointSlice, RemoteEndpoint, active_proxy_endpoints,
}
use resource_model.Allocator.Ip.{Ip}
use resource_model.Allocator.Allocations.{AddressPool}
use resource_model.Envoys.{Prefix, Epic}
use resource_model.Agents.{
  Interface, GwProxy, Client, is_mine, commands_for, has_proxy, run_all, cleanup_linux, clean_up,
  delete_proxy, finish, set_up, serve_proxy, read_stack, reconcile_agent,
}
use resource_model.Agents.Commands.{IsMine, is_mine-IsMine}

-- `hasProxy` is set exactly if an interface of the proxy with a name is on the node.
has_proxy-IsMine :
    (me : Text) (interfaces : GoMap Text Interface)
    → ((has_proxy me interfaces ≡ true)
        × ((name : Text) × (info : Interface) × In (name, info) interfaces × IsMine me info))
      ⊎ ((has_proxy me interfaces ≡ false)
          × ((name : Text) (info : Interface) → In (name, info) interfaces → ¬ IsMine me info))
unfolding has_proxy
has_proxy-IsMine me [] = inr (refl, λ name info i. absurd i)
has_proxy-IsMine me ((x, info) ∷ interfaces) =
    let (is, isnt) = is_mine-IsMine me info in
    elim (Bool-cases (is_mine me info)) [
      | inl mine ↦ inl (ground arith, (x, info, inl refl, is mine))
      | inr other ↦ elim (has_proxy-IsMine me interfaces) [
        | inl (e, (name, i, j, m)) ↦ inl (ground arith, (name, i, inr j, m))
        | inr (e, never) ↦ inr (
          ground arith,
          λ name i j m. elim j [
            | inl same ↦
                let mine = isnt (subst (IsMine me) (ap (λ (e : Text × Interface). e.1) same) m) in
                absurd (ground arith)
            | inr k ↦ never name i k m
          ],
        )
      ]
    ]

module _ {S E : Type 0} (cl : Client S E) (finalizer_name : Text) where
  -- The traces of the proxy are removed: those of its public address, by the public pool, and after that
  -- those of its alternative address, if it has one, by the alternative pool.
  abbrev pub IsCleaned : Prefix → GwProxy → Ip → Option Ip → S → S → Type 0
  IsCleaned sp proxy public alt s s' =
      (pool : AddressPool) × (sp.public_pool ≡ some pool)
      × (((alt ≡ none) × (s' ≡ cl.cleanup s sp.name pool proxy public))
          ⊎ ((ip : Ip) × (other : AddressPool) × (alt ≡ some ip)
              × (sp.alt_pool ≡ some other)
              × (s' ≡ cl.cleanup (cl.cleanup s sp.name pool proxy public) sp.name other proxy ip)))

  clean_up-IsCleaned :
      (sp : Prefix) (proxy : GwProxy) (public : Ip) (alt : Option Ip) (s s' : S)
      → clean_up cl finalizer_name sp proxy public alt s ≡ (s', none)
      → IsCleaned sp proxy public alt s s'
  unfolding clean_up cleanup_linux
  clean_up-IsCleaned sp proxy public alt s s' e = elim (Option-cases sp.public_pool) [
    | inl lacks ↦ absurd (ground arith)
    | inr (pool, has) ↦ elim (Option-cases alt) [
      | inl no_alt ↦ (pool, has, inl (no_alt, ground arith))
      | inr (ip, is) ↦ elim (Option-cases sp.alt_pool) [
        | inl lacks ↦ absurd (ground arith)
        | inr (other, has') ↦ (pool, has, inr (ip, other, is, has', ground arith))
      ]
    ]
  ]

  -- The last step: the ports are opened where an Envoy of the proxy is on the node, and else the traces
  -- of the proxy are removed.
  abbrev pub IsFinished : Prefix → GwProxy → Ip → Option Ip → Text → S → S → Type 0
  IsFinished sp proxy public alt me s s' =
      (((name : Text) × (info : Interface) × In (name, info) proxy.proxy_interfaces
          × IsMine me info)
        × (cl.add_ipset_entry s proxy ≡ (s', none)))
      ⊎ (((name : Text) (info : Interface)
            → In (name, info) proxy.proxy_interfaces
            → ¬ IsMine me info)
          × IsCleaned sp proxy public alt s s')

  finish-IsFinished :
      (sp : Prefix) (proxy : GwProxy) (public : Ip) (alt : Option Ip) (me : Text) (s s' : S)
      → finish cl finalizer_name sp proxy public alt me s ≡ (s', none)
      → IsFinished sp proxy public alt me s s'
  unfolding finish
  finish-IsFinished sp proxy public alt me s s' e =
      elim (has_proxy-IsMine me proxy.proxy_interfaces) [
        | inr (none_here, never) ↦
            inr (never, clean_up-IsCleaned sp proxy public alt s s' (ground arith))
        | inl (here, mine) ↦ elim (Option-cases (cl.add_ipset_entry s proxy).1) [
          | inl good ↦ inl (mine, ground arith)
          | inr (x, bad) ↦ absurd (ground arith)
        ]
      ]

  -- The commands for the endpoints in the lists that were read are run, and then the last step.
  abbrev pub IsServed : Prefix → Epic → GwProxy → Ip → Option Ip → S → S → Type 0
  IsServed sp epic proxy public alt s s' =
      (kept : GwProxy) × (s1 : S) × (routes : List GwRoute) × (slices : List GwEndpointSlice)
      × (reps : List RemoteEndpoint) × (me : Text) × (s2 : S) × (add_finalizer cl.finalizers
            finalizer_name (s, proxy)
          ≡ (s1, kept, none))
      × ((cl.list_routes s1 kept.namespace).1 ≡ ok routes)
      × ((cl.list_slices (cl.list_routes s1 kept.namespace).0 kept.namespace).1 ≡ ok slices)
      × (active_proxy_endpoints (record { namespace = kept.namespace; name = kept.name }) routes
            slices
          ≡ some reps)
      × (cl.my_address (cl.list_slices (cl.list_routes s1 kept.namespace).0 kept.namespace).0 epic
          ≡ (s2, ok me))
      × IsFinished sp kept public alt me
          (run_all cl finalizer_name
            (commands_for me kept.gue_tunnel_maps reps kept.proxy_interfaces) s2)
          s'

  serve_proxy-IsServed :
      (sp : Prefix) (epic : Epic) (proxy : GwProxy) (public : Ip) (alt : Option Ip) (s s' : S)
      → serve_proxy cl finalizer_name sp epic proxy public alt s ≡ (s', none)
      → IsServed sp epic proxy public alt s s'
  unfolding serve_proxy set_up
  serve_proxy-IsServed sp epic proxy public alt s s' e =
      let added = add_finalizer cl.finalizers finalizer_name (s, proxy) in
      let kept : GwProxy = added.1 in
      let key : NamespacedName = record { namespace = kept.namespace; name = kept.name } in
      let one = cl.list_routes added.0 kept.namespace in
      let two = cl.list_slices one.0 kept.namespace in
      let mine = cl.my_address two.0 epic in
      elim (Option-cases added.2) [
        | inr (x, bad) ↦ absurd (ground arith)
        | inl fine ↦ elim (Result-cases one.1) [
          | inr (x, bad) ↦ absurd (ground arith)
          | inl (routes, listed) ↦ elim (Result-cases two.1) [
            | inr (x, bad) ↦ absurd (ground arith)
            | inl (slices, listed') ↦
                elim (Option-cases (active_proxy_endpoints key routes slices)) [
                  | inl panicked ↦ absurd (ground arith)
                  | inr (reps, found) ↦ elim (Result-cases mine.1) [
                    | inr (x, bad) ↦ absurd (ground arith)
                    | inl (me, here) ↦
                        let after : S =
                          run_all cl finalizer_name
                            (commands_for me kept.gue_tunnel_maps reps kept.proxy_interfaces)
                            mine.0 in
                        let last : finish cl finalizer_name sp kept public alt me after
                            ≡ (s', none) =
                          ground arith in
                        (
                          kept,
                          added.0,
                          routes,
                          slices,
                          reps,
                          me,
                          mine.0,
                          ground arith,
                          listed,
                          listed',
                          found,
                          ground arith,
                          finish-IsFinished sp kept public alt me after s' last,
                        )
                  ]
                ]
          ]
        ]
      ]

  -- What a run without an error did.
  abbrev pub IsReconciled : NamespacedName → S → S → Type 0
  IsReconciled request s s' =
      let read = cl.get_proxy s request in
      ((e : E) × (read.1 ≡ err e) × (cl.is_not_found e ≡ true) × (s' ≡ read.0))
      ⊎ ((proxy : GwProxy) × (sp : Prefix) × (epic : Epic) × (public : Ip) × (s2 : S) × (read.1
            ≡ ok proxy)
          × (read_stack cl finalizer_name request proxy read.0 ≡ (s2, ok (sp, epic)))
          × (cl.parse_ip proxy.public_address ≡ some public)
          × (((proxy.deleting ≡ true)
                × ((cleaned : S) × IsCleaned sp proxy public (cl.parse_ip proxy.alt_address) s2
                      cleaned
                    × ((remove_finalizer cl.finalizers finalizer_name (cleaned, proxy)).0 ≡ s')
                    × ((remove_finalizer cl.finalizers finalizer_name (cleaned, proxy)).2 ≡ none)))
              ⊎ ((proxy.deleting ≡ false)
                  × IsServed sp epic proxy public (cl.parse_ip proxy.alt_address) s2 s')))

  delete_proxy-IsCleaned :
      (sp : Prefix) (proxy : GwProxy) (public : Ip) (alt : Option Ip) (s s' : S)
      → delete_proxy cl finalizer_name sp proxy public alt s ≡ (s', none)
      → (cleaned : S) × IsCleaned sp proxy public alt s cleaned
        × ((remove_finalizer cl.finalizers finalizer_name (cleaned, proxy)).0 ≡ s')
        × ((remove_finalizer cl.finalizers finalizer_name (cleaned, proxy)).2 ≡ none)
  unfolding delete_proxy
  delete_proxy-IsCleaned sp proxy public alt s s' e =
      let run = clean_up cl finalizer_name sp proxy public alt s in
      elim (Option-cases run.1) [
        | inr (x, bad) ↦ absurd (ground arith)
        | inl fine ↦
            let removed = remove_finalizer cl.finalizers finalizer_name (run.0, proxy) in
            elim (Option-cases removed.2) [
              | inr (x, bad) ↦ absurd (ground arith)
              | inl good ↦ (
                run.0,
                clean_up-IsCleaned sp proxy public alt s run.0 (ground arith),
                ground arith,
                good,
              )
            ]
      ]

  -- Where the agent's `Reconcile` of a proxy reports no error, the proxy is gone. Or the objects above it
  -- and its public address could be read, and it is to be deleted: its traces on the node were removed,
  -- and then the finalizer. Or the finalizer was added, and the commands were run for the endpoints of
  -- the proxy, in the lists that were read; after that, the ports were opened if an interface of the
  -- proxy with a name is on the node, and its traces were removed if there is none. The traces are those
  -- of the public address and of the alternative one, if the proxy has one that can be read, both as
  -- they were before the finalizer was added, and each has its pool, which is not nil.
  pub reconcile_agent_lem :
      (request : NamespacedName) (s s' : S)
      → reconcile_agent cl finalizer_name request s ≡ (s', none)
      → IsReconciled request s s'
  unfolding reconcile_agent
  reconcile_agent_lem request s s' e =
      let read = cl.get_proxy s request in
      elim (Result-cases read.1) [
        | inr (x, gone) ↦ elim (Bool-cases (cl.is_not_found x)) [
          | inl is ↦ inl (x, gone, is, ground arith)
          | inr is ↦ absurd (ground arith)
        ]
        | inl (proxy, got) ↦
            let stack = read_stack cl finalizer_name request proxy read.0 in
            elim (Result-cases stack.1) [
              | inr (x, bad) ↦ absurd (ground arith)
              | inl ((sp, epic), above) ↦ elim (Option-cases (cl.parse_ip proxy.public_address)) [
                | inl bad ↦ absurd (ground arith)
                | inr (public, parsed) ↦ elim (Bool-cases proxy.deleting) [
                  | inl is ↦
                      let alt = cl.parse_ip proxy.alt_address in
                      let deleted : delete_proxy cl finalizer_name sp proxy public alt stack.0
                          ≡ (s', none) =
                        ground arith in
                      inr (
                        proxy,
                        sp,
                        epic,
                        public,
                        stack.0,
                        got,
                        ground arith,
                        parsed,
                        inl (is, delete_proxy-IsCleaned sp proxy public alt stack.0 s' deleted),
                      )
                  | inr is ↦
                      let alt = cl.parse_ip proxy.alt_address in
                      let served : serve_proxy cl finalizer_name sp epic proxy public alt stack.0
                          ≡ (s', none) =
                        ground arith in
                      inr (
                        proxy,
                        sp,
                        epic,
                        public,
                        stack.0,
                        got,
                        ground arith,
                        parsed,
                        inr (is, serve_proxy-IsServed sp epic proxy public alt stack.0 s' served),
                      )
                ]
              ]
            ]
      ]
