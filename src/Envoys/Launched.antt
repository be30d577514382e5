-- ===== src/Envoys/Launched.antt =====
-- What the load balancer controller did where it reports no error.
use resource_model.Base.{
  ◌≡◌, refl, ◌⊎◌, inl, inr, true, false, Option, none, some, arith, Text, text, Option-cases,
  Bool-cases, Result, ok, err, Result-cases, contains,
}
use resource_model.Links.{NamespacedName}
use resource_model.Finalizers.{remove_finalizer}
use resource_model.Allocator.Allocations.{Allocator, unassign}
use resource_model.Prefixes.{namespaced}
use resource_model.Objects.{deployment}
use resource_model.Envoys.{
  LoadBalancer, ServiceGroup, Prefix, Epic, Failure, Network, Deployment, deployment_for_lb,
}
use resource_model.Envoys.Controller.{
  Client, try_update, update_deployment, launch, read_stack, launch_envoy, delete_load_balancer,
  reconcile_load_balancer, envoy_image,
}

module _ {S E A N : Type 0} (cl : Client S E) (net : Network A N) (finalizer_name : Text) where
  -- `RetryOnConflict` calls the function at least once and returns what its last call returned.
  abbrev pub Retries : Type 0
  Retries = (f : S → S × Option E) (s : S) → (t : S) × (cl.retry_on_conflict f s ≡ f t)

  -- The deployment was created; or there is one of its name, and an update stored its spec there.
  abbrev pub IsLaunched : Deployment → Type 0
  IsLaunched dep =
      (before : S) × (after : S) × ((cl.create before (deployment dep.0 dep.1) ≡ (after, none))
        ⊎ ((e : E) × (cl.create before (deployment dep.0 dep.1) ≡ (after, some e))
            × (contains (text "already exists") (cl.message e) ≡ true)
            × ((t : S) × (stored : S) × (existing : Deployment) × ((cl.get_deployment t
                    (record { namespace = dep.0.namespace; name = dep.0.name })).1
                  ≡ ok existing)
                × (cl.update
                      (cl.get_deployment t
                        (record { namespace = dep.0.namespace; name = dep.0.name })).0
                      (deployment existing.0 dep.1)
                    ≡ (stored, none)))))

  launch-IsLaunched :
      Retries
      → (made : Result Failure Deployment) (s s' : S)
      → launch cl net finalizer_name made s ≡ (s', none)
      → (dep : Deployment) × (made ≡ ok dep) × IsLaunched dep
  unfolding launch update_deployment try_update
  launch-IsLaunched retries (err x) s s' e = absurd (ground arith)
  launch-IsLaunched retries (ok dep) s s' e =
      let s1 : S = (cl.create s (deployment dep.0 dep.1)).0 in
      elim (Option-cases (cl.create s (deployment dep.0 dep.1)).1) [
        | inl made ↦ (dep, refl, (s, s1, inl (ground arith)))
        | inr (x, failed) ↦ elim (Bool-cases (contains (text "already exists") (cl.message x))) [
          | inr other ↦ absurd (ground arith)
          | inl there ↦
              let try = try_update cl net finalizer_name dep.0 dep.1 in
              elim (Option-cases (cl.retry_on_conflict try s1).1) [
                | inr (y, bad) ↦ absurd (ground arith)
                | inl good ↦
                    let (t, last) = retries try s1 in
                    let name : NamespacedName = record {
                      namespace = dep.0.namespace;
                      name = dep.0.name;
                    } in
                    elim (Result-cases (cl.get_deployment t name).1) [
                      | inr (y, bad) ↦ absurd (ground arith)
                      | inl (existing, got) ↦ (
                        dep,
                        refl,
                        (
                          s,
                          s1,
                          inr (
                            x,
                            ground arith,
                            there,
                            (
                              t,
                              (cl.update (cl.get_deployment t name).0
                                  (deployment existing.0 dep.1)).0,
                              existing,
                              got,
                              ground arith,
                            ),
                          ),
                        ),
                      )
                    ]
              ]
        ]
      ]

  -- What `launch_envoy` did where it reports no error.
  abbrev pub IsServed : NamespacedName → LoadBalancer → S → Type 0
  IsServed request lb s =
      (sg : ServiceGroup) × (sp : Prefix) × (epic : Epic) × (dep : Deployment) × ((read_stack cl net
          finalizer_name request lb s).1
        ≡ ok (sg, sp, epic))
      × (deployment_for_lb net lb sp (envoy_image cl net finalizer_name sg epic) epic.service_cidr
          ≡ ok dep)
      × IsLaunched dep

  launch_envoy-IsServed :
      Retries
      → (request : NamespacedName) (lb : LoadBalancer) (s s' : S)
      → launch_envoy cl net finalizer_name request lb s ≡ (s', none)
      → IsServed request lb s
  unfolding launch_envoy
  launch_envoy-IsServed retries request lb s s' e =
      let (s1, stack) = read_stack cl net finalizer_name request lb s in
      elim (Result-cases (read_stack cl net finalizer_name request lb s).1) [
        | inr (x, bad) ↦ absurd (ground arith)
        | inl ((sg, sp, epic), read) ↦
            let (dep, made, launched) =
              launch-IsLaunched retries
                (deployment_for_lb net lb sp (envoy_image cl net finalizer_name sg epic)
                  epic.service_cidr)
                (read_stack cl net finalizer_name request lb s).0 s' (ground arith) in
            (sg, sp, epic, dep, read, made, launched)
      ]

  -- Where `Reconcile` of a load balancer reports no error, one of three holds. The object is not there,
  -- and the allocator is as it was. Or it is to be deleted: `Unassign` has freed its address, whatever
  -- it answered, and the finalizer was removed without an error. Or the group, the prefix, the account
  -- and the singleton above it could be read, the deployment could be made of them and was created, or
  -- an existing one of its name was updated to its spec, and the allocator is as it was.
  pub reconcile_load_balancer_lem :
      Retries
      → (request : NamespacedName) (s s' : S) (a a' : Allocator)
      → reconcile_load_balancer cl net finalizer_name request s a ≡ (s', a', none)
      → ((e : E) × ((cl.get_load_balancer s request).1 ≡ err e)
          × (cl.is_not_found e ≡ true)
          × (a' ≡ a))
        ⊎ ((lb : LoadBalancer) × ((cl.get_load_balancer s request).1 ≡ ok lb)
            × (lb.deleting ≡ true)
            × (a' ≡ (unassign a (namespaced request.namespace request.name)).0)
            × ((remove_finalizer cl.finalizers finalizer_name
                  ((cl.get_load_balancer s request).0, lb)).2
                ≡ none))
        ⊎ ((lb : LoadBalancer) × ((cl.get_load_balancer s request).1 ≡ ok lb)
            × (lb.deleting ≡ false)
            × (a' ≡ a)
            × IsServed request lb (cl.get_load_balancer s request).0)
  unfolding reconcile_load_balancer delete_load_balancer
  reconcile_load_balancer_lem retries request s s' a a' e =
      let s1 : S = (cl.get_load_balancer s request).0 in
      elim (Result-cases (cl.get_load_balancer s request).1) [
        | inr (x, gone) ↦ elim (Bool-cases (cl.is_not_found x)) [
          | inl is ↦ inl (x, gone, is, ground arith)
          | inr is ↦ absurd (ground arith)
        ]
        | inl (lb, got) ↦ elim (Bool-cases lb.deleting) [
          | inl is ↦
              elim (Option-cases (remove_finalizer cl.finalizers finalizer_name (s1, lb)).2) [
                | inl good ↦ inr (inl (lb, got, is, ground arith, good))
                | inr (y, bad) ↦ absurd (ground arith)
              ]
          | inr is ↦
              let (t, failed) = launch_envoy cl net finalizer_name request lb s1 in
              inr (
                inr (
                  lb,
                  got,
                  is,
                  ground arith,
                  launch_envoy-IsServed retries request lb s1 s' (ground arith),
                ))
        ]
      ]
