-- ===== src/Envoys/Controller.antt =====
-- controllers/loadbalancer_controller.go: `Reconcile` of a load balancer.
use mathlib.Core.Option.{get_or}
use resource_model.Base.{
  Bool, [], Option, none, some, Text, text, text_dec, if◌then◌else◌, Result, ok, err, contains,
}
use resource_model.GoMap.{GoMap, lookup}
use resource_model.Links.{NamespacedName}
use resource_model.Finalizers.{Library, remove_finalizer}
use resource_model.Allocator.Allocations.{Allocator, unassign}
use resource_model.Prefixes.{namespaced}
use resource_model.PodLabels.{owning_lb_service_group, owning_service_prefix, owning_account}
use resource_model.Objects.{Meta, DeploymentSpec, Object, deployment}
use resource_model.Envoys.{
  Deployment, Epic, Failure, LoadBalancer, Network, Prefix, ServiceGroup, config_namespace,
  deployment_for_lb,
}

-- The Kubernetes client, which belongs to another repository.
pub record Client (S E : Type 0) : Type 1 where
  pub get_load_balancer : S → NamespacedName → S × Result E LoadBalancer
  pub get_service_group : S → NamespacedName → S × Result E ServiceGroup
  pub get_prefix : S → NamespacedName → S × Result E Prefix
  pub get_account : S → NamespacedName → S × Option E
  pub get_epic : S → S × Result E Epic
  pub create : S → Object → S × Option E
  pub get_deployment : S → NamespacedName → S × Result E Deployment
  pub update : S → Object → S × Option E
  pub retry_on_conflict : (S → S × Option E) → S → S × Option E
  pub is_not_found : E → Bool
  pub message : E → Text
  pub finalizers : Library S LoadBalancer E

pub data Error (E : Type 0) : Type 0 where
  client : E → Error E
  panic : Error E

abbrev pub label_of : GoMap Text Text → Text → Text
label_of labels k = get_or (lookup text_dec k labels) []

module _ {S E A N : Type 0} (cl : Client S E) (net : Network A N) (finalizer_name : Text) where
  abbrev Outcome : Type 0
  Outcome = S × Allocator × Option (Error E)

  -- One try of `updateDeployment`.
  unfoldable pub try_update : Meta → DeploymentSpec → S → S × Option E
  try_update m spec s =
      let (s1, got) = cl.get_deployment s (record { namespace = m.namespace; name = m.name }) in
      elim got [ err e ↦ (s1, some e) | ok (existing, _) ↦ cl.update s1 (deployment existing spec) ]

  unfoldable pub update_deployment : Deployment → S → S × Option E
  update_deployment (m, spec) = cl.retry_on_conflict (try_update m spec)

  -- The end of `Reconcile`: the deployment is created, or updated where it is there already. A nil
  -- deployment is followed when its name is logged.
  unfoldable pub launch : Result Failure Deployment → S → S × Option (Error E)
  launch (err _) s = (s, some panic)
  launch (ok dep) s =
      let (s1, failed) = cl.create s (deployment dep.0 dep.1) in
      elim failed [
        | none ↦ (s1, none)
        | some e ↦
            if contains (text "already exists") (cl.message e)
            then (let (s2, failed') = update_deployment dep s1 in
                elim failed' [ none ↦ (s2, none) | some e' ↦ (s2, some (client e')) ])
            else (s1, some (client e))
      ]

  abbrev pub group_name : LoadBalancer → NamespacedName → NamespacedName
  group_name lb request = record {
    namespace = request.namespace;
    name = label_of lb.labels owning_lb_service_group;
  }

  abbrev pub prefix_name : ServiceGroup → NamespacedName
  prefix_name sg = record {
    namespace = config_namespace;
    name = label_of sg.labels owning_service_prefix;
  }

  -- The objects above the load balancer, with the return at the first that cannot be read.
  unfoldable pub read_stack :
      NamespacedName → LoadBalancer → S → S × Result E (ServiceGroup × Prefix × Epic)
  read_stack request lb s =
      let (s1, group) = cl.get_service_group s (group_name lb request) in
      elim group [
        | err e ↦ (s1, err e)
        | ok sg ↦
            let (s2, prefix) = cl.get_prefix s1 (prefix_name sg) in
            elim prefix [
              | err e ↦ (s2, err e)
              | ok sp ↦
                  let (s3, account) = cl.get_account s2 (record {
                    namespace = request.namespace;
                    name = label_of sg.labels owning_account;
                  }) in
                  elim account [
                    | some e ↦ (s3, err e)
                    | none ↦
                        let (s4, singleton) = cl.get_epic s3 in
                        elim singleton [ err e ↦ (s4, err e) | ok epic ↦ (s4, ok (sg, sp, epic)) ]
                  ]
            ]
      ]

  -- The image of the group, or else of the singleton.
  abbrev pub envoy_image : ServiceGroup → Epic → Text
  envoy_image sg epic = get_or sg.envoy_image epic.envoy_image

  unfoldable pub launch_envoy : NamespacedName → LoadBalancer → S → S × Option (Error E)
  launch_envoy request lb s =
      let (s1, stack) = read_stack request lb s in
      elim stack [
        | err e ↦ (s1, some (client e))
        | ok (sg, sp, epic) ↦
            launch (deployment_for_lb net lb sp (envoy_image sg epic) epic.service_cidr) s1
      ]

  -- The branch for a load balancer that is to be deleted.
  unfoldable pub delete_load_balancer : NamespacedName → LoadBalancer → S → Allocator → Outcome
  delete_load_balancer request lb s a =
      let (a', _) = unassign a (namespaced request.namespace request.name) in
      let (s1, _, failed) = remove_finalizer cl.finalizers finalizer_name (s, lb) in
      elim failed [ none ↦ (s1, a', none) | some e ↦ (s1, a', some (client e)) ]

  -- `Reconcile`
  unfoldable pub reconcile_load_balancer : NamespacedName → S → Allocator → Outcome
  reconcile_load_balancer request s a =
      let (s1, got) = cl.get_load_balancer s request in
      elim got [
        | err e ↦ (s1, a, if cl.is_not_found e then none else some (client e))
        | ok lb ↦
            if lb.deleting
            then delete_load_balancer request lb s1 a
            else (let (s2, failed) = launch_envoy request lb s1 in (s2, a, failed))
      ]
