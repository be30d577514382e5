-- ===== src/Prefixes.antt =====
-- controllers/serviceprefix_controller.go: a service prefix becomes pools of the allocator, which
-- learns the addresses that load balancers and proxies have already.
pub mod Warming
pub mod Leaks
use resource_model.Base.{
  ℕ, Bool, true, false, List, [], ◌∷◌, ◌++◌, Option, none, some, Text, text, if◌then◌else◌, Result,
  ok, err,
}
use resource_model.Links.{NamespacedName}
use resource_model.Finalizers.{Library}
use resource_model.Allocator.Ip.{Ip}
use resource_model.Allocator.Pool.{ServicePort}
use resource_model.Allocator.Allocations
use resource_model.Allocator.Allocations.{
  Allocator, ServicePrefix, alt_address_suffix, assign, add_prefix, remove_pool, panic,
}

-- `NamespacedName.String()` of apimachinery.
abbrev pub namespaced : Text → Text → Text
namespaced namespace name = namespace ++ text "/" ++ name

pub record LoadBalancer : Type 0 where
  pub namespace : Text
  pub name : Text
  pub public_address : Text
  pub public_ports : List ServicePort

pub record GwProxy : Type 0 where
  pub namespace : Text
  pub name : Text
  pub public_address : Text
  pub alt_address : Text
  pub public_ports : List ServicePort

module _ (parse_ip : Text → Option Ip) where
  -- One address of the warm-up: an error of `Assign` is logged, and `none` is a run-time panic.
  unfoldable pub warm : Text → Text → List ServicePort → Allocator → Option Allocator
  warm svc address ports a = elim (parse_ip address) [
    | none ↦ some a
    | some ip ↦ elim (assign a svc ip ports []) [
      | ok (_, a') ↦ some a'
      | err e ↦ elim e [ Allocations.Error.panic ↦ none | _ ↦ some a ]
    ]
  ]

  -- The loop over the load balancers, which are known by their bare names.
  unfoldable pub warm_load_balancers : List LoadBalancer → Allocator → Option Allocator
  warm_load_balancers [] a = some a
  warm_load_balancers (lb ∷ lbs) a = elim (warm lb.name lb.public_address lb.public_ports a) [
    | none ↦ none
    | some a' ↦ warm_load_balancers lbs a'
  ]

  unfoldable pub warm_proxy : GwProxy → Allocator → Option Allocator
  warm_proxy proxy a =
      let svc = namespaced proxy.namespace proxy.name in
      elim (warm svc proxy.public_address proxy.public_ports a) [
        | none ↦ none
        | some a' ↦ warm (svc ++ alt_address_suffix) proxy.alt_address proxy.public_ports a'
      ]

  unfoldable pub warm_proxies : List GwProxy → Allocator → Option Allocator
  warm_proxies [] a = some a
  warm_proxies (proxy ∷ proxies) a = elim (warm_proxy proxy a) [
    | none ↦ none
    | some a' ↦ warm_proxies proxies a'
  ]

-- A `ServicePrefix` as the API server has it.
pub record PrefixObject : Type 0 where
  pub deleting : Bool
  pub prefix : ServicePrefix

pub data Error (E : Type 0) : Type 0 where
  client : E → Error E
  allocator : Allocations.Error → Error E

-- What belongs to other repositories: the Kubernetes client with the functions on finalizers, and the
-- client and the JSON encoder for network attachments.
pub record Client (S E : Type 0) : Type 1 where
  pub get_prefix : S → NamespacedName → S × Result E PrefixObject
  pub finalizers : Library S PrefixObject E
  pub has_net_attach_def : S → NamespacedName → S × Bool
  pub netdef_for_sp : PrefixObject → Option E
  pub add_net_attach_def : S → PrefixObject → S × Option E
  pub list_load_balancers : S → Text → S × Result E (List LoadBalancer)
  pub list_proxies : S → Text → S × Result E (List GwProxy)
  pub is_not_found : E → Bool

module _ (parse_ip : Text → Option Ip) (parse_cidr : Text → Option (Ip × (Ip → Bool))) (fuel : ℕ)
    {S E : Type 0} (cl : Client S E) (finalizer_name : Text) where
  abbrev Outcome : Type 0
  Outcome = S × Allocator × Option (Error E)

  -- The branch for a prefix that is to be deleted, which drops the error of `RemovePool`.
  unfoldable pub delete_prefix : PrefixObject → S → Allocator → Outcome
  delete_prefix sp s a =
      if cl.finalizers.contains_finalizer sp finalizer_name
      then (let (s1, sp', e) =
            cl.finalizers.update s (cl.finalizers.remove_finalizer sp finalizer_name) in
          elim e [
            | some e ↦ (s1, a, some (client e))
            | none ↦ (s1, (remove_pool a sp'.prefix).0, none)
          ])
      else (s, a, none)

  -- The network attachment, if it is not there.
  unfoldable pub ensure_net_attach_def : NamespacedName → PrefixObject → S → S × Option E
  ensure_net_attach_def request sp s =
      let (s1, there) = cl.has_net_attach_def s request in
      if there
      then (s1, none)
      else elim (cl.netdef_for_sp sp) [ some e ↦ (s1, some e) | none ↦ cl.add_net_attach_def s1 sp ]

  unfoldable pub warm_from_proxies : Text → S → Allocator → Outcome
  warm_from_proxies name s a =
      let (s1, listed) = cl.list_proxies s name in
      elim listed [
        | err e ↦ (s1, a, some (client e))
        | ok proxies ↦ elim (warm_proxies parse_ip proxies a) [
          | none ↦ (s1, a, some (allocator panic))
          | some a' ↦ (s1, a', none)
        ]
      ]

  unfoldable pub warm_up : Text → S → Allocator → Outcome
  warm_up name s a =
      let (s1, listed) = cl.list_load_balancers s name in
      elim listed [
        | err e ↦ (s1, a, some (client e))
        | ok lbs ↦ elim (warm_load_balancers parse_ip lbs a) [
          | none ↦ (s1, a, some (allocator panic))
          | some a' ↦ warm_from_proxies name s1 a'
        ]
      ]

  unfoldable pub install_prefix : NamespacedName → PrefixObject → S → Allocator → Outcome
  install_prefix request sp s a =
      let (s1, failed) = ensure_net_attach_def request sp s in
      elim failed [
        | some e ↦ (s1, a, some (client e))
        | none ↦
            let (a', wrong) = add_prefix parse_ip parse_cidr fuel a sp.prefix in
            elim wrong [ some e ↦ (s1, a', some (allocator e)) | none ↦ warm_up request.name s1 a' ]
      ]

  -- `Reconcile`
  unfoldable pub reconcile_prefix : NamespacedName → S → Allocator → Outcome
  reconcile_prefix request s a =
      let (s1, got) = cl.get_prefix s request in
      elim got [
        | err e ↦ (s1, a, if cl.is_not_found e then none else some (client e))
        | ok sp ↦ if sp.deleting then delete_prefix sp s1 a else install_prefix request sp s1 a
      ]
