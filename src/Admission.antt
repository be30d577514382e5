-- ===== src/Admission.antt =====
-- The admission webhooks: api/v1/gwproxy_webhook.go and api/v1/loadbalancer_webhook.go, with the
-- upstream clusters of api/v1/loadbalancer_types.go.
pub mod Validation
pub mod Upstreams
pub mod Addresses
pub mod Admitted
use resource_model.Base.{
  ℕ, ◌+◌, ltb, leb, Bool, true, false, List, [], ◌∷◌, ◌++◌, Option, none, some, Text, text,
  text_dec, ite, Result, ok, err, if◌then◌else◌, length,
}
use resource_model.Allocator.Ip.{Ip}
use resource_model.Allocator.Pool.{ServicePort}
use resource_model.Allocator.Allocations.{Allocator, allocate_from_pool, alt_address_suffix}

abbrev pub finalizer_name : Text
finalizer_name = text "epic.acnodal.io/controller"

-- The fields of an `LBServiceGroup` that the webhooks read. The label is empty where it is missing.
pub record ServiceGroup : Type 0 where
  pub owning_prefix : Text
  pub envoy_template : Text
  pub envoy_replica_count : ℕ

-- `Listener`, with the fields that the webhook fills in.
pub record DefaultListener : Type 0 where
  pub name : Text
  pub port : ℕ
  pub protocol : Text

-- The fields of a `GWProxy` that the webhook reads or writes. A replica count below 1 is 0 here,
-- and `none` is a nil pointer or slice.
pub record GwProxy : Type 0 where
  pub namespace : Text
  pub name : Text
  pub finalizers : List Text
  pub envoy_template : Option Text
  pub envoy_replica_count : Option ℕ
  pub public_ports : List ServicePort
  pub public_address : Text
  pub alt_address : Text
  pub endpoints : List Text
  pub gateway_class : Text
  pub listeners : Option (List DefaultListener)

pub record LoadBalancer : Type 0 where
  pub namespace : Text
  pub name : Text
  pub finalizers : List Text
  pub envoy_template : Option Text
  pub envoy_replica_count : Option ℕ
  pub public_ports : List ServicePort
  pub public_address : Text
  pub endpoints : List Text
  pub upstream_clusters : List Text

-- `NamespacedName().String()`
abbrev pub namespaced : Text → Text → Text
namespaced namespace name = namespace ++ text "/" ++ name

-- `controllerutil.AddFinalizer`, which adds what is not there.
abbrev pub add_finalizer : Text → List Text → List Text
add_finalizer f [] = f ∷ []
add_finalizer f (x ∷ xs) = ite (text_dec x f) (x ∷ xs) (x ∷ add_finalizer f xs)

abbrev template_or : Option Text → Text → Option Text
template_or none default = some default
template_or (some t) default = some t

abbrev count_or : Option ℕ → ℕ → Option ℕ
count_or none default = some default
count_or (some n) default = if ltb n 1 then some default else some n

-- The back-compatibility part of `Default`. `none` is the panic of an index into no ports.
unfoldable pub proxy_gateway : GwProxy → Option GwProxy
proxy_gateway r =
    let class_ = ite (text_dec r.gateway_class []) (text "compatibility") r.gateway_class in
    elim r.listeners [
      | some ls ↦ some (record r { gateway_class = class_ })
      | none ↦ elim r.public_ports [
        | [] ↦ none
        | p ∷ ports ↦ some (record r {
          gateway_class = class_;
          listeners =
              some (
                record { name = text "compatibility"; port = p.port; protocol = text "HTTP" } ∷ []);
        })
      ]
    ]

-- The template and the replica count that `Default` copies from the group.
abbrev pub prepared : GwProxy → ServiceGroup → GwProxy
prepared r sg = record r {
  envoy_template = template_or r.envoy_template sg.envoy_template;
  envoy_replica_count = count_or r.envoy_replica_count sg.envoy_replica_count;
}

-- `net.IP.String`, the DNS name that `AddDNSEndpoint` makes from a template, if it succeeds, and the
-- fuel of `AllocateFromPool`.
module _ (show : Ip → Text) (dns_name : Text → Option Text) (fuel : ℕ) where
  -- `AddDNSEndpoint`, whose error the webhooks drop.
  abbrev add_dns : Text → List Text → List Text
  add_dns address endpoints = elim (dns_name address) [
    | none ↦ endpoints
    | some n ↦ endpoints ++ (n ∷ [])
  ]

  -- `if r.Spec.PublicAddress == ""`. `none` is the early return after a failed allocation.
  unfoldable pub proxy_address : GwProxy → ServiceGroup → Allocator → Option (GwProxy × Allocator)
  proxy_address r sg a =
      ite (text_dec r.public_address [])
        (elim (allocate_from_pool fuel a (namespaced r.namespace r.name) sg.owning_prefix
          r.public_ports []) [
            | err e ↦ none
            | ok (ip, a') ↦ some (
              record r { public_address = show ip; endpoints = add_dns (show ip) r.endpoints },
              a',
            )
          ])
        (some (r, a))

  -- `if r.Spec.AltAddress == ""`, which goes on after a failed allocation.
  unfoldable pub proxy_alt_address : GwProxy → ServiceGroup → Allocator → GwProxy × Allocator
  proxy_alt_address r sg a =
      ite (text_dec r.alt_address [])
        (elim (allocate_from_pool fuel a (namespaced r.namespace r.name ++ alt_address_suffix)
          (sg.owning_prefix ++ alt_address_suffix) r.public_ports []) [
            | err e ↦ (r, a)
            | ok (ip, a') ↦ (record r { alt_address = show ip }, a')
          ])
        (r, a)

  -- `GWProxy.Default`: `group` is what `getLBServiceGroup` finds, `none` where it reports an error.
  unfoldable pub default_proxy :
      Option ServiceGroup → GwProxy → Allocator → Option (GwProxy × Allocator)
  default_proxy group r a =
      let r1 = record r { finalizers = add_finalizer finalizer_name r.finalizers } in
      elim group [
        | none ↦ some (r1, a)
        | some sg ↦
            let r2 = prepared r1 sg in
            elim (proxy_address r2 sg a) [
              | none ↦ some (r2, a)
              | some (r3, a3) ↦
                  let (r4, a4) = proxy_alt_address r3 sg a3 in
                  elim (proxy_gateway r4) [ none ↦ none | some r5 ↦ some (r5, a4) ]
            ]
      ]

  -- `LoadBalancer.Default`
  unfoldable pub default_load_balancer :
      Option ServiceGroup → LoadBalancer → Allocator → LoadBalancer × Allocator
  default_load_balancer group r a =
      let r1 = record r { finalizers = add_finalizer finalizer_name r.finalizers } in
      elim group [
        | none ↦ (r1, a)
        | some sg ↦
            let r2 = record r1 {
              envoy_template = template_or r.envoy_template sg.envoy_template;
              envoy_replica_count = count_or r.envoy_replica_count sg.envoy_replica_count;
            } in
            ite (text_dec r.public_address [])
              (elim (allocate_from_pool fuel a (namespaced r.namespace r.name) sg.owning_prefix
                r.public_ports []) [
                  | err e ↦ (r2, a)
                  | ok (ip, a') ↦ (
                    record r2 {
                      public_address = show ip;
                      endpoints = add_dns (show ip) r.endpoints;
                    },
                    a',
                  )
                ])
              (r2, a)
      ]
