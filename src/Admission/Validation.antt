-- ===== src/Admission/Validation.antt =====
-- The validations of api/v1/gwproxy_webhook.go and api/v1/loadbalancer_webhook.go, and the upstream
-- clusters of api/v1/loadbalancer_types.go.
use resource_model.Base.{
  ℕ, leb, Bool, true, false, List, [], ◌∷◌, ◌++◌, Option, none, some, Text, text_dec, ite, Result,
  ok, err, if◌then◌else◌,
}
use resource_model.Admission.{GwProxy, LoadBalancer, ServiceGroup}

-- Each constructor is one message of the source, or an error of the client.
pub data Error : Type 0 where
  client_error : ℕ → Error
  address_allocation_failed : Text → Text → Error
  proxy_limit_exceeded : Error
  already_contains_upstream : Text → Error
  upstream_not_found : Text → Error
  has_upstream_clusters : List Text → Error

-- `GWProxy.ValidateCreate`: what `getLBServiceGroup` returns, the account of a group with its proxy
-- limit, the number of proxies in the namespace, and the proxy. `none` is a nil error. A negative
-- limit, which denies every proxy, is 0 here.
unfoldable pub validate_create_proxy :
    Result Error ServiceGroup
    → (ServiceGroup → Result Error ℕ)
    → Result Error ℕ
    → GwProxy
    → Option Error
validate_create_proxy (err e) account proxies r = some e
validate_create_proxy (ok sg) account proxies r = elim (account sg) [
  | err e ↦ some e
  | ok proxy_limit ↦
      ite (text_dec r.public_address []) (some (address_allocation_failed r.namespace r.name))
        (elim proxies [
          | err e ↦ some e
          | ok items ↦ if leb proxy_limit items then some proxy_limit_exceeded else none
        ])
]

-- `LoadBalancer.ValidateCreate`
unfoldable pub validate_create_load_balancer :
    Result Error ServiceGroup → (ServiceGroup → Result Error ℕ) → LoadBalancer → Option Error
validate_create_load_balancer (err e) account r = some e
validate_create_load_balancer (ok sg) account r = elim (account sg) [
  | err e ↦ some e
  | ok acct ↦
      ite (text_dec r.public_address []) (some (address_allocation_failed r.namespace r.name)) none
]

-- `LoadBalancer.ValidateDelete`
unfoldable pub validate_delete_load_balancer : LoadBalancer → Option Error
validate_delete_load_balancer r = elim r.upstream_clusters [
  | [] ↦ none
  | c ∷ cs ↦ some (has_upstream_clusters (c ∷ cs))
]

unfoldable pub contains_upstream : Text → List Text → Bool
contains_upstream id [] = false
contains_upstream id (upstream ∷ upstreams) =
    ite (text_dec id upstream) true (contains_upstream id upstreams)

unfoldable pub add_upstream : LoadBalancer → Text → Result Error LoadBalancer
add_upstream lb id =
    if contains_upstream id lb.upstream_clusters
    then err (already_contains_upstream id)
    else ok (record lb { upstream_clusters = lb.upstream_clusters ++ (id ∷ []) })

abbrev pub last : Text → List Text → Text
last x [] = x
last x (y ∷ ys) = last y ys

abbrev pub all_but_last : Text → List Text → List Text
all_but_last x [] = []
all_but_last x (y ∷ ys) = x ∷ all_but_last y ys

-- `c[i] = c[len(c)-1]` and `c[:len(c)-1]`, where the list begins behind the index i.
abbrev pub fill_with_last : List Text → List Text
fill_with_last [] = []
fill_with_last (y ∷ ys) = last y ys ∷ all_but_last y ys

-- The loop of `RemoveUpstream`: `none` where it finds nothing.
unfoldable pub remove_loop : Text → List Text → Option (List Text)
remove_loop id [] = none
remove_loop id (upstream ∷ upstreams) =
    let rest = remove_loop id upstreams in
    ite (text_dec id upstream) (some (fill_with_last upstreams))
      (elim rest [ none ↦ none | some removed ↦ some (upstream ∷ removed) ])

unfoldable pub remove_upstream : LoadBalancer → Text → Result Error LoadBalancer
remove_upstream lb id = elim (remove_loop id lb.upstream_clusters) [
  | none ↦ err (upstream_not_found id)
  | some removed ↦ ok (record lb { upstream_clusters = removed })
]
