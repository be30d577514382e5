-- ===== src/Envoys/Labelled.antt =====
-- The labels of the pods that serve a load balancer or a proxy.
use resource_model.Base.{
  ◌≡◌, refl, inl, inr, true, [], none, some, arith, Text, text, text_dec, ok, Result-cases,
  Option-cases, false, ◌∷◌,
}
use resource_model.GoMap.{lookup, insert}
use resource_model.PodLabels.{
  owning_load_balancer, owning_proxy, component, labels_for_envoy, labels_for_proxy,
  has_envoy_labels,
}
use resource_model.Envoys.{
  LoadBalancer, GwProxy, Prefix, Network, Deployment, EnvoyDeployment, masked, lb_deployment,
  lb_pod_labels, alt_addresses, deployment_for_lb, deployment_for_proxy,
}

lb_labels_lem :
    (lb : LoadBalancer)
    → (has_envoy_labels (lb_pod_labels lb) ≡ true)
      × (lookup text_dec owning_load_balancer (lb_pod_labels lb) ≡ some lb.name)
      × (lookup text_dec owning_proxy (lb_pod_labels lb) ≡ none)
unfolding has_envoy_labels labels_for_envoy lookup insert text_dec
lb_labels_lem lb = (refl, refl, refl)

proxy_labels_lem :
    (name : Text)
    → (has_envoy_labels
          (insert text_dec component (text "envoy-deployment") (labels_for_proxy name))
        ≡ true)
      × (lookup text_dec owning_load_balancer (labels_for_proxy name) ≡ none)
      × (lookup text_dec owning_proxy (labels_for_proxy name) ≡ some name)
unfolding has_envoy_labels labels_for_proxy lookup insert text_dec
proxy_labels_lem name = (refl, refl, refl)

module _ {A N : Type 0} (net : Network A N) where
  -- The deployment for a load balancer selects the pods that it makes, and they are Envoy pods which
  -- name the load balancer as their owner and no proxy.
  pub deployment_for_lb-pods :
      (lb : LoadBalancer) (sp : Prefix) (image service_cidr : Text) (dep : Deployment)
      → deployment_for_lb net lb sp image service_cidr ≡ ok dep
      → (dep.1.match_labels ≡ dep.1.template.labels)
        × (has_envoy_labels dep.1.template.labels ≡ true)
        × (lookup text_dec owning_load_balancer dep.1.template.labels ≡ some lb.name)
        × (lookup text_dec owning_proxy dep.1.template.labels ≡ none)
  unfolding deployment_for_lb
  deployment_for_lb-pods lb sp image service_cidr dep e =
      elim (Result-cases (masked net lb.public_address sp.public_pool)) [
        | inr (x, bad) ↦ absurd (ground arith)
        | inl (address, good) ↦
            elim (Option-cases (net.marshal sp.name sp.namespace false (address ∷ []))) [
              | inl bad ↦ absurd (ground arith)
              | inr (multus, json) ↦
                  let is : dep ≡ lb_deployment lb image service_cidr multus = ground arith in
                  let (envoy, owner, other) = lb_labels_lem lb in
                  rw (is) (refl, envoy, owner, other)
            ]
      ]

  -- Once Marin3r has added its label, the labels that the deployment for a proxy asks for are those of
  -- an Envoy pod that names the proxy as its owner and no load balancer.
  pub deployment_for_proxy-pods :
      (proxy : GwProxy) (sp : Prefix) (image service_cidr : Text) (dep : EnvoyDeployment)
      → deployment_for_proxy net proxy sp image service_cidr ≡ ok dep
      → (has_envoy_labels (insert text_dec component (text "envoy-deployment") dep.extra_labels)
          ≡ true)
        × (lookup text_dec owning_load_balancer dep.extra_labels ≡ none)
        × (lookup text_dec owning_proxy dep.extra_labels ≡ some proxy.name)
  unfolding deployment_for_proxy
  deployment_for_proxy-pods proxy sp image service_cidr dep e =
      elim (Result-cases (masked net proxy.public_address sp.public_pool)) [
        | inr (x, bad) ↦ absurd (ground arith)
        | inl (address, good) ↦ elim (Result-cases (alt_addresses net proxy sp)) [
          | inr (x, bad) ↦ absurd (ground arith)
          | inl (more, fine) ↦
              elim (Option-cases (net.marshal sp.name sp.namespace true (address ∷ more))) [
                | inl bad ↦ absurd (ground arith)
                | inr (multus, json) ↦
                    let labels : dep.extra_labels ≡ labels_for_proxy proxy.name = ground arith in
                    rw (labels) (proxy_labels_lem proxy.name)
              ]
        ]
      ]
