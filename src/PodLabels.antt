-- ===== src/PodLabels.antt =====
-- api/v1/labels.go: the labels by which pods, deployments and their owners find each other.
use resource_model.Base.{Bool, true, false, [], ◌∷◌, none, some, Text, text, text_dec, ite}
use resource_model.GoMap.{GoMap, lookup, insert}

abbrev pub owning_account : Text
owning_account = text "epic.acnodal.io/owning-account"

abbrev pub owning_lb_service_group : Text
owning_lb_service_group = text "epic.acnodal.io/owning-lbservicegroup"

abbrev pub owning_service_prefix : Text
owning_service_prefix = text "epic.acnodal.io/owning-serviceprefix"

abbrev pub owning_load_balancer : Text
owning_load_balancer = text "epic.acnodal.io/owning-loadbalancer"

abbrev pub owning_proxy : Text
owning_proxy = text "epic.acnodal.io/owning-proxy"

abbrev pub part_of : Text
part_of = text "app.kubernetes.io/part-of"

abbrev pub component : Text
component = text "app.kubernetes.io/component"

-- `envoyProxyLabels`
abbrev envoy_proxy_labels : GoMap Text Text
envoy_proxy_labels = (part_of, text "epic") ∷ []

-- The loop that copies the labels.
abbrev copy_labels : GoMap Text Text → GoMap Text Text → GoMap Text Text
copy_labels [] labels = labels
copy_labels ((k, v) ∷ rest) labels = copy_labels rest (insert text_dec k v labels)

unfoldable pub labels_for_envoy : Text → GoMap Text Text
labels_for_envoy name =
    insert text_dec owning_load_balancer name (copy_labels envoy_proxy_labels [])

unfoldable pub labels_for_proxy : Text → GoMap Text Text
labels_for_proxy name = insert text_dec owning_proxy name (copy_labels envoy_proxy_labels [])

unfoldable pub has_envoy_labels : GoMap Text Text → Bool
has_envoy_labels labels = elim (lookup text_dec part_of labels) [
  | none ↦ false
  | some p ↦
      ite (text_dec p (text "epic"))
        (elim (lookup text_dec component labels) [
          | none ↦ false
          | some c ↦ ite (text_dec c (text "envoy-deployment")) true false
        ])
        false
]
