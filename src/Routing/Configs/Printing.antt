-- ===== src/Routing/Configs/Printing.antt =====
-- internal/envoy/resource.go: the runs of the templates, and `ServiceToEnvoyConfig`.
use resource_model.Base.{
  Bool, true, List, [], ◌∷◌, ◌++◌, Option, none, some, Text, if◌then◌else◌, Result, ok, err, ◌>>=◌,
  ltb, length,
}
use resource_model.Links.{RemoteEndpoint}
use resource_model.Allocator.Pool.{ServicePort}
use resource_model.Routing.Configs.{
  panic, template, ClusterParams, EnvoyConfig, Error, ListenerParams, LoadBalancer, Resource,
  Templates, envoy_config, http_listener_params,
}

-- One run of a cluster's template.
module _ {T R E : Type 0} (tp : Templates T R E) where
  -- The inner loop of the two functions on clusters, over the names: it drops each error for the next,
  -- and `keep` says whether an output is added.
  unfoldable pub run_cluster_template :
      (Text → Bool)
      → T
      → (Text → ClusterParams)
      → List Text
      → List Resource × Option E
      → List Resource × Option E
  run_cluster_template keep tmpl params [] r = r
  run_cluster_template keep tmpl params (name ∷ names) (clusters, e) =
      let (doc, failed) = tp.execute_cluster tmpl (params name) in
      run_cluster_template keep tmpl params names (
        (if keep doc then clusters ++ record { name = name; value = doc } ∷ [] else clusters),
        failed,
      )

  -- The outer loop, over the templates.
  unfoldable pub run_cluster_templates :
      (Text → Bool)
      → (Text → ClusterParams)
      → List Text
      → List Resource
      → List Resource × Option E
      → List Resource × Option E
  run_cluster_templates keep params names [] r = r
  run_cluster_templates keep params names (t ∷ templates) (clusters, e) = elim (tp.parse t.value) [
    | err bad ↦ (clusters, some bad)
    | ok tmpl ↦
        run_cluster_templates keep params names templates
          (run_cluster_template keep tmpl params names (clusters, none))
  ]

  -- `ServiceToCluster`. Its clusters are dropped by the caller where there is an error.
  unfoldable pub service_to_cluster : LoadBalancer → List RemoteEndpoint → List Resource × Option E
  service_to_cluster service endpoints =
      run_cluster_templates (λ doc. true)
        (λ name. record {
          cluster_name = name;
          endpoints = endpoints;
          service_namespace = service.namespace;
          pure_lb_service_name = service.display_name;
          service_name = service.name;
        })
        service.upstream_clusters service.template.resources.clusters ([], none)

  abbrev pub run_listener : Text → ListenerParams R → Result (Error E) Resource
  run_listener value params = elim (tp.parse value) [
    | err bad ↦ err (template bad)
    | ok tmpl ↦
        let (doc, failed) = tp.execute_listener tmpl params in
        elim failed [
          | some e ↦ err (template e)
          | none ↦ ok (record { name = params.port_name; value = doc })
        ]
  ]

  -- A loop that appends a resource for each element.
  unfoldable pub each_resource :
      {A : Type 0} → (A → Result (Error E) Resource) → List A → Result (Error E) (List Resource)
  each_resource body [] = ok []
  each_resource body (x ∷ xs) = do r ← body x; rs ← each_resource body xs; ok (r ∷ rs)

  -- Two loops, one in the other.
  unfoldable pub each_pair :
      {A C : Type 0}
      → (A → C → Result (Error E) Resource)
      → List A
      → List C
      → Result (Error E) (List Resource)
  each_pair body [] ys = ok []
  each_pair body (x ∷ xs) ys = do
    rs ← each_resource (body x) ys
    more ← each_pair body xs ys
    ok (rs ++ more)

  -- `makeHTTPListener`, with the panic of the division.
  unfoldable pub make_http_listener : Text → LoadBalancer → ServicePort → Result (Error E) Resource
  make_http_listener fragment service port =
      if ltb 0 (length service.upstream_clusters)
      then run_listener fragment (http_listener_params service port)
      else err panic

  unfoldable pub make_http_listeners : LoadBalancer → Result (Error E) (List Resource)
  make_http_listeners service =
      if ltb 0 (length service.upstream_clusters)
      then each_pair (λ (t : Resource) port. make_http_listener t.value service port)
          service.template.resources.listeners service.public_ports
      else ok []

  unfoldable pub service_to_envoy_config :
      LoadBalancer → List RemoteEndpoint → Result (Error E) EnvoyConfig
  service_to_envoy_config service endpoints =
      let (clusters, failed) = service_to_cluster service endpoints in
      elim failed [
        | some e ↦ err (template e)
        | none ↦ (do
          listeners ← make_http_listeners service
          ok (envoy_config service.namespace service.name service.template clusters listeners))
      ]
