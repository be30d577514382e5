-- ===== src/Tests/Pods.antt =====
-- An Envoy pod of a load balancer, in a cluster that does not change.
use resource_model.Base.{
  ◌≡◌, refl, ◌↔◌, [], ◌∷◌, Option, none, Text, text, text_dec, Bool, true, false, ok, err,
}
use resource_model.GoMap.{lookup, insert}
use resource_model.Finalizers.{add_finalizer, remove_finalizer}
use resource_model.Links.{NamespacedName}
use resource_model.Proxies.{Tunnel}
use resource_model.Proxies.Pods.{pod_tunnels}
use resource_model.PodLabels.{has_envoy_labels}
use resource_model.Pods.{
  Pod, done, Client, add_tunnels, serve_pod, serve_load_balancer, add_pod, reconcile_pod,
}
use resource_model.Pods.Reconciled.{IsReconciled, reconcile_pod_lem}
use resource_model.Pods.Deleted.{IsCleanedUp, reconcile_pod_deleting}
use resource_model.Tests.Data.{web}

abbrev pod : Bool → Pod
pod deleting = record {
  namespace = text "epic-a";
  name = text "web-1";
  deleting = deleting;
  labels =
      (text "app.kubernetes.io/part-of", text "epic")
      ∷ (text "epic.acnodal.io/owning-loadbalancer", web)
      ∷ (text "app.kubernetes.io/component", text "envoy-deployment")
      ∷ [];
  host_ip = text "192.168.0.1";
}

abbrev base : Tunnel
base = record { address = []; port = 6080; tunnel_id = 0 }

abbrev cluster : Bool → Client Unit Text
cluster deleting = record {
  get_pod = λ s n. (s, ok (pod deleting));
  get_load_balancer =
      λ s n. (s, ok (record { gue_tunnel_maps = (text "10.1.0.1", []) ∷ []; true_ingress = true }));
  get_proxy = λ s n. (s, err (text "no proxy"));
  update_proxy = λ s n p. (s, none);
  get_base = λ s. (s, ok base);
  patch_load_balancer = λ s n new. (s, none);
  patch_proxy = λ s n new. (s, none);
  load_balancer_id = λ s. (s, ok 1);
  proxy_id = λ s. (s, ok 1);
  retry_on_conflict = λ f s. f s;
  is_not_found = λ e. false;
  finalizers = record {
    get = λ s. (s, ok (pod deleting));
    update = λ s o. (s, o, none);
    contains_finalizer = λ o n. true;
    add_finalizer = λ o n. o;
    remove_finalizer = λ o n. o;
    retry_on_conflict = λ f x. f x;
  };
}

abbrev request : NamespacedName
request = record { namespace = text "epic-a"; name = text "web-1" }

patched : reconcile_pod (cluster false) (text "epic") request tt ≡ (tt, done, none)
unfolding reconcile_pod has_envoy_labels lookup text_dec add_pod add_finalizer serve_pod
    serve_load_balancer add_tunnels pod_tunnels insert
patched = refl

reconcile_pod_lem_example : IsReconciled (cluster false) (text "epic") request tt tt done
reconcile_pod_lem_example =
    reconcile_pod_lem (cluster false) (text "epic") request tt tt done patched

envoy : has_envoy_labels (pod true).labels ≡ true
unfolding has_envoy_labels lookup text_dec
envoy = refl

-- The clean-up fails here, for want of a proxy with the name of the load balancer.
reconcile_pod_deleting_example :
    (cleaned : Unit × Option Text) × IsCleanedUp (cluster true) (text "epic") (pod true) tt cleaned
    × ((reconcile_pod (cluster true) (text "epic") request tt).0
        ≡ (remove_finalizer (cluster true).finalizers (text "epic") (cleaned.0, pod true)).0)
    × (((reconcile_pod (cluster true) (text "epic") request tt).2 ≡ none) ↔ (
        (cleaned.1 ≡ none)
        × ((remove_finalizer (cluster true).finalizers (text "epic") (cleaned.0, pod true)).2
            ≡ none)))
reconcile_pod_deleting_example =
    reconcile_pod_deleting (cluster true) (text "epic") (λ f s. (s, refl)) request tt (pod true)
      refl envoy refl
