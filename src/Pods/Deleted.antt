-- ===== src/Pods/Deleted.antt =====
-- What the pod controller does for a pod that is to be deleted.
use resource_model.Base.{
  ◌≡◌, ◌↔◌, ◌⊎◌, inl, inr, true, Option, none, some, arith, subst, Text, text_dec, Option-cases, ok,
  err, Result-cases,
}
use resource_model.GoMap.{lookup}
use resource_model.Finalizers.{remove_finalizer}
use resource_model.Links.{NamespacedName}
use resource_model.Proxies.{Proxy, remove_proxy_info}
use resource_model.PodLabels.{owning_load_balancer, owning_proxy, has_envoy_labels}
use resource_model.Pods.{
  Pod, Client, ignore_not_found, owner, try_remove_pod, try_remove_proxy, remove_pod, remove_proxy,
  remove_info, delete_pod, reconcile_pod,
}

module _ {S E : Type 0} (cl : Client S E) (finalizer_name : Text) where
  -- The proxy of the name could not be read, and `failed` says what is reported of that; or it has no
  -- entry of the pod; or the update without that entry gave what is reported.
  abbrev IsForgotten : (E → Option E) → NamespacedName → Text → S × Option E → Type 0
  IsForgotten failed name pod r =
      (t : S) × (((e : E) × (cl.get_proxy t name ≡ (r.0, err e)) × (r.1 ≡ failed e))
        ⊎ ((proxy : Proxy) × (cl.get_proxy t name ≡ (r.0, ok proxy))
            × (remove_proxy_info pod proxy ≡ none)
            × (r.1 ≡ none))
        ⊎ ((proxy : Proxy) × (changed : Proxy) × ((cl.get_proxy t name).1 ≡ ok proxy)
            × (remove_proxy_info pod proxy ≡ some changed)
            × (cl.update_proxy (cl.get_proxy t name).0 name changed ≡ r)))

  -- The clean-up for the owners that the pod's labels name, and the error that is left of it: with two
  -- owners, that for the proxy.
  abbrev pub IsCleanedUp : Pod → S → S × Option E → Type 0
  IsCleanedUp pod s r =
      let lb = lookup text_dec owning_load_balancer pod.labels in
      let proxy = lookup text_dec owning_proxy pod.labels in
      ((lb ≡ none) × (proxy ≡ none) × (r ≡ (s, none)))
      ⊎ ((name : Text) × (lb ≡ some name)
          × (proxy ≡ none)
          × IsForgotten (λ e. some e) (owner cl pod name) pod.name r)
      ⊎ ((name : Text) × (proxy ≡ some name)
          × (lb ≡ none)
          × IsForgotten (ignore_not_found cl) (owner cl pod name) pod.name r)
      ⊎ ((name : Text) × (other : Text) × (first : S × Option E) × (lb ≡ some name)
          × (proxy ≡ some other)
          × IsForgotten (λ e. some e) (owner cl pod name) pod.name first
          × IsForgotten (ignore_not_found cl) (owner cl pod other) pod.name r)

  module _
      (retries : (f : S → S × Option E) (s : S) → (t : S) × (cl.retry_on_conflict f s ≡ f t)) where
    remove_pod-IsForgotten :
        (name : NamespacedName) (pod : Text) (s : S)
        → IsForgotten (λ e. some e) name pod (remove_pod cl name pod s)
    unfolding remove_pod try_remove_pod
    remove_pod-IsForgotten name pod s =
        let (t, last) = retries (try_remove_pod cl name pod) s in
        elim (Result-cases (cl.get_proxy t name).1) [
          | inr (e, bad) ↦ (t, inl (e, ground arith, ground arith))
          | inl (proxy, got) ↦ elim (Option-cases (remove_proxy_info pod proxy)) [
            | inl lacks ↦ (t, inr (inl (proxy, ground arith, lacks, ground arith)))
            | inr (changed, has) ↦ (t, inr (inr (proxy, changed, got, has, ground arith)))
          ]
        ]

    remove_proxy-IsForgotten :
        (name : NamespacedName) (pod : Text) (s : S)
        → IsForgotten (ignore_not_found cl) name pod (remove_proxy cl name pod s)
    unfolding remove_proxy try_remove_proxy
    remove_proxy-IsForgotten name pod s =
        let (t, last) = retries (try_remove_proxy cl name pod) s in
        elim (Result-cases (cl.get_proxy t name).1) [
          | inr (e, bad) ↦ (t, inl (e, ground arith, ground arith))
          | inl (proxy, got) ↦ elim (Option-cases (remove_proxy_info pod proxy)) [
            | inl lacks ↦ (t, inr (inl (proxy, ground arith, lacks, ground arith)))
            | inr (changed, has) ↦ (t, inr (inr (proxy, changed, got, has, ground arith)))
          ]
        ]

    remove_info-IsCleanedUp : (pod : Pod) (s : S) → IsCleanedUp pod s (remove_info cl pod s)
    unfolding remove_info
    remove_info-IsCleanedUp pod s =
        elim (Option-cases (lookup text_dec owning_load_balancer pod.labels)) [
          | inl unowned ↦ elim (Option-cases (lookup text_dec owning_proxy pod.labels)) [
            | inl neither ↦ inl (unowned, neither, ground arith)
            | inr (name, is) ↦
                let run = remove_proxy cl (owner cl pod name) pod.name s in
                let same : run ≡ remove_info cl pod s = ground arith in
                inr (
                  inr (
                    inl (
                      name,
                      is,
                      unowned,
                      subst (IsForgotten (ignore_not_found cl) (owner cl pod name) pod.name) same
                          (remove_proxy-IsForgotten (owner cl pod name) pod.name s),
                    )))
          ]
          | inr (lb, is) ↦
              let first = remove_pod cl (owner cl pod lb) pod.name s in
              let forgotten = remove_pod-IsForgotten (owner cl pod lb) pod.name s in
              elim (Option-cases (lookup text_dec owning_proxy pod.labels)) [
                | inl alone ↦
                    let same : first ≡ remove_info cl pod s = ground arith in
                    inr (
                      inl (
                        lb,
                        is,
                        alone,
                        subst (IsForgotten (λ e. some e) (owner cl pod lb) pod.name) same forgotten,
                      ))
                | inr (name, is') ↦
                    let same : remove_proxy cl (owner cl pod name) pod.name first.0
                        ≡ remove_info cl pod s =
                      ground arith in
                    inr (
                      inr (
                        inr (
                          lb,
                          name,
                          first,
                          is,
                          is',
                          forgotten,
                          subst (IsForgotten (ignore_not_found cl) (owner cl pod name) pod.name)
                              same (remove_proxy-IsForgotten (owner cl pod name) pod.name first.0),
                        )))
              ]
        ]

    -- Where `RetryOnConflict` returns what its last call returned, `Reconcile` of an Envoy pod that is
    -- to be deleted cleans up first: for each owner that a label of the pod names, the proxy of the
    -- owner's name was asked for, and if it could be read and has an entry of the pod, an update
    -- without that entry was made. After that it removes the finalizer, whatever became of the
    -- clean-up. It reports no error exactly if the finalizer went without one and the last of the
    -- clean-ups did: that of a proxy hides the error of that of a load balancer, and counts a proxy
    -- that is not there as done.
    pub reconcile_pod_deleting :
        (request : NamespacedName) (s : S) (pod : Pod)
        → (cl.get_pod s request).1 ≡ ok pod
        → has_envoy_labels pod.labels ≡ true
        → pod.deleting ≡ true
        → (cleaned : S × Option E) × IsCleanedUp pod (cl.get_pod s request).0 cleaned
          × ((reconcile_pod cl finalizer_name request s).0
              ≡ (remove_finalizer cl.finalizers finalizer_name (cleaned.0, pod)).0)
          × (((reconcile_pod cl finalizer_name request s).2 ≡ none) ↔ (
              (cleaned.1 ≡ none)
              × ((remove_finalizer cl.finalizers finalizer_name (cleaned.0, pod)).2 ≡ none)))
    unfolding reconcile_pod delete_pod
    reconcile_pod_deleting request s pod got envoy deleting =
        let s1 : S = (cl.get_pod s request).0 in
        let cleaned = remove_info cl pod s1 in
        let removed = remove_finalizer cl.finalizers finalizer_name (cleaned.0, pod) in
        elim (Option-cases removed.2) [
          | inr (x, bad) ↦ (cleaned, remove_info-IsCleanedUp pod s1, ground arith, ground arith)
          | inl good ↦ elim (Option-cases cleaned.1) [
            | inl clean ↦ (cleaned, remove_info-IsCleanedUp pod s1, ground arith, ground arith)
            | inr (x, bad) ↦ (cleaned, remove_info-IsCleanedUp pod s1, ground arith, ground arith)
          ]
        ]
