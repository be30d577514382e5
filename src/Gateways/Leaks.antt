-- ===== src/Gateways/Leaks.antt =====
-- What the proxy controller leaves allocated.
use resource_model.Base.{
  ◌≡◌, inl, inr, Bool, ◌++◌, some, arith, Text, text_dec, Option-cases, Bool-cases, Result-cases,
}
use resource_model.Routing.Rules.{LongSort}
use resource_model.GoMap.{lookup}
use resource_model.Links.{NamespacedName}
use resource_model.Allocator.Allocations.{Alloc, Allocator, alt_address_suffix}
use resource_model.Allocator.Allocations.Exclusive.{IsSound}
use resource_model.Prefixes.{namespaced}
use resource_model.Prefixes.Leaks.{unassign_alt}
use resource_model.Envoys.{Network}
use resource_model.Routing.Configs.{Route, Templates}
use resource_model.Routing.Configs.Translation.{Ranges}
use resource_model.Gateways.{Client, kludge_proxy}
use resource_model.Gateways.Controller.{delete_proxy, reconcile_proxy}

module _ {S E F B A N T : Type 0} (cl : Client S E F B) (net : Network A N)
    (tp : Templates T (Route F B) E) (rg : Ranges (Route F B)) (ref_name : B → Text)
    (filter_dec : Discrete F) (sort_long : LongSort F B)
    (is_ip is_wildcard_subdomain is_subdomain : Text → Bool) (finalizer_name : Text) where
  -- `Reconcile` of a proxy on a sound allocator, also of one that is to be deleted, leaves the allocation
  -- under the namespaced name of the proxy with the suffix "-alt", which is that of its alternative
  -- address.
  pub reconcile_proxy_keeps :
      (request : NamespacedName) (s : S) (a : Allocator) (al : Alloc)
      → IsSound a
      → lookup text_dec
          (namespaced request.namespace request.name ++ alt_address_suffix)
          a.allocated
        ≡ some al
      → lookup text_dec
          (namespaced request.namespace request.name ++ alt_address_suffix)
          (reconcile_proxy cl net tp rg ref_name filter_dec sort_long is_ip is_wildcard_subdomain
            is_subdomain finalizer_name request s a).1.allocated
        ≡ some al
  unfolding reconcile_proxy delete_proxy
  reconcile_proxy_keeps request s a al sound has =
      let kept = unassign_alt a request.namespace request.name al sound has in
      elim (Result-cases (cl.get_proxy s request).1) [
        | inr (x, gone) ↦ ground arith
        | inl (proxy, got) ↦
            elim (Option-cases (kludge_proxy cl request (cl.get_proxy s request).0).1) [
              | inr (y, bad) ↦ ground arith
              | inl fine ↦ elim (Bool-cases proxy.deleting) [
                | inl is ↦ ground (arith, kept)
                | inr is ↦ ground arith
              ]
            ]
      ]
