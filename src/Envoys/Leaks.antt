-- ===== src/Envoys/Leaks.antt =====
-- What the load balancer controller leaves allocated.
use resource_model.Base.{◌≡◌, inl, inr, arith, Text, text_dec, Bool-cases, Result-cases}
use resource_model.GoMap.{lookup}
use resource_model.Links.{NamespacedName}
use resource_model.Allocator.Allocations.{Allocator}
use resource_model.Allocator.Allocations.Exclusive.{IsSound, unassign-IsSound}
use resource_model.Prefixes.{namespaced}
use resource_model.Prefixes.Leaks.{namespaced-longer}
use resource_model.Envoys.{Network}
use resource_model.Envoys.Controller.{Client, reconcile_load_balancer, delete_load_balancer}

module _ {S E A N : Type 0} (cl : Client S E) (net : Network A N) (finalizer_name : Text) where
  -- `Reconcile` of a load balancer on a sound allocator, also of one that is to be deleted, leaves the
  -- allocation under the bare name of the load balancer, which is the name that the warm-up uses.
  pub reconcile_load_balancer_keeps :
      (request : NamespacedName) (s : S) (a : Allocator)
      → IsSound a
      → lookup text_dec request.name
          (reconcile_load_balancer cl net finalizer_name request s a).1.allocated
        ≡ lookup text_dec request.name a.allocated
  unfolding reconcile_load_balancer delete_load_balancer
  reconcile_load_balancer_keeps request s a sound =
      let svc = namespaced request.namespace request.name in
      let kept =
        (unassign-IsSound a svc sound).2 request.name
          (namespaced-longer request.namespace request.name) in
      elim (Result-cases (cl.get_load_balancer s request).1) [
        | inr (x, gone) ↦ ground arith
        | inl (lb, got) ↦ elim (Bool-cases lb.deleting) [
          | inl is ↦ ground (arith, kept)
          | inr is ↦ ground arith
        ]
      ]
