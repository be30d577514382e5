-- ===== src/Prefixes/Leaks.antt =====
-- Addresses that stay allocated when their owner is deleted.
use resource_model.Base.{
  ◌≡◌, ◌≢◌, ap, ◌∙◌, ◌++◌, some, arith, length, length-append, Text, text, text_dec,
}
use resource_model.GoMap.{lookup}
use resource_model.Allocator.Allocations.{Alloc, Allocator, alt_address_suffix, unassign}
use resource_model.Allocator.Allocations.Exclusive.{IsSound, unassign-IsSound}
use resource_model.Prefixes.{namespaced}

pub namespaced-longer : (namespace name : Text) → namespaced namespace name ≢ name
namespaced-longer namespace name e =
    let l = ap length e in
    omega (arith, l, length-append (namespace ++ text "/") name, length-append namespace (text "/"))

suffix-longer : (name : Text) → name ≢ name ++ alt_address_suffix
suffix-longer name e =
    let l = ap length e in omega (arith, l, length-append name alt_address_suffix)

-- Deleting a proxy unassigns its namespaced name alone: the allocation of its alternative address, which
-- the webhook and the warm-up make under that name with the suffix "-alt", stays.
pub unassign_alt :
    (a : Allocator) (namespace name : Text) (al : Alloc)
    → IsSound a
    → lookup text_dec (namespaced namespace name ++ alt_address_suffix) a.allocated ≡ some al
    → lookup text_dec
        (namespaced namespace name ++ alt_address_suffix)
        (unassign a (namespaced namespace name)).0.allocated
      ≡ some al
unassign_alt a namespace name al sound has =
    let svc = namespaced namespace name in
    (unassign-IsSound a svc sound).2 (svc ++ alt_address_suffix) (suffix-longer svc) ∙ has
