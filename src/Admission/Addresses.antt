-- ===== src/Admission/Addresses.antt =====
-- The address of a proxy that the webhooks admit is one that the allocator handed out to it.
use mathlib.Core.Path.{ap₂}
use resource_model.Base.{
  ℕ, ◌≡◌, ◌≢◌, ◌⊎◌, refl, sym, ap, subst, ◌∙◌, inl, inr, List, [], ◌++◌, Option, none, some, arith,
  Text, text_dec, ok, Option-cases, Result-cases, length, length-append,
}
use resource_model.GoMap.{lookup}
use resource_model.Allocator.Ip.{Ip}
use resource_model.Allocator.Pool.{ServicePort}
use resource_model.Allocator.Allocations.{
  Alloc, Allocator, allocate_from_pool, alloc_of, alt_address_suffix,
}
use resource_model.Allocator.Allocations.Exclusive.{IsSound}
use resource_model.Allocator.Allocations.Handing.{allocate_from_pool-IsHanded}
use resource_model.Admission.{
  GwProxy, ServiceGroup, namespaced, proxy_address, proxy_alt_address, proxy_gateway, prepared,
  finalizer_name, add_finalizer, default_proxy,
}

differs_from_longer : (name : Text) → name ≢ name ++ alt_address_suffix
differs_from_longer name e =
    let h = ap length e in omega (arith, h, length-append name alt_address_suffix)

module _ (show : Ip → Text) (dns_name : Text → Option Text) (fuel : ℕ) where
  -- The service holds the address whose text this is.
  abbrev pub HoldsAddress : Allocator → Text → Text → Type 0
  HoldsAddress a svc address =
      (al : Alloc) × (lookup text_dec svc a.allocated ≡ some al) × (address ≡ show al.ip)

  -- An allocation, where it succeeds, gives the service the address and leaves the allocator sound.
  allocated-HoldsAddress :
      (a b : Allocator) (svc pool : Text) (ip : Ip) (ports : List ServicePort)
      → IsSound a
      → allocate_from_pool fuel a svc pool ports [] ≡ ok (ip, b)
      → IsSound b
        × HoldsAddress b svc (show ip)
        × ((s address : Text) → svc ≢ s → HoldsAddress a s address → HoldsAddress b s address)
  allocated-HoldsAddress a b svc pool ip ports sound done =
      elim (allocate_from_pool-IsHanded fuel a b svc pool ip ports sound done) [
        | inl (al, has, same, unchanged) ↦ (
          subst IsSound (sym unchanged) sound,
          (al, ap (λ c. lookup text_dec svc c.allocated) unchanged ∙ has, ap show (sym same)),
          λ s address d h. subst (λ c. HoldsAddress c s address) (sym unchanged) h,
        )
        | inr (none_yet, (sound', has, others)) ↦ (
          sound',
          (alloc_of pool ip ports [], has, refl),
          λ s address d (al, e, t). (al, others s d ∙ e, t),
        )
      ]

  abbrev key : GwProxy → Text
  key r = namespaced r.namespace r.name

  proxy_address-HoldsAddress :
      (r r' : GwProxy) (sg : ServiceGroup) (a b : Allocator)
      → IsSound a
      → r.public_address ≡ []
      → proxy_address show dns_name fuel r sg a ≡ some (r', b)
      → IsSound b × HoldsAddress b (key r) r'.public_address × (key r' ≡ key r)
  unfolding proxy_address
  proxy_address-HoldsAddress r r' sg a b sound empty done =
      elim (Result-cases (allocate_from_pool fuel a (key r) sg.owning_prefix r.public_ports [])) [
        | inr (x, e) ↦ absurd (ground arith)
        | inl ((ip, c), e) ↦
            let same : c ≡ b = ground arith in
            let address : show ip ≡ r'.public_address = ground arith in
            let space : r'.namespace ≡ r.namespace = ground arith in
            let name : r'.name ≡ r.name = ground arith in
            let (sound', held, _) =
              allocated-HoldsAddress a c (key r) sg.owning_prefix ip r.public_ports sound e in
            (
              subst IsSound same sound',
              subst (λ t. HoldsAddress b (key r) t) address
                  (subst (λ b. HoldsAddress b (key r) (show ip)) same held),
              ap₂ namespaced space name,
            )
      ]

  -- The proxy still has its address after a step that may allocate another.
  abbrev Keeps : GwProxy → GwProxy × Allocator → Type 0
  Keeps r (r', b) =
      IsSound b
      × HoldsAddress b (key r) r'.public_address
      × (key r' ≡ key r)
      × (r'.public_address ≡ r.public_address)

  proxy_alt_address-HoldsAddress :
      (r : GwProxy) (sg : ServiceGroup) (a : Allocator)
      → IsSound a
      → HoldsAddress a (key r) r.public_address
      → Keeps r (proxy_alt_address show dns_name fuel r sg a)
  unfolding proxy_alt_address
  proxy_alt_address-HoldsAddress r sg a sound held =
      let same : Keeps r (r, a) = (sound, held, refl, refl) in
      elim (text_dec r.alt_address []) [
        | no given ↦
            let is : (r, a) ≡ proxy_alt_address show dns_name fuel r sg a = ground arith in
            subst (Keeps r) is same
        | yes empty ↦
            elim (Result-cases (
              allocate_from_pool fuel a (key r ++ alt_address_suffix)
                (sg.owning_prefix ++ alt_address_suffix) r.public_ports [])) [
                  | inr (x, e) ↦
                      let is : (r, a) ≡ proxy_alt_address show dns_name fuel r sg a =
                        ground arith in
                      subst (Keeps r) is same
                  | inl ((ip, c), e) ↦
                      let made : GwProxy = record r { alt_address = show ip } in
                      let is : (made, c) ≡ proxy_alt_address show dns_name fuel r sg a =
                        ground arith in
                      let (sound', _, others) =
                        allocated-HoldsAddress a c (key r ++ alt_address_suffix)
                          (sg.owning_prefix ++ alt_address_suffix) ip r.public_ports sound e in
                      subst (Keeps r) is (
                        sound',
                        others (key r) r.public_address (λ d. differs_from_longer (key r) (sym d))
                            held,
                        refl,
                        refl,
                      )
                ]
      ]

  proxy_gateway-address :
      (r r' : GwProxy) → proxy_gateway r ≡ some r' → r'.public_address ≡ r.public_address
  unfolding proxy_gateway
  proxy_gateway-address r r' e = ground arith

  -- What `Default` makes of a proxy without an address, on a sound allocator: whatever it does, the
  -- allocator is sound again, and if the proxy now has an address, the allocator handed it out to
  -- the proxy.
  pub default_proxy-HoldsAddress :
      (group : Option ServiceGroup) (r r' : GwProxy) (a b : Allocator)
      → IsSound a
      → r.public_address ≡ []
      → default_proxy show dns_name fuel group r a ≡ some (r', b)
      → IsSound b
        × ((r'.public_address ≡ [])
            ⊎ HoldsAddress b (namespaced r.namespace r.name) r'.public_address)
  unfolding default_proxy
  default_proxy-HoldsAddress none r r' a b sound empty done =
      let same : a ≡ b = ground arith in
      let address : r.public_address ≡ r'.public_address = ground arith in
      (subst IsSound same sound, inl (sym address ∙ empty))
  default_proxy-HoldsAddress (some sg) r r' a b sound empty done =
      let r2 : GwProxy =
        prepared (record r { finalizers = add_finalizer finalizer_name r.finalizers }) sg in
      elim (Option-cases (proxy_address show dns_name fuel r2 sg a)) [
        | inl e ↦
            let same : a ≡ b = ground arith in
            let address : r.public_address ≡ r'.public_address = ground arith in
            (subst IsSound same sound, inl (sym address ∙ empty))
        | inr ((r3, a3), e) ↦
            let (sound3, held, name) = proxy_address-HoldsAddress r2 r3 sg a a3 sound empty e in
            let r4 : GwProxy = (proxy_alt_address show dns_name fuel r3 sg a3).0 in
            let (sound4, held4, name4, address4) =
              proxy_alt_address-HoldsAddress r3 sg a3 sound3
                (subst (λ k. HoldsAddress a3 k r3.public_address) (sym name) held) in
            elim (Option-cases (proxy_gateway r4)) [
              | inl panics ↦ absurd (ground arith)
              | inr (r5, goes) ↦
                  let same : (proxy_alt_address show dns_name fuel r3 sg a3).1 ≡ b = ground arith in
                  let address : r5.public_address ≡ r'.public_address = ground arith in
                  (
                    subst IsSound same sound4,
                    inr (
                        subst (λ t. HoldsAddress b (key r) t)
                          (sym (proxy_gateway-address r4 r5 goes) ∙ address)
                          (subst (λ c. HoldsAddress c (key r) r4.public_address) same
                            (subst
                              (λ k.
                                HoldsAddress (proxy_alt_address show dns_name fuel r3 sg a3).1 k
                                  r4.public_address)
                              name held4))),
                  )
            ]
      ]
