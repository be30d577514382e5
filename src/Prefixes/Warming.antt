-- ===== src/Prefixes/Warming.antt =====
-- What the allocator knows after the warm-up.
use resource_model.Base.{
  ℕ, ◌≡◌, ◌≢◌, refl, sym, ap, subst, ◌∙◌, ◌⊎◌, inl, inr, Bool, List, [], ◌∷◌, ◌++◌, map, Option,
  none, some, arith, All, Text, text_dec, Option-cases, ok, err, Result-cases,
}
use resource_model.GoMap.{lookup}
use resource_model.Allocator.Ip.{Ip}
use resource_model.Allocator.Pool.{ServicePort}
use resource_model.Allocator.Allocations
use resource_model.Allocator.Allocations.{Allocator, alloc_of, alt_address_suffix, assign}
use resource_model.Allocator.Allocations.Exclusive.{IsSound}
use resource_model.Allocator.Allocations.Handing.{IsHanded, assign-IsHanded}
use resource_model.Prefixes.{
  LoadBalancer, GwProxy, Client, namespaced, warm, warm_load_balancers, warm_proxy, warm_proxies,
  warm_from_proxies, warm_up,
}

-- A service, and the address that its object has.
pub record Claim : Type 0 where
  pub service : Text
  pub address : Text
  pub ports : List ServicePort

abbrev pub load_balancer_claims : List LoadBalancer → List Claim
load_balancer_claims = map (λ (lb : LoadBalancer). record {
  service = lb.name;
  address = lb.public_address;
  ports = lb.public_ports;
})

abbrev pub proxy_claims : List GwProxy → List Claim
proxy_claims [] = []
proxy_claims (p ∷ ps) =
    let svc = namespaced p.namespace p.name in
    record { service = svc; address = p.public_address; ports = p.public_ports }
    ∷ record {
      service = svc ++ alt_address_suffix;
      address = p.alt_address;
      ports = p.public_ports;
    }
    ∷ proxy_claims ps

-- No service has two claims.
abbrev pub IsApart : List Claim → Type 0
IsApart [] = Unit
IsApart (c ∷ cs) = All (λ d. d.service ≢ c.service) cs × IsApart cs

module _ (parse_ip : Text → Option Ip) where
  warm_all : List Claim → Allocator → Option Allocator
  warm_all [] a = some a
  warm_all (c ∷ cs) a = elim (warm parse_ip c.service c.address c.ports a) [
    | none ↦ none
    | some a' ↦ warm_all cs a'
  ]

  warm_load_balancers-all :
      (lbs : List LoadBalancer) (a : Allocator)
      → warm_load_balancers parse_ip lbs a ≡ warm_all (load_balancer_claims lbs) a
  unfolding warm_load_balancers warm_all
  warm_load_balancers-all [] a = refl
  warm_load_balancers-all (lb ∷ lbs) a =
      elim (Option-cases (warm parse_ip lb.name lb.public_address lb.public_ports a)) [
        | inl e ↦ ground arith
        | inr (b, e) ↦ ground (arith, warm_load_balancers-all lbs b)
      ]

  warm_proxies-all :
      (ps : List GwProxy) (a : Allocator)
      → warm_proxies parse_ip ps a ≡ warm_all (proxy_claims ps) a
  unfolding warm_proxies warm_proxy warm_all
  warm_proxies-all [] a = refl
  warm_proxies-all (p ∷ ps) a =
      let svc = namespaced p.namespace p.name in
      elim (Option-cases (warm parse_ip svc p.public_address p.public_ports a)) [
        | inl e ↦ ground arith
        | inr (b, e) ↦
            elim (Option-cases
              (warm parse_ip (svc ++ alt_address_suffix) p.alt_address p.public_ports b)) [
                | inl f ↦ ground arith
                | inr (c, f) ↦ ground (arith, warm_proxies-all ps c)
              ]
      ]

  -- The turn of a claim on the allocator `a`, which leaves `m`: the claim has no address, or `Assign`
  -- refuses it, and both change nothing; or `Assign` gives it its address, and it still has that in `b`.
  abbrev pub IsTurn : Claim → Allocator → Allocator → Allocator → Type 0
  IsTurn c a m b =
      ((parse_ip c.address ≡ none) × (m ≡ a))
      ⊎ ((ip : Ip) × (e : Allocations.Error) × (parse_ip c.address ≡ some ip)
          × (assign a c.service ip c.ports [] ≡ err e)
          × (m ≡ a))
      ⊎ ((ip : Ip) × (pool : Text) × (parse_ip c.address ≡ some ip)
          × (assign a c.service ip c.ports [] ≡ ok (pool, m))
          × (lookup text_dec c.service b.allocated ≡ some (alloc_of pool ip c.ports [])))

  -- The claims have their turns one after the other, and `b` is the allocator in the end.
  abbrev pub AllTurns : List Claim → Allocator → Allocator → Type 0
  AllTurns [] a b = a ≡ b
  AllTurns (c ∷ cs) a b = (m : Allocator) × IsTurn c a m b × AllTurns cs m b

  -- What a run of the warm-up did for the claims.
  abbrev pub IsWarm : List Claim → Allocator → Allocator → Type 0
  IsWarm cs a b =
      IsSound b
      × AllTurns cs a b
      × ((s : Text)
          → All (λ c. c.service ≢ s) cs
          → lookup text_dec s b.allocated ≡ lookup text_dec s a.allocated)

  warm-IsTurn :
      (c : Claim) (a b : Allocator)
      → IsSound a
      → warm parse_ip c.service c.address c.ports a ≡ some b
      → IsSound b
        × IsTurn c a b b
        × ((s : Text)
            → c.service ≢ s
            → lookup text_dec s b.allocated ≡ lookup text_dec s a.allocated)
  unfolding warm
  warm-IsTurn c a b sound e = elim (Option-cases (parse_ip c.address)) [
    | inl bad ↦
        let same : a ≡ b = ground arith in
        (subst IsSound same sound, inl (bad, sym same), λ s d. ground arith)
    | inr (ip, good) ↦ elim (Result-cases (assign a c.service ip c.ports [])) [
      | inr (x, refused) ↦
          let same : a ≡ b = ground arith in
          (
            subst IsSound same sound,
            inr (inl (ip, x, good, refused, sym same)),
            λ s d. ground arith,
          )
      | inl ((pool, a'), done) ↦
          let same : a' ≡ b = ground arith in
          let (sound', has, others) =
            subst (λ x. IsHanded a x c.service (alloc_of pool ip c.ports [])) same
              (assign-IsHanded a a' c.service pool ip c.ports sound done) in
          (sound', inr (inr (ip, pool, good, done ∙ ap (λ x. ok (pool, x)) same, has)), others)
    ]
  ]

  -- Later claims of other services leave what the turn gave.
  IsTurn-later :
      (c : Claim) (a m b : Allocator)
      → lookup text_dec c.service b.allocated ≡ lookup text_dec c.service m.allocated
      → IsTurn c a m m
      → IsTurn c a m b
  IsTurn-later c a m b same (inl bad) = inl bad
  IsTurn-later c a m b same (inr (inl refused)) = inr (inl refused)
  IsTurn-later c a m b same (inr (inr (ip, pool, good, done, has))) =
      inr (inr (ip, pool, good, done, same ∙ has))

  warm_all-IsWarm :
      (cs : List Claim) (a b : Allocator)
      → IsSound a
      → IsApart cs
      → warm_all cs a ≡ some b
      → IsWarm cs a b
  unfolding warm_all
  warm_all-IsWarm [] a b sound apart e =
      let same : a ≡ b = ground arith in (subst IsSound same sound, same, λ s h. ground arith)
  warm_all-IsWarm (c ∷ cs) a b sound (differ, apart) e =
      elim (Option-cases (warm parse_ip c.service c.address c.ports a)) [
        | inl bad ↦ absurd (ground arith)
        | inr (m, one) ↦
            let (sound1, turn, others) = warm-IsTurn c a m sound one in
            let (sound', turns, rest) = warm_all-IsWarm cs m b sound1 apart (ground arith) in
            (
              sound',
              (m, IsTurn-later c a m b (rest c.service differ) turn, turns),
              λ s h. rest s h.1 ∙ others s h.0,
            )
      ]

  warm_all-append :
      (cs ds : List Claim) (a b : Allocator)
      → warm_all cs a ≡ some b
      → warm_all (cs ++ ds) a ≡ warm_all ds b
  unfolding warm_all
  warm_all-append [] ds a b e = ground arith
  warm_all-append (c ∷ cs) ds a b e =
      elim (Option-cases (warm parse_ip c.service c.address c.ports a)) [
        | inl bad ↦ absurd (ground arith)
        | inr (a1, one) ↦ ground (arith, warm_all-append cs ds a1 b)
      ]

  -- Where the warm-up ends without an error, from a sound allocator and for services that are all
  -- different, the load balancers under their bare names, the allocator is sound. Each load balancer,
  -- and then each proxy with its alternative address after it, had its turn on the allocator that the
  -- ones before it left: it has no address, or `Assign` refuses it there, and either changes nothing; or
  -- `Assign` gives it its address, which it has in the end. The allocation of every other service is as
  -- it was.
  pub warm_up-IsWarm :
      {S E : Type 0} (parse_cidr : Text → Option (Ip × (Ip → Bool))) (fuel : ℕ) (cl : Client S E)
      (finalizer_name name : Text) (s s' : S) (a b : Allocator) (lbs : List LoadBalancer)
      (proxies : List GwProxy)
      → IsSound a
      → (cl.list_load_balancers s name).1 ≡ ok lbs
      → (cl.list_proxies (cl.list_load_balancers s name).0 name).1 ≡ ok proxies
      → IsApart (load_balancer_claims lbs ++ proxy_claims proxies)
      → warm_up parse_ip parse_cidr fuel cl finalizer_name name s a ≡ (s', b, none)
      → IsWarm (load_balancer_claims lbs ++ proxy_claims proxies) a b
  unfolding warm_up warm_from_proxies
  warm_up-IsWarm parse_cidr fuel cl finalizer_name name s s' a b lbs proxies sound listed listed'
        apart e =
      elim (Option-cases (warm_load_balancers parse_ip lbs a)) [
        | inl bad ↦ absurd (ground arith)
        | inr (mid, one) ↦ elim (Option-cases (warm_proxies parse_ip proxies mid)) [
          | inl bad ↦ absurd (ground arith)
          | inr (b', two) ↦
              let same : b' ≡ b = ground arith in
              let first : warm_all (load_balancer_claims lbs) a ≡ some mid =
                sym (warm_load_balancers-all lbs a) ∙ one in
              let second : warm_all (proxy_claims proxies) mid ≡ some b' =
                sym (warm_proxies-all proxies mid) ∙ two in
              warm_all-IsWarm (load_balancer_claims lbs ++ proxy_claims proxies) a b sound apart (
                warm_all-append (load_balancer_claims lbs) (proxy_claims proxies) a mid first
                ∙ second
                ∙ ap some same)
        ]
      ]
