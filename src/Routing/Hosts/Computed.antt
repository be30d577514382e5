-- ===== src/Routing/Hosts/Computed.antt =====
-- What `ComputeHosts` returns.
use Prim.Native.Nat.{Ordering}
use resource_model.Base.{
  In-append, ◌≡◌, ◌↔◌, ◌⊎◌, refl, subst, inl, inr, Bool, true, false, List, [], ◌∷◌, ◌++◌, Option,
  some, arith, Text, Bool-cases, Option-cases, In,
}
use resource_model.Allocator.Ip.{compare_bytes}
use resource_model.Routing.Hosts.{
  set_insert, common_host, is_valid_hostname, hosts_loop, compute_hosts, listener_or_all,
}

compare_bytes_eq : (a b : Text) → compare_bytes a b ≡ Ordering.eq → a ≡ b
unfolding compare_bytes
compare_bytes_eq [] [] e = refl
compare_bytes_eq [] (y ∷ ys) e = absurd (ground arith)
compare_bytes_eq (x ∷ xs) [] e = absurd (ground arith)
compare_bytes_eq (x ∷ xs) (y ∷ ys) e = ground (arith, compare_bytes_eq xs ys)

set_insert-In : (x h : Text) (xs : List Text) → In x (set_insert h xs) ↔ ((x ≡ h) ⊎ In x xs)
unfolding set_insert
set_insert-In x h [] = ground arith
set_insert-In x h (y ∷ ys) = ground (arith, set_insert-In x h ys, compare_bytes_eq h y)

module _ (is_ip is_wildcard_subdomain is_subdomain : Text → Bool) where
  abbrev is_valid : Text → Bool
  is_valid = is_valid_hostname is_ip is_wildcard_subdomain is_subdomain

  -- Some valid hostname of the route has this hostname in common with the listener.
  abbrev pub IsCommon : Text → List Text → Text → Type 0
  IsCommon listener routes h =
      (route : Text) × In route routes
      × (is_valid route ≡ true)
      × (common_host listener route ≡ some h)

  IsCommon-cons :
      (listener route : Text) (routes : List Text) (h : Text)
      → IsCommon listener (route ∷ routes) h ↔ (
          ((is_valid route ≡ true) × (common_host listener route ≡ some h))
          ⊎ IsCommon listener routes h)
  IsCommon-cons listener route routes h = (
    λ (r, i, v, c). elim i [
      | inl same ↦ inl (
        subst (λ r. is_valid r ≡ true) same v,
        subst (λ r. common_host listener r ≡ some h) same c,
      )
      | inr later ↦ inr (r, later, v, c)
    ],
    λ e. elim e [ inl (v, c) ↦ (route, inl refl, v, c) | inr (r, i, v, c) ↦ (r, inr i, v, c) ],
  )

  hosts_loop_lem :
      (listener : Text) (routes hosts errs : List Text) (h : Text)
      → (In h (hosts_loop is_ip is_wildcard_subdomain is_subdomain listener routes (hosts, errs)).0
          ↔ (In h hosts ⊎ IsCommon listener routes h))
        × (In h
              (hosts_loop is_ip is_wildcard_subdomain is_subdomain listener routes (hosts, errs)).1
            ↔ (In h errs ⊎ (In h routes × (is_valid h ≡ false))))
  unfolding hosts_loop
  hosts_loop_lem listener [] hosts errs h = ground arith
  hosts_loop_lem listener (route ∷ routes) hosts errs h = elim (Bool-cases (is_valid route)) [
    | inr bad ↦ ground (
      arith,
      bad,
      IsCommon-cons listener route routes h,
      hosts_loop_lem listener routes hosts (errs ++ (route ∷ [])) h,
      In-append h errs (route ∷ []),
    )
    | inl good ↦ elim (Option-cases (common_host listener route)) [
      | inl e ↦ ground (
        arith,
        good,
        e,
        IsCommon-cons listener route routes h,
        hosts_loop_lem listener routes hosts errs h,
      )
      | inr (x, e) ↦ ground (
        arith,
        good,
        e,
        IsCommon-cons listener route routes h,
        hosts_loop_lem listener routes (set_insert x hosts) errs h,
        set_insert-In h x hosts,
      )
    ]
  ]

  -- For a route with hostnames, `ComputeHosts` returns exactly the hostnames that some valid
  -- hostname of the route has in common with the listener, and an error for exactly the invalid
  -- hostnames of the route.
  pub compute_hosts_lem :
      (route : Text) (routes : List Text) (raw : Option Text) (h : Text)
      → let result = compute_hosts is_ip is_wildcard_subdomain is_subdomain (route ∷ routes) raw in
        (In h result.0 ↔ IsCommon (listener_or_all raw) (route ∷ routes) h)
        × (In h result.1 ↔ (In h (route ∷ routes) × (is_valid h ≡ false)))
  unfolding compute_hosts
  compute_hosts_lem route routes raw h =
      ground (arith, hosts_loop_lem (listener_or_all raw) (route ∷ routes) [] [] h)
