-- ===== src/Routing/Hosts.antt =====
-- internal/contour/dag/gatewayapi_processor.go and internal/contour/gatewayapi/listeners.go: the
-- hostnames at which a route is reachable through a listener.
pub mod Matching
pub mod Computed
use Prim.Native.Nat.{Ordering}
use mathlib.Core.Option.{get_or}
use resource_model.Base.{
  ℕ, ltb, Bool, true, false, not, List, [], ◌∷◌, ◌++◌, Option, none, some, Text, text, text_dec,
  length, if◌then◌else◌, ◌==◌, ite, trim_prefix?, trim_suffix?,
}
use resource_model.Allocator.Ip.{compare_bytes}

-- The asterisk.
abbrev pub star : ℕ
star = 42

-- `strings.HasPrefix(name, "*")`
abbrev pub is_wild : Text → Bool
is_wild [] = false
is_wild (c ∷ cs) = c == star

-- `strings.TrimPrefix(name, "*")`
abbrev pub trim_star : Text → Text
trim_star [] = []
trim_star (c ∷ cs) = if c == star then cs else c ∷ cs

-- `strings.Contains(name, "*")`
abbrev has_star : Text → Bool
has_star [] = false
has_star (c ∷ cs) = if c == star then true else has_star cs

unfoldable pub hostname_matches_wildcard : Text → Text → Bool
hostname_matches_wildcard hostname wildcard = elim (trim_suffix? (trim_star wildcard) hostname) [
  | none ↦ false
  | some wildcard_match ↦ ltb 0 (length wildcard_match)
]

-- `sets.String` with `Insert`, kept in the order in which `List` returns it.
unfoldable pub set_insert : Text → List Text → List Text
set_insert h [] = h ∷ []
set_insert h (x ∷ xs) =
    let rest = set_insert h xs in
    elim (compare_bytes h x) [
      | Ordering.lt ↦ h ∷ x ∷ xs
      | Ordering.eq ↦ x ∷ xs
      | Ordering.gt ↦ x ∷ rest
    ]

-- The switch of `ComputeHosts`: the hostname that it inserts, if it inserts one.
unfoldable pub common_host : Text → Text → Option Text
unfolding hostname_matches_wildcard
common_host listener route =
    if length listener == 0
    then some route
    else ite (text_dec listener route) (some route) (
        if is_wild listener
        then (if hostname_matches_wildcard route listener then some route else none)
        else if is_wild route
        then (if hostname_matches_wildcard listener route then some listener else none)
        else none)

-- `none` is a nil pointer, and the empty name stands for no name.
abbrev pub listener_or_all : Option Text → Text
listener_or_all none = star ∷ []
listener_or_all (some []) = star ∷ []
listener_or_all (some (c ∷ cs)) = c ∷ cs

-- `net.ParseIP(...) != nil` and the two validations of k8s.io/apimachinery, which return no error.
module _ (is_ip is_wildcard_subdomain is_subdomain : Text → Bool) where
  unfoldable pub is_valid_hostname : Text → Bool
  is_valid_hostname hostname =
      if is_ip hostname
      then false
      else if has_star hostname
      then is_wildcard_subdomain hostname
      else is_subdomain hostname

  -- The loop of `ComputeHosts`: the set of hostnames and the invalid ones, one for each error.
  unfoldable pub hosts_loop : Text → List Text → List Text × List Text → List Text × List Text
  hosts_loop listener [] (hosts, errs) = (hosts, errs)
  hosts_loop listener (route ∷ routes) (hosts, errs) = hosts_loop listener routes (
      if is_valid_hostname route
      then (elim (common_host listener route) [ none ↦ hosts | some h ↦ set_insert h hosts ], errs)
      else (hosts, errs ++ (route ∷ [])))

  unfoldable pub compute_hosts : List Text → Option Text → List Text × List Text
  compute_hosts [] raw = (listener_or_all raw ∷ [], [])
  compute_hosts (route ∷ routes) raw = hosts_loop (listener_or_all raw) (route ∷ routes) ([], [])
