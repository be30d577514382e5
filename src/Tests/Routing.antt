-- ===== src/Tests/Routing.antt =====
-- internal/contour and internal/envoy at concrete hostnames, rules, routes and listeners.
use mathlib.Core.List.{Perm}
use resource_model.Base.{
  length, ◌≤◌, inl, sym, subst, ℕ, ◌≡◌, ◌↔◌, refl, inr, Bool, true, false, List, [], ◌∷◌, ◌++◌,
  none, some, arith, All, In, ℕ_discrete, Text, text, text_dec, trim_suffix?,
}
use resource_model.GoMap.{lookup}
use resource_model.Routing.Hosts.{
  common_host, compute_hosts, hosts_loop, is_valid_hostname, listener_or_all,
  hostname_matches_wildcard, set_insert,
}
use resource_model.Routing.Hosts.Matching.{Covers, common_host_lem}
use resource_model.Routing.Hosts.Computed.{IsCommon, compute_hosts_lem}
use resource_model.Routing.Rules.{
  Rule, Match, path_prefix, exact, split_matches, combine_route_rules, sort_route_rules, split_rule,
  combine_loop, merge_or_add, should_merge, matches_dec, match_dec, filters_dec, insertion_sort,
  move_left, precedes, match_precedes, is_catchall, criteria_count,
}
use resource_model.Routing.Rules.Combining.{IsCombined, backends_for, combine_route_rules_lem}
use resource_model.Routing.Rules.Sorting.{IsSplit, IsEarly, IsLast, sort_route_rules_lem}
use resource_model.Routing.Rules.Precedence.{Reaches, IsSingle, split_matches_lem}
use resource_model.Routing.Http.{HttpRoute, explicit, explicit_all, preprocess_http_routes}
use resource_model.Routing.Http.Gathering.{IsNamed, copies, rules_for}
use resource_model.Routing.Http.Grouping.{HasRoute, IsShort, IsCooked, preprocess_http_routes_lem}
use resource_model.Routing.Listeners.{Listener, listener_dec, collapse, https, tls_protocol}
use resource_model.Routing.Listeners.Collapsed.{collapse_lem}
use resource_model.Routing.Listeners.Collapsing.{IsServed}

abbrev never : Text → Bool
never t = false

abbrev always : Text → Bool
always t = true

abbrev listener_name : Text
listener_name = text "*.org"

abbrev site : Text
site = text "www.org"

common_host_lem_example :
    ((h : Text) × (common_host listener_name site ≡ some h) × Covers h site)
    ↔ (Covers listener_name site × Covers site site)
common_host_lem_example = common_host_lem listener_name site (λ e. ground arith) site (inr refl)

compute_hosts_lem_example :
    (In site (compute_hosts never always always (site ∷ []) (some listener_name)).0
      ↔ IsCommon never always always (listener_or_all (some listener_name)) (site ∷ []) site)
    × (In site (compute_hosts never always always (site ∷ []) (some listener_name)).1
        ↔ (In site (site ∷ []) × (is_valid_hostname never always always site ≡ false)))
compute_hosts_lem_example = compute_hosts_lem never always always site [] (some listener_name) site

abbrev prefix_match : Text → Match
prefix_match p = record {
  path = some (record { type = path_prefix; value = p });
  headers = none;
  query_params = none;
  method = none;
}

abbrev exact_match : Text → Match
exact_match p = record {
  path = some (record { type = exact; value = p });
  headers = none;
  query_params = none;
  method = none;
}

-- A rule with one match and one back end.
abbrev single : Match → ℕ → Rule ℕ ℕ
single m b = record { matches = m ∷ []; filters = none; backend_refs = b ∷ [] }

abbrev root : Match
root = prefix_match (text "/")

combine_route_rules_lem_example :
    IsCombined ℕ_discrete (combine_route_rules ℕ_discrete (single root 1 ∷ single root 2 ∷ []))
    × (backends_for ℕ_discrete
          (single root 0)
          (combine_route_rules ℕ_discrete (single root 1 ∷ single root 2 ∷ []))
        ≡ backends_for ℕ_discrete (single root 0) (single root 1 ∷ single root 2 ∷ []))
combine_route_rules_lem_example =
    combine_route_rules_lem ℕ_discrete (single root 0) (single root 1 ∷ single root 2 ∷ [])

abbrev unsorted : List (Rule ℕ ℕ)
unsorted = single root 1 ∷ single (prefix_match (text "/app")) 2 ∷ []

unsorted-IsSplit : All IsSplit unsorted
unsorted-IsSplit = (
  (root, refl, (λ e. ground arith)),
  ((prefix_match (text "/app"), refl, (λ e. ground arith)), tt),
)

two_rules : length unsorted ≤ 20
two_rules = omega arith

sort_route_rules_lem_example :
    (firsts lasts : List (Rule ℕ ℕ)) × (sort_route_rules some unsorted ≡ some (firsts ++ lasts))
    × Perm unsorted (firsts ++ lasts)
    × All IsEarly firsts
    × All IsLast lasts
sort_route_rules_lem_example = sort_route_rules_lem some unsorted two_rules unsorted-IsSplit

-- The catch-all goes last.
sorted :
    sort_route_rules some unsorted
    ≡ some (single (prefix_match (text "/app")) 2 ∷ single root 1 ∷ [])
unfolding sort_route_rules insertion_sort move_left precedes is_catchall criteria_count
    match_precedes text_dec
sorted = refl

split_matches_lem_example :
    All IsSingle (split_matches unsorted)
    × (Reaches (λ m. m ≡ root) (split_matches unsorted) 1 ↔ Reaches (λ m. m ≡ root) unsorted 1)
split_matches_lem_example = split_matches_lem (λ m. m ≡ root) unsorted 1

abbrev route : HttpRoute ℕ ℕ
route = record { hostnames = site ∷ []; rules = unsorted }

site_explicit : explicit_all never always always none (route ∷ []) ≡ some (route ∷ [])
unfolding explicit_all explicit compute_hosts hosts_loop is_valid_hostname common_host
    hostname_matches_wildcard trim_suffix? text_dec set_insert
site_explicit = refl

two_combined :
    length (combine_route_rules ℕ_discrete (rules_for site (route ∷ []))) ≡ length unsorted
unfolding rules_for copies split_matches split_rule combine_route_rules combine_loop merge_or_add
    should_merge matches_dec match_dec filters_dec text_dec ℕ_discrete
two_combined = refl

site-IsShort :
    (h : Text) → IsNamed h (route ∷ []) → IsShort ℕ_discrete some (rules_for h (route ∷ []))
site-IsShort h named = elim named [
  | inl i ↦ elim i [
    | inl same ↦
        subst (λ h. IsShort ℕ_discrete some (rules_for h (route ∷ []))) (sym same)
          (subst (λ n. n ≤ 20) (sym two_combined) (omega arith))
    | inr left ↦ absurd left
  ]
  | inr left ↦ absurd left
]

preprocess_http_routes_lem_example :
    (out : List (HttpRoute ℕ ℕ)) × (preprocess_http_routes ℕ_discrete some never always always none
        (route ∷ [])
      ≡ some out)
    × ((h : Text)
        → IsNamed h (route ∷ [])
        → HasRoute ℕ_discrete some out h (rules_for h (route ∷ [])))
    × ((r : HttpRoute ℕ ℕ)
        → In r out
        → (h : Text) × IsNamed h (route ∷ [])
          × (r.hostnames ≡ h ∷ [])
          × IsCooked ℕ_discrete some (rules_for h (route ∷ [])) r.rules)
preprocess_http_routes_lem_example =
    preprocess_http_routes_lem ℕ_discrete some never always always none (route ∷ []) (route ∷ [])
      site_explicit (((((λ e. ground arith), tt), (((λ e. ground arith), tt), tt)), tt))
      site-IsShort

abbrev listener : Text → ℕ → Text → Listener
listener name port protocol = record {
  name = name;
  hostname = none;
  port = port;
  protocol = protocol;
  tls = none;
  allowed_routes = none;
}

abbrev routes_of : ℕ → List ℕ
routes_of n = n ∷ []

abbrev first : Listener
first = listener (text "a") 443 https

abbrev second : Listener
second = listener (text "b") 80 (text "HTTP")

abbrev third : Listener
third = listener (text "c") 443 tls_protocol

collapse_lem_example :
    IsServed (collapse ((first, routes_of 1) ∷ (second, routes_of 2) ∷ [])) second (routes_of 2)
unfolding lookup listener_dec text_dec
collapse_lem_example =
    collapse_lem ((first, routes_of 1) ∷ (second, routes_of 2) ∷ []) second (routes_of 2)
      (refl, (refl, tt)) refl
