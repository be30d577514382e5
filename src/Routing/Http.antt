-- ===== src/Routing/Http.antt =====
-- `preprocessHTTPRoutes` of internal/envoy/resource.go: one output route for each hostname.
pub mod Gathering
pub mod Grouping
pub mod Invalid
use mathlib.Core.Option.{get_or}
use resource_model.Base.{ℕ, Bool, List, [], ◌∷◌, ◌++◌, Option, none, some, Text, text_dec}
use resource_model.GoMap.{GoMap, lookup, insert}
use resource_model.Routing.Hosts.{star, compute_hosts}
use resource_model.Routing.Rules.{
  LongSort, Rule, split_matches, combine_route_rules, sort_route_rules,
}

-- `HTTPRouteSpec` of a route, without its parents.
pub record HttpRoute (F B : Type 0) : Type 0 where
  pub hostnames : List Text
  pub rules : List (Rule F B)

-- `none` is a nil pointer.
abbrev pub default_host : Option Text → Text
default_host none = star ∷ []
default_host (some h) = h

module _ {F B : Type 0} where
  module _ (is_ip is_wildcard_subdomain is_subdomain : Text → Bool) where
    -- A copy of the route with explicit hostnames. `none` is the zero route that stays in the slice
    -- where a hostname is invalid: it has no HTTP part, and its use panics.
    unfoldable pub explicit : Option Text → HttpRoute F B → Option (HttpRoute F B)
    explicit raw route =
        let (names, errs) =
          compute_hosts is_ip is_wildcard_subdomain is_subdomain route.hostnames raw in
        elim errs [
          | e ∷ es ↦ none
          | [] ↦ some (record route {
            hostnames = elim route.hostnames [ [] ↦ default_host raw ∷ [] | h ∷ hs ↦ names ];
          })
        ]

    -- The first loop, together with the panic of the second.
    unfoldable pub explicit_all : Option Text → List (HttpRoute F B) → Option (List (HttpRoute F B))
    explicit_all raw [] = some []
    explicit_all raw (route ∷ routes) = elim (explicit raw route) [
      | none ↦ none
      | some cooked ↦ elim (explicit_all raw routes) [
        | none ↦ none
        | some rest ↦ some (cooked ∷ rest)
      ]
    ]

  -- The second loop: an output route without rules for each hostname.
  unfoldable pub seed_hosts :
      List Text → GoMap Text (List (Rule F B)) → GoMap Text (List (Rule F B))
  seed_hosts [] m = m
  seed_hosts (h ∷ hs) m = seed_hosts hs (insert text_dec h [] m)

  unfoldable pub seed :
      List (HttpRoute F B) → GoMap Text (List (Rule F B)) → GoMap Text (List (Rule F B))
  seed [] m = m
  seed (route ∷ routes) m = seed routes (seed_hosts route.hostnames m)

  -- The third loop. `none` is the panic on a hostname without an output route.
  unfoldable pub gather_hosts :
      List Text
      → List (Rule F B)
      → GoMap Text (List (Rule F B))
      → Option (GoMap Text (List (Rule F B)))
  gather_hosts [] rules m = some m
  gather_hosts (h ∷ hs) rules m = elim (lookup text_dec h m) [
    | none ↦ none
    | some before ↦ gather_hosts hs rules (insert text_dec h (before ++ split_matches rules) m)
  ]

  unfoldable pub gather :
      List (HttpRoute F B) → GoMap Text (List (Rule F B)) → Option (GoMap Text (List (Rule F B)))
  gather [] m = some m
  gather (route ∷ routes) m = elim (gather_hosts route.hostnames route.rules m) [
    | none ↦ none
    | some m' ↦ gather routes m'
  ]

  module _ (filter_dec : Discrete F) (sort_long : LongSort F B) where
    -- The last loop, in the order of the map. `none` is a panic of the sort.
    unfoldable pub flatten : GoMap Text (List (Rule F B)) → Option (List (HttpRoute F B))
    flatten [] = some []
    flatten ((h, rules) ∷ m) =
        elim (sort_route_rules sort_long (combine_route_rules filter_dec rules)) [
          | none ↦ none
          | some ordered ↦ elim (flatten m) [
            | none ↦ none
            | some rest ↦ some (record { hostnames = h ∷ []; rules = ordered } ∷ rest)
          ]
        ]

    unfoldable pub preprocess_http_routes :
        (Text → Bool)
        → (Text → Bool)
        → (Text → Bool)
        → Option Text
        → List (HttpRoute F B)
        → Option (List (HttpRoute F B))
    preprocess_http_routes is_ip is_wildcard_subdomain is_subdomain raw raw_routes =
        elim (explicit_all is_ip is_wildcard_subdomain is_subdomain raw raw_routes) [
          | none ↦ none
          | some routes ↦ elim (gather routes (seed routes [])) [ none ↦ none | some m ↦ flatten m ]
        ]
