-- ===== src/Routing/Http/Grouping.antt =====
-- What `preprocessHTTPRoutes` returns: for each hostname the combined and sorted rules of the
-- routes with that hostname.
use resource_model.Base.{
  length, ◌≤◌, ◌≡◌, ◌≢◌, refl, sym, ap, ◌∙◌, subst, inl, inr, Bool, List, [], ◌∷◌, ◌++◌, Option,
  some, arith, All, All-append, In, Text, text_dec, Bool-cases,
}
use resource_model.GoMap.{lookup, IsMap}
use resource_model.Routing.Rules.{
  LongSort, Rule, Match, prefix_length, split_rule, split_matches, should_merge, merge_or_add,
  combine_loop, combine_route_rules, sort_route_rules,
}
use resource_model.Routing.Rules.Sorting.{IsSplit, sort_route_rules_lem}
use resource_model.Routing.Http.{HttpRoute, explicit_all, flatten, preprocess_http_routes}
use resource_model.Routing.Http.Gathering.{Hosts, copies, rules_for, IsNamed, gather-rules_for}

module _ {F B : Type 0} where
  -- No match of the rule is on an empty prefix.
  abbrev pub IsRooted : Rule F B → Type 0
  IsRooted rule = All (λ m. prefix_length m.path ≢ some 0) rule.matches

  split_rule-IsSplit :
      (rule : Rule F B) (ms : List Match)
      → All (λ m. prefix_length m.path ≢ some 0) ms
      → All IsSplit (split_rule rule ms)
  unfolding split_rule
  split_rule-IsSplit rule [] h = tt
  split_rule-IsSplit rule (m ∷ ms) h = ((m, refl, h.0), split_rule-IsSplit rule ms h.1)

  split_matches-IsSplit :
      (rules : List (Rule F B)) → All IsRooted rules → All IsSplit (split_matches rules)
  unfolding split_matches
  split_matches-IsSplit [] h = tt
  split_matches-IsSplit (r ∷ rules) h =
      All-append IsSplit (split_rule r r.matches) (split_matches rules)
        (split_rule-IsSplit r r.matches h.0) (split_matches-IsSplit rules h.1)

  copies-All :
      (P : Rule F B → Type 0) (h : Text) (hs : List Text) (rules : List (Rule F B))
      → All P rules
      → All P (copies h hs rules)
  unfolding copies
  copies-All P h [] rules ps = tt
  copies-All P h (x ∷ hs) rules ps =
      let rest = copies-All P h hs rules ps in
      ground (arith, All-append P rules (copies h hs rules) ps rest)

  rules_for-IsSplit :
      (h : Text) (routes : List (HttpRoute F B))
      → All (λ r. All IsRooted r.rules) routes
      → All IsSplit (rules_for h routes)
  unfolding rules_for
  rules_for-IsSplit h [] rooted = tt
  rules_for-IsSplit h (r ∷ routes) rooted =
      All-append IsSplit (copies h r.hostnames (split_matches r.rules)) (rules_for h routes)
        (copies-All IsSplit h r.hostnames (split_matches r.rules)
          (split_matches-IsSplit r.rules rooted.0))
        (rules_for-IsSplit h routes rooted.1)

module _ {F B : Type 0} (filter_dec : Discrete F) (sort_long : LongSort F B) where
  merge_or_add-IsSplit :
      (r : Rule F B) (output : List (Rule F B))
      → IsSplit r
      → All IsSplit output
      → All IsSplit (merge_or_add filter_dec r output)
  unfolding merge_or_add
  merge_or_add-IsSplit r [] h hs = (h, tt)
  merge_or_add-IsSplit r (p ∷ output) h hs = elim (Bool-cases (should_merge filter_dec p r)) [
    | inl e ↦ rw (merge_or_add, e) hs
    | inr e ↦ rw (merge_or_add, e) (hs.0, merge_or_add-IsSplit r output h hs.1)
  ]

  combine_loop-IsSplit :
      (output rules : List (Rule F B))
      → All IsSplit output
      → All IsSplit rules
      → All IsSplit (combine_loop filter_dec output rules)
  unfolding combine_loop
  combine_loop-IsSplit output [] hs h = hs
  combine_loop-IsSplit output (r ∷ rules) hs h =
      combine_loop-IsSplit (merge_or_add filter_dec r output) rules
        (merge_or_add-IsSplit r output h.0 hs) h.1

  combine_route_rules-IsSplit :
      (rules : List (Rule F B))
      → All IsSplit rules
      → All IsSplit (combine_route_rules filter_dec rules)
  unfolding combine_route_rules
  combine_route_rules-IsSplit rules h = ground (arith, combine_loop-IsSplit [] rules tt h)

  -- The rules of an output route, from those that were gathered for its hostname.
  abbrev pub IsCooked : List (Rule F B) → List (Rule F B) → Type 0
  IsCooked gathered rules =
      sort_route_rules sort_long (combine_route_rules filter_dec gathered) ≡ some rules

  -- There are up to 20 rules to be sorted.
  abbrev pub IsShort : List (Rule F B) → Type 0
  IsShort gathered = length (combine_route_rules filter_dec gathered) ≤ 20

  cooked :
      (gathered : List (Rule F B))
      → All IsSplit gathered × IsShort gathered
      → (rules : List (Rule F B)) × IsCooked gathered rules
  cooked gathered (h, short) =
      let (firsts, lasts, e, same, early, last) =
        sort_route_rules_lem sort_long (combine_route_rules filter_dec gathered) short
          (combine_route_rules-IsSplit gathered h) in
      (firsts ++ lasts, e)

  -- The output has a route for the hostname.
  abbrev pub HasRoute : List (HttpRoute F B) → Text → List (Rule F B) → Type 0
  HasRoute out h gathered =
      (route : HttpRoute F B) × In route out
      × (route.hostnames ≡ h ∷ [])
      × IsCooked gathered route.rules

  flatten_lem :
      (m : Hosts F B)
      → IsMap text_dec m
      → ((h : Text) (gathered : List (Rule F B))
          → lookup text_dec h m ≡ some gathered
          → All IsSplit gathered × IsShort gathered)
      → (out : List (HttpRoute F B)) × (flatten filter_dec sort_long m ≡ some out)
        × ((h : Text) (gathered : List (Rule F B))
            → lookup text_dec h m ≡ some gathered
            → HasRoute out h gathered)
        × ((route : HttpRoute F B)
            → In route out
            → (h : Text) × (gathered : List (Rule F B)) × (lookup text_dec h m ≡ some gathered)
              × (route.hostnames ≡ h ∷ [])
              × IsCooked gathered route.rules)
  unfolding flatten lookup
  flatten_lem [] map splits = ([], refl, (λ h g e. absurd (ground arith)), λ r i. absurd i)
  flatten_lem ((x, rules) ∷ m) map splits =
      let (ordered, e) = cooked rules (splits x rules (ground arith)) in
      let (rest, done, there, back) =
        flatten_lem m map.1 (λ h g l. splits h g (ground (arith, map.0))) in
      let route : HttpRoute F B = record { hostnames = x ∷ []; rules = ordered } in
      (
        route ∷ rest,
        rw (flatten, e, done) refl,
        (λ h g l. elim (text_dec x h) [
          | yes same ↦
              let g-rules : rules ≡ g = ground arith in
              (
                route,
                inl refl,
                ap (λ y. y ∷ []) same,
                ap (λ y. sort_route_rules sort_long (combine_route_rules filter_dec y))
                      (sym g-rules)
                    ∙ e,
              )
          | no differ ↦ let (r, i, names, c) = there h g (ground arith) in (r, inr i, names, c)
        ]),
        (λ r i. elim i [
          | inl same ↦ (
            x,
            rules,
            ground arith,
            ap (λ r. r.hostnames) same,
            e ∙ ap (λ r. some r.rules) (sym same),
          )
          | inr later ↦
              let (h, g, l, names, c) = back r later in
              let other : x ≢ h = λ s. ground (arith, map.0) in (h, g, ground arith, names, c)
        ]),
      )

  -- Where every hostname is valid, no path match is on an empty prefix, and no hostname has more than 20
  -- rules once they are split and combined, `preprocessHTTPRoutes` does not panic. It returns a route for each hostname of the routes and no others: the route has
  -- this hostname alone, and its rules are those of the routes with that hostname, split, combined
  -- and sorted.
  pub preprocess_http_routes_lem :
      (is_ip is_wildcard_subdomain is_subdomain : Text → Bool) (raw : Option Text)
      (raws routes : List (HttpRoute F B))
      → explicit_all is_ip is_wildcard_subdomain is_subdomain raw raws ≡ some routes
      → All (λ r. All IsRooted r.rules) routes
      → ((h : Text) → IsNamed h routes → IsShort (rules_for h routes))
      → (out : List (HttpRoute F B)) × (preprocess_http_routes filter_dec sort_long is_ip
            is_wildcard_subdomain is_subdomain raw raws
          ≡ some out)
        × ((h : Text) → IsNamed h routes → HasRoute out h (rules_for h routes))
        × ((route : HttpRoute F B)
            → In route out
            → (h : Text) × IsNamed h routes
              × (route.hostnames ≡ h ∷ [])
              × IsCooked (rules_for h routes) route.rules)
  unfolding preprocess_http_routes
  preprocess_http_routes_lem is_ip is_wildcard_subdomain is_subdomain raw raws routes valid rooted
        short =
      let (m, done, map, entries) = gather-rules_for routes in
      let gathered_is : (h : Text) (g : List (Rule F B))
          → lookup text_dec h m ≡ some g
          → IsNamed h routes × (rules_for h routes ≡ g) =
        λ h g l. elim (entries h) [
          | inl (named, e) ↦ (named, ground arith)
          | inr (unnamed, e) ↦ absurd (ground arith)
        ] in
      let (out, done', there, back) = flatten_lem m map (λ h g l.
        let (named, same) = gathered_is h g l in
        subst (λ g. All IsSplit g × IsShort g) same
          (rules_for-IsSplit h routes rooted, short h named)) in
      (
        out,
        rw (preprocess_http_routes, valid, done) done',
        (λ h named. elim (entries h) [
          | inl (_, e) ↦ there h (rules_for h routes) e
          | inr (unnamed, e) ↦ absurd (unnamed named)
        ]),
        (λ route i.
            let (h, g, l, names, c) = back route i in
            let (named, same) = gathered_is h g l in
            (h, named, names, subst (λ g. IsCooked g route.rules) (sym same) c)),
      )
