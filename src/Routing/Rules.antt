-- ===== src/Routing/Rules.antt =====
-- internal/envoy/resource.go: the rules of HTTP routes, which are split, combined and sorted for
-- Envoy. The types of filters and back-end references are parameters: the code only compares the
-- first and only collects the second.
pub mod Combining
pub mod Sorting
pub mod Precedence
use mathlib.Core.List.{reverse}
use resource_model.Base.{
  ℕ, ◌+◌, ltb, leb, Bool, true, false, ◌&&◌, not, List, [], ◌∷◌, ◌++◌, Option, none, some, Text,
  text, text_dec, length, if◌then◌else◌, ◌==◌, ite,
}

-- A slice: `none` is nil, which `reflect.DeepEqual` tells from the empty slice.
abbrev pub Slice : Type 0 → Type 0
Slice A = Option (List A)

abbrev pub len : {A : Type 0} → Slice A → ℕ
len none = 0
len (some xs) = length xs

-- `PathMatchType`, with the third value of the API.
pub data PathType : Type 0 where
  exact : PathType
  path_prefix : PathType
  regular_expression : PathType

-- `HTTPPathMatch`. The API server fills in the type and the value where they are left out, so the
-- two pointers, which the code follows without a test, are plain here.
pub record PathMatch : Type 0 where
  pub type : PathType
  pub value : Text

-- `HTTPHeaderMatch` and `HTTPQueryParamMatch`
pub record NamedMatch : Type 0 where
  pub regular : Bool
  pub name : Text
  pub value : Text

-- `HTTPRouteMatch`
pub record Match : Type 0 where
  pub path : Option PathMatch
  pub headers : Slice NamedMatch
  pub query_params : Slice NamedMatch
  pub method : Option Text

unfoldable pub match_dec : Discrete Match
unfolding text_dec
match_dec = hlevel text_dec

-- `HTTPRouteRule`
pub record Rule (F B : Type 0) : Type 0 where
  pub matches : List Match
  pub filters : Slice F
  pub backend_refs : List B

-- What `sort.SliceStable` makes of more than 20 rules, `none` being a panic.
abbrev pub LongSort : Type 0 → Type 0 → Type 0
LongSort F B = List (Rule F B) → Option (List (Rule F B))

-- `reflect.DeepEqual` of the matches and of the filters.
unfoldable pub matches_dec : Discrete (List Match)
unfolding match_dec
matches_dec = hlevel match_dec

unfoldable pub filters_dec : {F : Type 0} → Discrete F → Discrete (Slice F)
filters_dec filter_dec = hlevel filter_dec

module _ {F B : Type 0} (filter_dec : Discrete F) where
  unfoldable pub should_merge : Rule F B → Rule F B → Bool
  should_merge route1 route2 =
      ite (matches_dec route1.matches route2.matches)
        (ite (filters_dec filter_dec route1.filters route2.filters) true false) false

  -- The inner loop of `combineRouteRules`: the input rule is merged into the first output rule that
  -- takes it, and otherwise added at the end.
  unfoldable pub merge_or_add : Rule F B → List (Rule F B) → List (Rule F B)
  merge_or_add input [] = input ∷ []
  merge_or_add input (possible ∷ output) =
      let rest = merge_or_add input output in
      if should_merge possible input
      then record possible { backend_refs = possible.backend_refs ++ input.backend_refs } ∷ output
      else possible ∷ rest

  unfoldable pub combine_loop : List (Rule F B) → List (Rule F B) → List (Rule F B)
  combine_loop output [] = output
  combine_loop output (input ∷ rules) = combine_loop (merge_or_add input output) rules

  unfoldable pub combine_route_rules : List (Rule F B) → List (Rule F B)
  combine_route_rules rules = if ltb (length rules) 2 then rules else combine_loop [] rules

module _ {F B : Type 0} where
  -- The inner loop of `splitMatches`.
  unfoldable pub split_rule : Rule F B → List Match → List (Rule F B)
  split_rule rule [] = []
  split_rule rule (m ∷ matches) = record rule { matches = m ∷ [] } ∷ split_rule rule matches

  unfoldable pub split_matches : List (Rule F B) → List (Rule F B)
  split_matches [] = []
  split_matches (rule ∷ rules) = split_rule rule rule.matches ++ split_matches rules

abbrev one_if : Bool → ℕ
one_if true = 1
one_if false = 0

abbrev is_some : {A : Type 0} → Option A → Bool
is_some none = false
is_some (some a) = true

unfoldable pub criteria_count : Match → ℕ
criteria_count m =
    one_if (ltb 0 (len m.headers))
    + one_if (ltb 0 (len m.query_params))
    + one_if (is_some m.method)
    + one_if (is_some m.path)

-- The path is a prefix match of "/".
abbrev is_root : Option PathMatch → Bool
is_root none = false
is_root (some p) = elim p.type [
  | path_prefix ↦ ite (text_dec p.value (text "/")) true false
  | exact ↦ false
  | regular_expression ↦ false
]

unfoldable pub is_catchall : {F B : Type 0} → Rule F B → Bool
is_catchall rule = elim rule.matches [
  | [] ↦ false
  | m ∷ ms ↦ elim ms [ [] ↦ (criteria_count m == 1) && is_root m.path | n ∷ ns ↦ false ]
]

-- The length of a prefix match.
abbrev pub prefix_length : Option PathMatch → Option ℕ
prefix_length none = none
prefix_length (some p) = elim p.type [
  | path_prefix ↦ some (length p.value)
  | exact ↦ none
  | regular_expression ↦ none
]

abbrev pub is_exact : Option PathMatch → Bool
is_exact none = false
is_exact (some p) = elim p.type [ exact ↦ true | path_prefix ↦ false | regular_expression ↦ false ]

-- Both are prefix matches and the first is longer.
abbrev longer_prefix : Option ℕ → Option ℕ → Bool
longer_prefix none j = false
longer_prefix (some i) none = false
longer_prefix (some i) (some j) = ltb j i

-- The comparison of `sortRouteRules` after the test for the catch-all.
unfoldable pub match_precedes : Match → Match → Bool
match_precedes i j =
    if is_exact i.path && not (is_some j.path)
    then true
    else if longer_prefix (prefix_length i.path) (prefix_length j.path)
    then true
    else if is_some i.method && not (is_some j.path) && not (is_some j.method)
    then true
    else if ltb 0 (len i.headers) && ltb 0 (len j.headers)
    then ltb (len j.headers) (len i.headers)
    else if ltb 0 (len i.query_params) && ltb 0 (len j.query_params)
    then ltb (len j.query_params) (len i.query_params)
    else false

module _ {F B : Type 0} where
  -- The function that `sortRouteRules` passes to the sort. `none` is the panic of an index into no
  -- matches.
  unfoldable pub precedes : Rule F B → Rule F B → Option Bool
  precedes i j = if is_catchall j then some true else elim i.matches [
    | [] ↦ none
    | im ∷ ims ↦ elim j.matches [ [] ↦ none | jm ∷ jms ↦ some (match_precedes im jm) ]
  ]

  -- `sort.SliceStable` sorts up to 20 elements by insertion: each moves left while it precedes its
  -- neighbour. The sorted part is kept from right to left.
  unfoldable pub move_left : Rule F B → List (Rule F B) → Option (List (Rule F B))
  move_left rule [] = some (rule ∷ [])
  move_left rule (left ∷ lefts) =
      let rest = move_left rule lefts in
      elim (precedes rule left) [
        | none ↦ none
        | some true ↦ elim rest [ none ↦ none | some moved ↦ some (left ∷ moved) ]
        | some false ↦ some (rule ∷ left ∷ lefts)
      ]

  unfoldable pub insertion_sort : List (Rule F B) → List (Rule F B) → Option (List (Rule F B))
  insertion_sort sorted [] = some (reverse sorted)
  insertion_sort sorted (rule ∷ rules) = elim (move_left rule sorted) [
    | none ↦ none
    | some sorted' ↦ insertion_sort sorted' rules
  ]

  -- `sortRouteRules`: more than 20 rules are sorted in blocks, which are merged.
  unfoldable pub sort_route_rules : LongSort F B → List (Rule F B) → Option (List (Rule F B))
  sort_route_rules sort_long rules =
      if leb (length rules) 20 then insertion_sort [] rules else sort_long rules
