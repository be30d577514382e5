-- ===== src/Routing/Rules/Combining.antt =====
-- `combineRouteRules`: rules with the same matches and filters become one, and no back end is lost.
use mathlib.Core.List.{append_assoc, append-nil}
use resource_model.Base.{
  ◌≡◌, ◌↔◌, refl, sym, ap, ◌∙◌, inl, inr, true, false, List, [], ◌∷◌, ◌++◌, arith, All,
  if◌then◌else◌, Bool-cases,
}
use resource_model.Routing.Rules.{
  Rule, should_merge, merge_or_add, combine_loop, combine_route_rules,
}

module _ {F B : Type 0} (filter_dec : Discrete F) where
  -- The two rules have the same matches and the same filters.
  abbrev pub IsSame : Rule F B → Rule F B → Type 0
  IsSame a b = (a.matches ≡ b.matches) × (a.filters ≡ b.filters)

  should_merge-IsSame : (a b : Rule F B) → (should_merge filter_dec a b ≡ true) ↔ IsSame a b
  unfolding should_merge
  should_merge-IsSame a b = ground arith

  -- The back ends, in order, of the rules with the matches and filters of a given rule.
  unfoldable pub backends_for : Rule F B → List (Rule F B) → List B
  backends_for k [] = []
  backends_for k (r ∷ rules) =
      let rest = backends_for k rules in
      if should_merge filter_dec k r then r.backend_refs ++ rest else rest

  -- No two of the rules can be merged.
  abbrev pub IsCombined : List (Rule F B) → Type 0
  IsCombined [] = Unit
  IsCombined (r ∷ rules) = All (λ s. should_merge filter_dec r s ≡ false) rules × IsCombined rules

  backends_for-none :
      (k p : Rule F B) (rules : List (Rule F B))
      → IsSame k p
      → All (λ s. should_merge filter_dec p s ≡ false) rules
      → backends_for k rules ≡ []
  unfolding backends_for
  backends_for-none k p [] same h = refl
  backends_for-none k p (r ∷ rules) same h = ground (
    arith,
    should_merge-IsSame k r,
    should_merge-IsSame p r,
    backends_for-none k p rules same h.1,
  )

  abbrev merged : Rule F B → Rule F B → Rule F B
  merged p r = record p { backend_refs = p.backend_refs ++ r.backend_refs }

  should_merge-merged :
      (k p r : Rule F B) → should_merge filter_dec k (merged p r) ≡ should_merge filter_dec k p
  unfolding should_merge
  should_merge-merged k p r = refl

  merge_or_add-All :
      (p r : Rule F B) (rules : List (Rule F B))
      → should_merge filter_dec p r ≡ false
      → All (λ s. should_merge filter_dec p s ≡ false) rules
      → All (λ s. should_merge filter_dec p s ≡ false) (merge_or_add filter_dec r rules)
  unfolding merge_or_add
  merge_or_add-All p r [] d h = ground arith
  merge_or_add-All p r (s ∷ rules) d h =
      ground (arith, should_merge-merged p s r, merge_or_add-All p r rules d h.1)

  as_before :
      (r p : Rule F B) (rules : List (Rule F B))
      → IsCombined (p ∷ rules)
      → IsCombined (merged p r ∷ rules)
  unfolding should_merge
  as_before r p rules h = h

  merge_or_add-IsCombined :
      (r : Rule F B) (rules : List (Rule F B))
      → IsCombined rules
      → IsCombined (merge_or_add filter_dec r rules)
  unfolding merge_or_add
  merge_or_add-IsCombined r [] h = (tt, tt)
  merge_or_add-IsCombined r (p ∷ rules) h = elim (Bool-cases (should_merge filter_dec p r)) [
    | inl e ↦ rw (e, merge_or_add) (as_before r p rules h)
    | inr e ↦
        ground (arith, e, merge_or_add-All p r rules e h.0, merge_or_add-IsCombined r rules h.1)
  ]

  -- The references of the rule, if it has the matches and filters of the given one.
  abbrev own : Rule F B → Rule F B → List B
  own k r = if should_merge filter_dec k r then r.backend_refs else []

  merge_or_add-backends_for :
      (k r : Rule F B) (rules : List (Rule F B))
      → IsCombined rules
      → backends_for k (merge_or_add filter_dec r rules) ≡ backends_for k rules ++ own k r
  unfolding merge_or_add backends_for
  merge_or_add-backends_for k r [] h = elim (Bool-cases (should_merge filter_dec k r)) [
    | inl e ↦ rw (e, backends_for) (append-nil r.backend_refs)
    | inr e ↦ rw (e, backends_for) refl
  ]
  merge_or_add-backends_for k r (p ∷ rules) h = elim (Bool-cases (should_merge filter_dec p r)) [
    | inl e ↦ elim (Bool-cases (should_merge filter_dec k p)) [
      | inl same ↦
          let none_after = backends_for-none k p rules ((should_merge-IsSame k p).0 same) h.0 in
          let same' : should_merge filter_dec k r ≡ true =
            ground
              (arith, should_merge-IsSame k p, should_merge-IsSame p r, should_merge-IsSame k r) in
          rw (e, merge_or_add, backends_for, should_merge-merged k p r, same, none_after, same')
            (append-nil (p.backend_refs ++ r.backend_refs)
              ∙ sym (ap (λ t. t ++ r.backend_refs) (append-nil p.backend_refs)))
      | inr other ↦
          let other' : should_merge filter_dec k r ≡ false = ground (
            arith,
            should_merge-IsSame k p,
            should_merge-IsSame p r,
            should_merge-IsSame k r,
            Bool-cases (should_merge filter_dec k r),
          ) in
          rw (e, merge_or_add, backends_for, should_merge-merged k p r, other, other')
            (sym (append-nil (backends_for k rules)))
    ]
    | inr e ↦ elim (Bool-cases (should_merge filter_dec k p)) [
      | inl same ↦
          rw (e, merge_or_add, backends_for, same)
            (ap (λ t. p.backend_refs ++ t) (merge_or_add-backends_for k r rules h.1)
              ∙ sym (append_assoc p.backend_refs (backends_for k rules) (own k r)))
      | inr other ↦
          rw (e, merge_or_add, backends_for, other) (merge_or_add-backends_for k r rules h.1)
    ]
  ]

  own-append :
      (k r : Rule F B) (rest : List B)
      → own k r ++ rest ≡ (if should_merge filter_dec k r then r.backend_refs ++ rest else rest)
  own-append k r rest = elim (Bool-cases (should_merge filter_dec k r)) [
    | inl e ↦ rw e refl
    | inr e ↦ rw e refl
  ]

  combine_loop_lem :
      (k : Rule F B) (output rules : List (Rule F B))
      → IsCombined output
      → IsCombined (combine_loop filter_dec output rules)
        × (backends_for k (combine_loop filter_dec output rules)
            ≡ backends_for k output ++ backends_for k rules)
  unfolding combine_loop backends_for
  combine_loop_lem k output [] h = (h, sym (append-nil (backends_for k output)))
  combine_loop_lem k output (r ∷ rules) h =
      let (combined, kept) =
        combine_loop_lem k (merge_or_add filter_dec r output) rules
          (merge_or_add-IsCombined r output h) in
      (
        combined,
        kept
            ∙ ap (λ t. t ++ backends_for k rules) (merge_or_add-backends_for k r output h)
            ∙ append_assoc (backends_for k output) (own k r) (backends_for k rules)
            ∙ ap (λ t. backends_for k output ++ t) (own-append k r (backends_for k rules)),
      )

  -- After `combineRouteRules` no two rules have the same matches and filters, and the rules with
  -- any given matches and filters have together the same back ends as before, in the same order.
  pub combine_route_rules_lem :
      (k : Rule F B) (rules : List (Rule F B))
      → IsCombined (combine_route_rules filter_dec rules)
        × (backends_for k (combine_route_rules filter_dec rules) ≡ backends_for k rules)
  unfolding combine_route_rules backends_for
  combine_route_rules_lem k [] = (tt, refl)
  combine_route_rules_lem k (r ∷ []) = ((tt, tt), refl)
  combine_route_rules_lem k (r ∷ s ∷ rules) =
      let e : combine_route_rules filter_dec (r ∷ s ∷ rules)
          ≡ combine_loop filter_dec [] (r ∷ s ∷ rules) =
        ground arith in
      rw e (combine_loop_lem k [] (r ∷ s ∷ rules) tt)
