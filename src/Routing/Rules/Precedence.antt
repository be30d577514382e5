-- ===== src/Routing/Rules/Precedence.antt =====
-- `sortRouteRules` on an exact path beside a prefix, and what `splitMatches` keeps.
use resource_model.Base.{
  ℕ, ◌≡◌, ◌↔◌, ◌⊎◌, refl, ap, inl, inr, Bool, true, false, ◌&&◌, List, [], ◌∷◌, ◌++◌, Option, none,
  some, arith, In, All, All-append, not,
}
use resource_model.Routing.Rules.{
  LongSort, Rule, Match, PathMatch, is_exact, is_some, len, prefix_length, is_catchall,
  match_precedes, precedes, move_left, insertion_sort, sort_route_rules, split_rule, split_matches,
}

exact_not_prefix : (p : Option PathMatch) → is_exact p ≡ true → prefix_length p ≡ none
exact_not_prefix none e = refl
exact_not_prefix (some p) e = ground arith

prefix_some : (p : Option PathMatch) (k : ℕ) → prefix_length p ≡ some k → is_some p ≡ true
prefix_some none k e = absurd (ground arith)
prefix_some (some p) k e = refl

and_false : (b c : Bool) → (b && false && c) ≡ false
and_false true c = refl
and_false false c = refl

exact_precedes :
    (n m : Match) (k : ℕ)
    → is_exact n.path ≡ true
    → prefix_length m.path ≡ some k
    → len n.headers ≡ 0
    → len n.query_params ≡ 0
    → match_precedes n m ≡ false
unfolding match_precedes
exact_precedes n m k x p nh nq =
    rw
      (
        match_precedes,
        x,
        exact_not_prefix n.path x,
        prefix_some m.path k p,
        nh,
        nq,
        and_false (is_some n.method) (not (is_some m.method)),
      )
      refl

module _ {F B : Type 0} where
  -- A rule that matches one exact path stays behind a rule with one prefix match that is not the
  -- catch-all, where the first matches no headers and no query parameters.
  pub exact_after_prefix :
      (sort_long : LongSort F B) (prefix_rule exact_rule : Rule F B) (m n : Match) (k : ℕ)
      → prefix_rule.matches ≡ m ∷ []
      → exact_rule.matches ≡ n ∷ []
      → prefix_length m.path ≡ some k
      → is_exact n.path ≡ true
      → len n.headers ≡ 0
      → len n.query_params ≡ 0
      → is_catchall prefix_rule ≡ false
      → sort_route_rules sort_long (prefix_rule ∷ exact_rule ∷ [])
        ≡ some (prefix_rule ∷ exact_rule ∷ [])
  unfolding sort_route_rules insertion_sort move_left precedes
  exact_after_prefix sort_long a b m n k am bm mp nx nh nq plain =
      let stays : precedes b a ≡ some false =
        rw (precedes, plain, bm, am) (ap some (exact_precedes n m k nx mp nh nq)) in
      rw (sort_route_rules, insertion_sort, move_left, stays) refl

  -- A rule with a match that satisfies the predicate leads to the back end.
  abbrev pub Reaches : (Match → Type 0) → List (Rule F B) → B → Type 0
  Reaches hits [] b = ⊥
  Reaches hits (rule ∷ rules) b =
      (((m : Match) × In m rule.matches × hits m) × In b rule.backend_refs) ⊎ Reaches hits rules b

  -- The rule has a single match.
  abbrev pub IsSingle : Rule F B → Type 0
  IsSingle rule = (m : Match) × (rule.matches ≡ m ∷ [])

  Reaches-append :
      (hits : Match → Type 0) (xs ys : List (Rule F B)) (b : B)
      → Reaches hits (xs ++ ys) b ↔ (Reaches hits xs b ⊎ Reaches hits ys b)
  Reaches-append hits [] ys b = ((λ r. inr r), λ r. elim r [ inl x ↦ absurd x | inr y ↦ y ])
  Reaches-append hits (x ∷ xs) ys b =
      let (to, from) = Reaches-append hits xs ys b in
      (
        (λ r. elim r [
          | inl h ↦ inl (inl h)
          | inr t ↦ elim (to t) [ inl l ↦ inl (inr l) | inr q ↦ inr q ]
        ]),
        λ r. elim r [
          | inl h ↦ elim h [ inl l ↦ inl l | inr t ↦ inr (from (inl t)) ]
          | inr q ↦ inr (from (inr q))
        ],
      )

  split_rule-Reaches :
      (hits : Match → Type 0) (rule : Rule F B) (ms : List Match) (b : B)
      → Reaches hits (split_rule rule ms) b
        ↔ (((m : Match) × In m ms × hits m) × In b rule.backend_refs)
  unfolding split_rule
  split_rule-Reaches hits rule [] b = ((λ r. absurd r), λ ((m, i, h), ib). absurd i)
  split_rule-Reaches hits rule (m ∷ ms) b =
      let (to, from) = split_rule-Reaches hits rule ms b in
      (
        (λ r. elim r [
          | inl ((n, i, h), ib) ↦ elim i [ inl e ↦ ((n, inl e, h), ib) | inr x ↦ absurd x ]
          | inr t ↦ let ((n, i, h), ib) = to t in ((n, inr i, h), ib)
        ]),
        λ ((n, i, h), ib). elim i [
          | inl e ↦ inl ((n, inl e, h), ib)
          | inr later ↦ inr (from ((n, later, h), ib))
        ],
      )

  split_rule-IsSingle : (rule : Rule F B) (ms : List Match) → All IsSingle (split_rule rule ms)
  unfolding split_rule
  split_rule-IsSingle rule [] = tt
  split_rule-IsSingle rule (m ∷ ms) = ((m, refl), split_rule-IsSingle rule ms)

  -- After `splitMatches` every rule has a single match, and whatever a match has to satisfy, the
  -- rules with such a match lead to the same back ends as before.
  pub split_matches_lem :
      (hits : Match → Type 0) (rules : List (Rule F B)) (b : B)
      → All IsSingle (split_matches rules)
        × (Reaches hits (split_matches rules) b ↔ Reaches hits rules b)
  unfolding split_matches
  split_matches_lem hits [] b = (tt, ((λ r. r), λ r. r))
  split_matches_lem hits (rule ∷ rules) b =
      let (single, (to, from)) = split_matches_lem hits rules b in
      let (apart, join) =
        Reaches-append hits (split_rule rule rule.matches) (split_matches rules) b in
      let (one, back) = split_rule-Reaches hits rule rule.matches b in
      (
        All-append IsSingle (split_rule rule rule.matches) (split_matches rules)
            (split_rule-IsSingle rule rule.matches) single,
        (
          (λ r. elim (apart r) [ inl x ↦ inl (one x) | inr y ↦ inr (to y) ]),
          λ r. elim r [ inl x ↦ join (inl (back x)) | inr y ↦ join (inr (from y)) ],
        ),
      )
