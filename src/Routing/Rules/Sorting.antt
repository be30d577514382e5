-- ===== src/Routing/Rules/Sorting.antt =====
-- `sortRouteRules`: the catch-all rules come last, and no rule is lost.
use mathlib.Core.List.{
  reverse, reverse-cons, reverse-append, append_assoc, append-nil, reverse_perm, perm_middle,
}
use mathlib.Core.List.{Perm}
use mathlib.Core.List.Perm
use resource_model.Base.{
  length, ◌≤◌, ℕ, zero, suc, ◌+◌, ◌&&◌, ◌==◌, ltb, ◌≡◌, ◌≢◌, refl, sym, ap, ◌∙◌, subst, inl, inr,
  Bool, true, false, List, [], ◌∷◌, ◌++◌, Option, none, some, arith, All, All-append,
  All-append_right, Bool-cases, Option-cases, text_dec,
}
use resource_model.Routing.Rules.{
  LongSort, Rule, Match, PathMatch, is_catchall, criteria_count, is_root, is_some, is_exact,
  longer_prefix, one_if, len, prefix_length, match_precedes, precedes, move_left, insertion_sort,
  sort_route_rules,
}

root_parts :
    (p : Option PathMatch)
    → is_root p ≡ true
    → (prefix_length p ≡ some 1) × (is_exact p ≡ false) × (is_some p ≡ true)
unfolding text_dec
root_parts none e = absurd (ground arith)
root_parts (some p) e = ground arith

alone :
    (a b c : Bool)
    → one_if a + one_if b + one_if c + 1 ≡ 1
    → (a ≡ false) × (b ≡ false) × (c ≡ false)
alone a b c e = ground arith

-- A catch-all match has no other criterion.
catchall_parts :
    (m : Match)
    → ((criteria_count m == 1) && is_root m.path) ≡ true
    → (prefix_length m.path ≡ some 1)
      × (is_exact m.path ≡ false)
      × (is_some m.method ≡ false)
      × (ltb 0 (len m.headers) ≡ false)
      × (ltb 0 (len m.query_params) ≡ false)
unfolding criteria_count
catchall_parts m e =
    let root : is_root m.path ≡ true = ground arith in
    let count : criteria_count m ≡ 1 = ground arith in
    let (p, x, is) = root_parts m.path root in
    let (a, b, c) =
      alone (ltb 0 (len m.headers)) (ltb 0 (len m.query_params)) (is_some m.method)
        (rw is at count) in
    (p, x, c, a, b)

not_longer : (o : Option ℕ) → o ≢ some 0 → longer_prefix (some 1) o ≡ false
not_longer none h = refl
not_longer (some zero) h = absurd (h refl)
not_longer (some (suc n)) h = ground arith

root_precedes :
    (m n : Match)
    → ((criteria_count m == 1) && is_root m.path) ≡ true
    → prefix_length n.path ≢ some 0
    → match_precedes m n ≡ false
unfolding match_precedes
root_precedes m n e h =
    let (p, x, c, a, b) = catchall_parts m e in
    rw (match_precedes, x, p, c, a, b, not_longer (prefix_length n.path) h) refl

module _ {F B : Type 0} where
  -- A rule as `splitMatches` makes it, whose path, if it is a prefix, is not empty.
  abbrev pub IsSplit : Rule F B → Type 0
  IsSplit r = (m : Match) × (r.matches ≡ m ∷ []) × (prefix_length m.path ≢ some 0)

  abbrev pub IsLast : Rule F B → Type 0
  IsLast r = is_catchall r ≡ true

  abbrev pub IsEarly : Rule F B → Type 0
  IsEarly r = is_catchall r ≡ false

  is_catchall-split :
      (r : Rule F B) (m : Match)
      → r.matches ≡ m ∷ []
      → is_catchall r ≡ ((criteria_count m == 1) && is_root m.path)
  unfolding is_catchall
  is_catchall-split r m e = rw (is_catchall, e) refl

  -- The catch-all has one criterion, so it precedes no other rule.
  catchall_precedes :
      (r s : Rule F B) → IsSplit r → IsSplit s → IsLast r → IsEarly s → precedes r s ≡ some false
  unfolding precedes
  catchall_precedes r s (m, em, pm) (n, en, pn) last early =
      rw (precedes, early, em, en)
        (ap some (root_precedes m n (sym (is_catchall-split r m em) ∙ last) pn))

  -- The first rule passes all catch-alls.
  move_left-append :
      (r : Rule F B) (lasts earlies : List (Rule F B))
      → All IsLast lasts
      → move_left r (lasts ++ earlies)
        ≡ elim (move_left r earlies) [ none ↦ none | some moved ↦ some (lasts ++ moved) ]
  unfolding move_left precedes
  move_left-append r [] earlies h = ground arith
  move_left-append r (l ∷ lasts) earlies h = ground (arith, move_left-append r lasts earlies h.1)

  move_left-IsLast :
      (r : Rule F B) (earlies : List (Rule F B))
      → IsSplit r
      → IsLast r
      → All IsSplit earlies
      → All IsEarly earlies
      → move_left r earlies ≡ some (r ∷ earlies)
  unfolding move_left
  move_left-IsLast r [] split last splits h = refl
  move_left-IsLast r (e ∷ earlies) split last splits h =
      rw (move_left, catchall_precedes r e split splits.0 last h.0) refl

  -- Comparing split rules never panics.
  precedes-some : (r s : Rule F B) → IsSplit r → IsSplit s → (b : Bool) × (precedes r s ≡ some b)
  unfolding precedes
  precedes-some r s (m, em, pm) (n, en, pn) = elim (Bool-cases (is_catchall s)) [
    | inl e ↦ (true, rw (precedes, e) refl)
    | inr e ↦ (match_precedes m n, rw (precedes, e, em, en) refl)
  ]

  move_left-some :
      (r : Rule F B) (rules : List (Rule F B))
      → IsSplit r
      → All IsSplit rules
      → (moved : List (Rule F B)) × (move_left r rules ≡ some moved) × Perm (r ∷ rules) moved
  unfolding move_left
  move_left-some r [] split splits = (r ∷ [], refl, Perm.refl (r ∷ []))
  move_left-some r (l ∷ rules) split splits =
      let (b, e) = precedes-some r l split splits.0 in
      let (moved, done, same) = move_left-some r rules split splits.1 in
      elim (Bool-cases b) [
        | inl yes_ ↦ (
          l ∷ moved,
          rw (move_left, e, yes_, done) refl,
          Perm.trans (Perm.swap l r rules) (Perm.cons l same),
        )
        | inr no_ ↦ (r ∷ l ∷ rules, rw (move_left, e, no_) refl, Perm.refl (r ∷ l ∷ rules))
      ]

  move_left-All :
      (P : Rule F B → Type 0) (r : Rule F B) (rules moved : List (Rule F B))
      → move_left r rules ≡ some moved
      → P r
      → All P rules
      → All P moved
  unfolding move_left
  move_left-All P r [] moved e h hs =
      let is : r ∷ [] ≡ moved = ground arith in subst (All P) is (h, tt)
  move_left-All P r (l ∷ rules) moved e h hs = elim (Option-cases (precedes r l)) [
    | inl x ↦ absurd (ground arith)
    | inr (false, x) ↦ let is : r ∷ l ∷ rules ≡ moved = ground arith in subst (All P) is (h, hs)
    | inr (true, x) ↦ elim (Option-cases (move_left r rules)) [
      | inl y ↦ absurd (ground arith)
      | inr (rest, y) ↦
          let is : l ∷ rest ≡ moved = ground arith in
          subst (All P) is (hs.0, move_left-All P r rules rest y h hs.1)
    ]
  ]

  -- The sorted part, from right to left: the catch-alls and then the others.
  record IsArranged (sorted : List (Rule F B)) : Type 0 where
    lasts : List (Rule F B)
    earlies : List (Rule F B)
    parts : sorted ≡ lasts ++ earlies
    all_last : All IsLast lasts
    all_early : All IsEarly earlies

  arrange :
      (r : Rule F B) (sorted moved : List (Rule F B))
      → IsSplit r
      → All IsSplit sorted
      → IsArranged sorted
      → move_left r sorted ≡ some moved
      → IsArranged moved
  arrange r sorted moved split splits at e =
      let e' = subst (λ l. move_left r l ≡ some moved) at.parts e in
      let passed = sym (move_left-append r at.lasts at.earlies at.all_last) ∙ e' in
      let early_splits =
        All-append_right IsSplit at.lasts at.earlies (subst (All IsSplit) at.parts splits) in
      elim (Bool-cases (is_catchall r)) [
        | inl last ↦
            let stays = move_left-IsLast r at.earlies split last early_splits at.all_early in
            let got : at.lasts ++ (r ∷ at.earlies) ≡ moved = ground (arith, stays, passed) in
            record {
              lasts = at.lasts ++ (r ∷ []);
              earlies = at.earlies;
              parts = sym got ∙ sym (append_assoc at.lasts (r ∷ []) at.earlies);
              all_last = All-append IsLast at.lasts (r ∷ []) at.all_last (last, tt);
              all_early = at.all_early;
            }
        | inr early ↦
            let (moved', e'', _) = move_left-some r at.earlies split early_splits in
            let got : at.lasts ++ moved' ≡ moved = ground (arith, e'', passed) in
            record {
              lasts = at.lasts;
              earlies = moved';
              parts = sym got;
              all_last = at.all_last;
              all_early = move_left-All IsEarly r at.earlies moved' e'' early at.all_early;
            }
      ]

  move_left-IsArranged :
      (r : Rule F B) (sorted : List (Rule F B))
      → IsSplit r
      → All IsSplit sorted
      → IsArranged sorted
      → (moved : List (Rule F B)) × (move_left r sorted ≡ some moved)
        × Perm (r ∷ sorted) moved
        × All IsSplit moved
        × IsArranged moved
  move_left-IsArranged r sorted split splits arranged =
      let (moved, e, same) = move_left-some r sorted split splits in
      (
        moved,
        e,
        same,
        move_left-All IsSplit r sorted moved e split splits,
        arrange r sorted moved split splits arranged e,
      )

  insertion_sort_lem :
      (sorted rules : List (Rule F B))
      → All IsSplit sorted
      → All IsSplit rules
      → IsArranged sorted
      → (result : List (Rule F B)) × (insertion_sort sorted rules ≡ some (reverse result))
        × Perm (sorted ++ rules) result
        × IsArranged result
  unfolding insertion_sort
  insertion_sort_lem sorted [] splits h arranged = (
    sorted,
    refl,
    subst (λ l. Perm l sorted) (sym (append-nil sorted)) (Perm.refl sorted),
    arranged,
  )
  insertion_sort_lem sorted (r ∷ rules) splits h arranged =
      let (moved, e, same, splits', arranged') =
        move_left-IsArranged r sorted h.0 splits arranged in
      let (result, done, same', arranged'') =
        insertion_sort_lem moved rules splits' h.1 arranged' in
      (
        result,
        rw (insertion_sort, e) done,
        Perm.trans (perm_middle sorted rules) (Perm.trans (Perm.append_right rules same) same'),
        arranged'',
      )

  All-reverse :
      (P : Rule F B → Type 0) (rules : List (Rule F B)) → All P rules → All P (reverse rules)
  All-reverse P [] h = tt
  All-reverse P (r ∷ rules) h =
      subst (All P) (sym (reverse-cons r rules))
        (All-append P (reverse rules) (r ∷ []) (All-reverse P rules h.1) (h.0, tt))

  -- Sorting up to 20 split rules, none with an empty prefix, never panics, and the result has the
  -- same rules, those that are not a catch-all first and the catch-alls last.
  pub sort_route_rules_lem :
      (sort_long : LongSort F B) (rules : List (Rule F B))
      → length rules ≤ 20
      → All IsSplit rules
      → (firsts lasts : List (Rule F B)) × (sort_route_rules sort_long rules
          ≡ some (firsts ++ lasts))
        × Perm rules (firsts ++ lasts)
        × All IsEarly firsts
        × All IsLast lasts
  unfolding sort_route_rules
  sort_route_rules_lem sort_long rules short h =
      let (result, done, same, at) =
        insertion_sort_lem [] rules tt h
          (record { lasts = []; earlies = []; parts = refl; all_last = tt; all_early = tt }) in
      let sorts : sort_route_rules sort_long rules ≡ insertion_sort [] rules = ground arith in
      let flip : reverse result ≡ reverse at.earlies ++ reverse at.lasts =
        ap reverse at.parts ∙ reverse-append at.lasts at.earlies in
      (
        reverse at.earlies,
        reverse at.lasts,
        sorts ∙ done ∙ ap some flip,
        Perm.trans same (subst (Perm result) flip (Perm.symm (reverse_perm result))),
        All-reverse IsEarly at.earlies at.all_early,
        All-reverse IsLast at.lasts at.all_last,
      )
