-- ===== src/Routing/Listeners/Collapsing.antt =====
-- `collapse`: no route of a listener is lost.
use resource_model.Base.{
  ◌≡◌, ◌≢◌, ◌⊎◌, refl, sym, subst, ◌∙◌, inl, inr, true, List, [], ◌∷◌, ◌++◌, none, some, arith, In,
  All, ite, Bool-cases, Option-cases, if◌then◌else◌,
}
use resource_model.GoMap.{
  GoMap, lookup, insert, lookup-insert, lookup-insert_self, lookup-insert_ne,
}
use resource_model.Routing.Listeners.{Listener, listener_dec, compatible_listeners, compare_with}

module _ {R : Type 0} where
  In-append_left : (x : R) (xs ys : List R) → In x xs → In x (xs ++ ys)
  In-append_left x [] ys i = absurd i
  In-append_left x (y ∷ xs) ys (inl e) = inl e
  In-append_left x (y ∷ xs) ys (inr i) = inr (In-append_left x xs ys i)

  In-append_right : (x : R) (xs ys : List R) → In x ys → In x (xs ++ ys)
  In-append_right x [] ys i = i
  In-append_right x (y ∷ xs) ys i = inr (In-append_right x xs ys i)

  -- The listener has an entry with all of the routes.
  abbrev pub Holds : GoMap Listener (List R) → Listener → List R → Type 0
  Holds m l rs =
      (rs' : List R) × (lookup listener_dec l m ≡ some rs') × ((x : R) → In x rs → In x rs')

  -- Whatever an entry holds, it still holds.
  abbrev pub Grows : GoMap Listener (List R) → GoMap Listener (List R) → Type 0
  Grows m m' = (l : Listener) (rs : List R) → Holds m l rs → Holds m' l rs

  pub insert-Grows :
      (l : Listener) (rs : List R) (m : GoMap Listener (List R))
      → ((before : List R)
          → lookup listener_dec l m ≡ some before
          → (x : R) → In x before
          → In x rs)
      → Grows m (insert listener_dec l rs m)
  insert-Grows l rs m wider k ks (held, e, all) = elim (listener_dec l k) [
    | yes same ↦ (
      rs,
      ground (arith, lookup-insert listener_dec l k rs m),
      λ x i. wider held (subst (λ k. lookup listener_dec k m ≡ some held) (sym same) e) x (all x i),
    )
    | no differ ↦ (held, lookup-insert_ne listener_dec l k rs m differ ∙ e, all)
  ]

  -- The entry of the new listener, if there is one yet.
  abbrev pub IsOwn : Listener → List R → GoMap Listener (List R) → Type 0
  IsOwn l rs m = (lookup listener_dec l m ≡ none) ⊎ (lookup listener_dec l m ≡ some rs)

  -- The routes of the listener are with it or with a compatible listener.
  abbrev pub IsServed : GoMap Listener (List R) → Listener → List R → Type 0
  IsServed m l rs = (k : Listener) × ((k ≡ l) ⊎ (compatible_listeners l k ≡ true)) × Holds m k rs

  pub IsServed-Grows :
      (m m' : GoMap Listener (List R)) (l : Listener) (rs : List R)
      → Grows m m'
      → IsServed m l rs
      → IsServed m' l rs
  IsServed-Grows m m' l rs grows (k, which, holds) = (k, which, grows k rs holds)

  -- One round of the inner loop with a listener that is not the new one.
  module _ (l1 : Listener) (r1 : List R) where
    abbrev round : Listener → GoMap Listener (List R) → GoMap Listener (List R)
    round l2 collapsed = ite (listener_dec l1 l2) collapsed (
        if compatible_listeners l1 l2
        then (elim (lookup listener_dec l2 collapsed) [
          | none ↦ insert listener_dec l2 r1 collapsed
          | some r2 ↦ insert listener_dec l2 (r2 ++ r1) collapsed
        ])
        else insert listener_dec l1 r1 collapsed)

    abbrev IsRound : GoMap Listener (List R) → GoMap Listener (List R) → Type 0
    IsRound m m' = Grows m m' × IsOwn l1 r1 m' × IsServed m' l1 r1

    add_own :
        (m : GoMap Listener (List R)) → IsOwn l1 r1 m → IsRound m (insert listener_dec l1 r1 m)
    add_own m own = (
      insert-Grows l1 r1 m (λ before e x i. elim own [
        | inl n ↦ absurd (ground arith)
        | inr s ↦ let same : before ≡ r1 = ground arith in subst (In x) same i
      ]),
      inr (lookup-insert_self listener_dec l1 r1 m),
      (l1, inl refl, (r1, lookup-insert_self listener_dec l1 r1 m, λ x i. i)),
    )

    add_to :
        (l2 : Listener) (rs : List R) (m : GoMap Listener (List R))
        → l1 ≢ l2
        → IsOwn l1 r1 m
        → compatible_listeners l1 l2 ≡ true
        → ((before : List R)
            → lookup listener_dec l2 m ≡ some before
            → (x : R) → In x before
            → In x rs)
        → ((x : R) → In x r1 → In x rs)
        → IsRound m (insert listener_dec l2 rs m)
    add_to l2 rs m differ own fits wider all =
        let kept = lookup-insert_ne listener_dec l2 l1 rs m (λ e. differ (sym e)) in
        (
          insert-Grows l2 rs m wider,
          elim own [ inl n ↦ inl (kept ∙ n) | inr s ↦ inr (kept ∙ s) ],
          (l2, inr fits, (rs, lookup-insert_self listener_dec l2 rs m, all)),
        )

    round_lem :
        (l2 : Listener) (m : GoMap Listener (List R))
        → l1 ≢ l2
        → IsOwn l1 r1 m
        → IsRound m (round l2 m)
    round_lem l2 m differ own = elim (Bool-cases (compatible_listeners l1 l2)) [
      | inl fits ↦ elim (Option-cases (lookup listener_dec l2 m)) [
        | inl e ↦
            let is : insert listener_dec l2 r1 m ≡ round l2 m = ground arith in
            subst (IsRound m) is
              (add_to l2 r1 m differ own fits (λ before s x i. absurd (ground arith)) (λ x i. i))
        | inr (r2, e) ↦
            let is : insert listener_dec l2 (r2 ++ r1) m ≡ round l2 m = ground arith in
            subst (IsRound m) is (
              add_to l2 (r2 ++ r1) m differ own fits
                (λ before s x i.
                  let same : before ≡ r2 = ground arith in
                  In-append_left x r2 r1 (subst (In x) same i))
                (λ x i. In-append_right x r2 r1 i))
      ]
      | inr not_fits ↦
          let is : insert listener_dec l1 r1 m ≡ round l2 m = ground arith in
          subst (IsRound m) is (add_own m own)
    ]

    -- The inner loop, over one or more listeners of which none is the new one.
    pub compare_with-Grows :
        (others : List Listener) (m : GoMap Listener (List R))
        → All (λ l2. l1 ≢ l2) others
        → IsOwn l1 r1 m
        → Grows m (compare_with l1 r1 others m)
    unfolding compare_with
    compare_with-Grows [] m differ own l rs h = h
    compare_with-Grows (l2 ∷ others) m differ own l rs h =
        let (grows, own', _) = round_lem l2 m differ.0 own in
        compare_with-Grows others (round l2 m) differ.1 own' l rs (grows l rs h)

    pub compare_with-IsServed :
        (l2 : Listener) (others : List Listener) (m : GoMap Listener (List R))
        → All (λ l. l1 ≢ l) (l2 ∷ others)
        → IsOwn l1 r1 m
        → IsServed (compare_with l1 r1 (l2 ∷ others) m) l1 r1
    unfolding compare_with
    compare_with-IsServed l2 others m differ own =
        let (grows, own', served) = round_lem l2 m differ.0 own in
        IsServed-Grows (round l2 m) (compare_with l1 r1 others (round l2 m)) l1 r1
          (compare_with-Grows others (round l2 m) differ.1 own') served
