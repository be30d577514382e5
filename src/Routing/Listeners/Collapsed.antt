-- ===== src/Routing/Listeners/Collapsed.antt =====
-- What `collapse` returns.
use resource_model.Base.{
  ◌≡◌, ◌≢◌, refl, sym, subst, inl, inr, true, false, List, [], ◌∷◌, ◌++◌, none, some, arith, In,
  All, ltb, length, Bool-cases, Option-cases,
}
use resource_model.GoMap.{GoMap, keys, lookup, insert, lookup-insert, IsMap}
use resource_model.Routing.Listeners.{
  Listener, listener_dec, compatible_listeners, compare_with, collapse_loop, collapse,
}
use resource_model.Routing.Listeners.Collapsing.{
  Grows, IsServed, IsServed-Grows, compare_with-Grows, compare_with-IsServed,
}

module _ {R : Type 0} where
  keys-differ :
      (l : Listener) (m : GoMap Listener (List R))
      → lookup listener_dec l m ≡ none
      → All (λ k. l ≢ k) (keys m)
  unfolding lookup
  keys-differ l [] e = tt
  keys-differ l ((k, rs) ∷ m) e = elim (listener_dec k l) [
    | yes same ↦ absurd (ground arith)
    | no differ ↦ ((λ s. differ (sym s)), keys-differ l m (ground arith))
  ]

  compare_with-none :
      (l l1 : Listener) (r1 : List R) (others : List Listener) (m : GoMap Listener (List R))
      → l ≢ l1
      → All (λ k. l ≢ k) others
      → lookup listener_dec l m ≡ none
      → lookup listener_dec l (compare_with l1 r1 others m) ≡ none
  unfolding compare_with
  compare_with-none l l1 r1 [] m differ absent e = e
  compare_with-none l l1 r1 (l2 ∷ others) m differ absent e =
      compare_with-none l l1 r1 others _ differ absent.1
        (elim (Option-cases (lookup listener_dec l2 m)) [
          | inl n ↦
              ground
                (arith, lookup-insert listener_dec l2 l r1 m, lookup-insert listener_dec l1 l r1 m)
          | inr (r2, s) ↦ ground (
            arith,
            lookup-insert listener_dec l2 l (r2 ++ r1) m,
            lookup-insert listener_dec l1 l r1 m,
          )
        ])

  -- The listeners that are still to come have no entry yet.
  abbrev IsFresh : GoMap Listener (List R) → GoMap Listener (List R) → Type 0
  IsFresh listeners m =
      (l : Listener) (rs : List R)
      → lookup listener_dec l listeners ≡ some rs
      → lookup listener_dec l m ≡ none

  collapse_loop_lem :
      (listeners m : GoMap Listener (List R))
      → IsMap listener_dec listeners
      → IsFresh listeners m
      → Grows m (collapse_loop listeners m)
        × ((l : Listener) (rs : List R)
            → lookup listener_dec l listeners ≡ some rs
            → IsServed (collapse_loop listeners m) l rs)
  unfolding collapse_loop lookup
  collapse_loop_lem [] m map fresh = ((λ l rs h. h), λ l rs e. absurd (ground arith))
  collapse_loop_lem ((l1, r1) ∷ listeners) [] map fresh =
      let first : GoMap Listener (List R) = (l1, r1) ∷ [] in
      let (grows, served) =
        collapse_loop_lem listeners first map.1 (λ l rs e. ground (arith, map.0)) in
      (
        (λ l rs (held, e, all). absurd (ground arith)),
        λ l rs e. elim (listener_dec l1 l) [
          | yes same ↦
              let rs-r1 : r1 ≡ rs = ground arith in
              (
                l,
                inl refl,
                grows l rs (
                  r1,
                  ground arith,
                  subst (λ ks. (x : R) → In x rs → In x ks) (sym rs-r1) (λ x i. i),
                ),
              )
          | no differ ↦ served l rs (ground arith)
        ],
      )
  collapse_loop_lem ((l1, r1) ∷ listeners) ((k, ks) ∷ m) map fresh =
      let others : GoMap Listener (List R) = (k, ks) ∷ m in
      let compared : GoMap Listener (List R) = compare_with l1 r1 (keys others) others in
      let absent = fresh l1 r1 (ground arith) in
      let differ = keys-differ l1 others absent in
      let apart : (l : Listener) (rs : List R)
          → lookup listener_dec l listeners ≡ some rs
          → l ≢ l1 =
        λ l rs e s. ground (arith, map.0) in
      let later : (l : Listener) (rs : List R)
          → lookup listener_dec l listeners ≡ some rs
          → lookup listener_dec l others ≡ none =
        λ l rs e. fresh l rs (ground (arith, apart l rs e)) in
      let (grows, served) = collapse_loop_lem listeners compared map.1 (λ l rs e.
        compare_with-none l l1 r1 (keys others) others (apart l rs e)
          (keys-differ l others (later l rs e)) (later l rs e)) in
      (
        (λ l rs h.
            grows l rs (compare_with-Grows l1 r1 (keys others) others differ (inl absent) l rs h)),
        λ l rs e. elim (listener_dec l1 l) [
          | yes same ↦
              let rs-r1 : r1 ≡ rs = ground arith in
              subst (λ rs. IsServed (collapse_loop listeners compared) l rs) rs-r1
                (subst (λ l. IsServed (collapse_loop listeners compared) l r1) same
                  (IsServed-Grows compared (collapse_loop listeners compared) l1 r1 grows
                    (compare_with-IsServed l1 r1 k (keys m) others differ (inl absent))))
          | no differs ↦ served l rs (ground arith)
        ],
      )

  -- In the result of `collapse` each listener's routes are all with the listener itself or all with
  -- a compatible one.
  pub collapse_lem :
      (listeners : GoMap Listener (List R)) (l : Listener) (rs : List R)
      → IsMap listener_dec listeners
      → lookup listener_dec l listeners ≡ some rs
      → IsServed (collapse listeners) l rs
  unfolding collapse lookup
  collapse_lem listeners l rs map e = elim (Bool-cases (ltb 1 (length listeners))) [
    | inl many ↦
        rw (collapse, many) ((collapse_loop_lem listeners [] map (λ k ks h. refl)).1 l rs e)
    | inr few ↦ rw (collapse, few) (l, inl refl, (rs, e, λ x i. i))
  ]

  -- A listener that is compatible with one listener and not with another, if the map is visited
  -- in this order, is merged into the first and stays a listener of its own.
  pub collapse_twice :
      (l1 l2 l3 : Listener) (r1 r2 r3 : List R)
      → l1 ≢ l2
      → l1 ≢ l3
      → l2 ≢ l3
      → compatible_listeners l2 l1 ≡ false
      → compatible_listeners l3 l1 ≡ true
      → compatible_listeners l3 l2 ≡ false
      → let result = collapse ((l1, r1) ∷ (l2, r2) ∷ (l3, r3) ∷ []) in
        (lookup listener_dec l1 result ≡ some (r1 ++ r3))
        × (lookup listener_dec l3 result ≡ some r3)
  unfolding collapse collapse_loop compare_with lookup insert
  collapse_twice l1 l2 l3 r1 r2 r3 d12 d13 d23 c21 c31 c32 = ground arith
