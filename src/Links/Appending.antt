-- ===== src/Links/Appending.antt =====
-- Lists that are appended, where one of them may be missing.
use resource_model.Base.{
  ◌≡◌, refl, sym, ap, subst, ◌∙◌, inl, inr, List, [], ◌∷◌, ◌++◌, Option, none, some, arith, In,
  In-append, Option-cases,
}
use resource_model.Links.{append_each}

module _ {A B : Type 0} (body : A → Option (List B)) where
  pub append_each-none :
      (xs : List A) → append_each body xs ≡ none → (x : A) × In x xs × (body x ≡ none)
  unfolding append_each
  append_each-none [] e = absurd (ground arith)
  append_each-none (x ∷ xs) e = elim (Option-cases (body x)) [
    | inl n ↦ (x, inl refl, n)
    | inr (ys, f) ↦ elim (Option-cases (append_each body xs)) [
      | inl n ↦ let (w, i, g) = append_each-none xs n in (w, inr i, g)
      | inr (zs, g) ↦ absurd (ground arith)
    ]
  ]

  -- What a loop that ended took from the first round, and from the rest.
  append_each-cons :
      (x : A) (xs : List A) (zs : List B)
      → append_each body (x ∷ xs) ≡ some zs
      → (ys : List B) × (rest : List B) × (body x ≡ some ys)
        × (append_each body xs ≡ some rest)
        × (zs ≡ ys ++ rest)
  unfolding append_each
  append_each-cons x xs zs e = elim (Option-cases (body x)) [
    | inl n ↦ absurd (ground arith)
    | inr (ys, f) ↦ elim (Option-cases (append_each body xs)) [
      | inl n ↦ absurd (ground arith)
      | inr (rest, g) ↦ (ys, rest, f, g, ground arith)
    ]
  ]

  pub append_each-from :
      (xs : List A) (zs : List B) (z : B)
      → append_each body xs ≡ some zs
      → In z zs
      → (x : A) × (ys : List B) × In x xs × (body x ≡ some ys) × In z ys
  unfolding append_each
  append_each-from [] zs z e i = absurd (subst (In z) (let is : zs ≡ [] = ground arith in is) i)
  append_each-from (x ∷ xs) zs z e i =
      let (ys, rest, f, g, is) = append_each-cons x xs zs e in
      elim ((In-append z ys rest).0 (subst (In z) is i)) [
        | inl j ↦ (x, ys, inl refl, f, j)
        | inr j ↦ let (w, ws, k, h, l) = append_each-from xs rest z g j in (w, ws, inr k, h, l)
      ]

  pub append_each-member :
      (xs : List A) (zs : List B) (x : A)
      → append_each body xs ≡ some zs
      → In x xs
      → (ys : List B) × (body x ≡ some ys) × ((z : B) → In z ys → In z zs)
  append_each-member [] zs x e i = absurd i
  append_each-member (w ∷ xs) zs x e i =
      let (ws, rest, f, g, is) = append_each-cons w xs zs e in
      elim i [
        | inl same ↦
            (ws, ap body same ∙ f, λ z j. subst (In z) (sym is) ((In-append z ws rest).1 (inl j)))
        | inr k ↦
            let (ys, h, all) = append_each-member xs rest x g k in
            (ys, h, λ z j. subst (In z) (sym is) ((In-append z ws rest).1 (inr (all z j))))
      ]
