-- ===== src/Admission/Upstreams.antt =====
-- The upstream clusters of a load balancer form a set.
use resource_model.Base.{
  ◌≡◌, ◌≢◌, ◌↔◌, ◌⊎◌, refl, sym, subst, ◌∙◌, inl, inr, true, List, [], ◌∷◌, none, some, arith, In,
  Text, text_dec, ok, err,
}
use resource_model.Admission.{LoadBalancer}
use resource_model.Admission.Validation.{
  contains_upstream, remove_loop, remove_upstream, fill_with_last, last, all_but_last,
  upstream_not_found,
}

-- No upstream stands in the list twice.
abbrev pub IsUnique : List Text → Type 0
IsUnique [] = Unit
IsUnique (x ∷ xs) = (¬ In x xs) × IsUnique xs

pub contains_upstream-In :
    (id : Text) (cs : List Text) → (contains_upstream id cs ≡ true) ↔ In id cs
unfolding contains_upstream
contains_upstream-In id [] = ground arith
contains_upstream-In id (c ∷ cs) = ground (arith, contains_upstream-In id cs)

last-In : (x y : Text) (ys : List Text) → (In x (last y ys ∷ all_but_last y ys)) ↔ In x (y ∷ ys)
last-In x y [] = ground arith
last-In x y (z ∷ zs) = ground (arith, last-In x z zs)

all_but_last-IsUnique :
    (y : Text) (ys : List Text) → IsUnique (y ∷ ys) → IsUnique (last y ys ∷ all_but_last y ys)
all_but_last-IsUnique y [] h = ground arith
all_but_last-IsUnique y (z ∷ zs) h =
    let (fresh, unique) = all_but_last-IsUnique z zs h.1 in
    let within = (last-In (last z zs) z zs).0 (inl refl) in
    (
      (λ i. elim i [
        | inl same ↦ h.0 (subst (λ x. In x (z ∷ zs)) same within)
        | inr later ↦ fresh later
      ]),
      ((λ i. h.0 ((last-In y z zs).0 (inr i))), unique),
    )

fill-In : (x : Text) (cs : List Text) → In x (fill_with_last cs) ↔ In x cs
fill-In x [] = ((λ i. i), λ i. i)
fill-In x (c ∷ cs) = last-In x c cs

fill-IsUnique : (cs : List Text) → IsUnique cs → IsUnique (fill_with_last cs)
fill-IsUnique [] h = tt
fill-IsUnique (c ∷ cs) h = all_but_last-IsUnique c cs h

remove_loop_lem :
    (id : Text) (cs : List Text)
    → IsUnique cs
    → ((removed : List Text) × (remove_loop id cs ≡ some removed)
        × In id cs
        × IsUnique removed
        × ((x : Text) → In x removed ↔ (In x cs × (x ≢ id))))
      ⊎ ((remove_loop id cs ≡ none) × ¬ In id cs)
unfolding remove_loop
remove_loop_lem id [] h = inr (refl, λ i. i)
remove_loop_lem id (c ∷ cs) h = elim (text_dec id c) [
  | yes same ↦ inl (
    fill_with_last cs,
    ground arith,
    inl same,
    fill-IsUnique cs h.1,
    λ x. (
      (λ i.
          let within = (fill-In x cs).0 i in
          (inr within, λ e. h.0 (subst (λ y. In y cs) (e ∙ same) within))),
      λ (i, differ). elim i [
        | inl e ↦ absurd (differ (e ∙ sym same))
        | inr later ↦ (fill-In x cs).1 later
      ],
    ),
  )
  | no other ↦ elim (remove_loop_lem id cs h.1) [
    | inr (e, absent) ↦ inr (ground arith, λ i. elim i [ inl s ↦ other s | inr l ↦ absent l ])
    | inl (removed, e, found, unique, same) ↦ inl (
      c ∷ removed,
      ground arith,
      inr found,
      ((λ i. h.0 ((same c).0 i).0), unique),
      λ x. (
        (λ i. elim i [
          | inl s ↦ (inl s, λ e. other (sym e ∙ s))
          | inr l ↦ let (within, differ) = (same x).0 l in (inr within, differ)
        ]),
        λ (i, differ). elim i [ inl s ↦ inl s | inr l ↦ inr ((same x).1 (l, differ)) ],
      ),
    )
  ]
]

-- `RemoveUpstream` on upstream clusters without duplicates: if the cluster is one of them, it is
-- removed, all others stay, and there are no duplicates; otherwise it reports that it is not found.
pub remove_upstream_lem :
    (lb : LoadBalancer) (id : Text)
    → IsUnique lb.upstream_clusters
    → ((lb' : LoadBalancer) × (remove_upstream lb id ≡ ok lb')
        × In id lb.upstream_clusters
        × IsUnique lb'.upstream_clusters
        × ((x : Text) → In x lb'.upstream_clusters ↔ (In x lb.upstream_clusters × (x ≢ id))))
      ⊎ ((remove_upstream lb id ≡ err (upstream_not_found id)) × ¬ In id lb.upstream_clusters)
unfolding remove_upstream
remove_upstream_lem lb id h = elim (remove_loop_lem id lb.upstream_clusters h) [
  | inl (removed, e, found, unique, same) ↦
      inl (record lb { upstream_clusters = removed }, ground arith, found, unique, same)
  | inr (e, absent) ↦ inr (ground arith, absent)
]
