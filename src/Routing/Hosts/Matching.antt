-- ===== src/Routing/Hosts/Matching.antt =====
-- A hostname, with or without a wildcard, stands for a set of hosts.
use mathlib.Core.List.{append_assoc}
use resource_model.Base.{
  ◌==◌, ℕ, ◌+◌, ◌<◌, ◌≡◌, ◌≢◌, ◌↔◌, ◌⊎◌, refl, sym, ap, ◌∙◌, subst, inl, inr, true, false, [], ◌∷◌,
  ◌++◌, none, some, arith, Text, text_dec, length, length-append, Bool-cases, Option-cases,
  trim_suffix?, trim_suffix?-some, trim_suffix?-append,
}
use resource_model.Routing.Hosts.{star, is_wild, hostname_matches_wildcard, common_host}

-- The pattern stands for the host: it is the host, or it begins with an asterisk, for which the
-- host has one or more characters.
pub data Covers (pattern host : Text) : Type 0 where
  exact : is_wild pattern ≡ false → host ≡ pattern → Covers pattern host
  wild :
      (rest before : Text)
      → pattern ≡ star ∷ rest
      → before ≢ []
      → host ≡ before ++ rest
      → Covers pattern host

-- What `hostnameMatchesWildcardHostname` decides.
abbrev pub Extends : Text → Text → Type 0
Extends rest host = (before : Text) × (before ≢ []) × (host ≡ before ++ rest)

hostname_matches_wildcard-Extends :
    (host rest : Text) → (hostname_matches_wildcard host (star ∷ rest) ≡ true) ↔ Extends rest host
unfolding hostname_matches_wildcard
hostname_matches_wildcard-Extends host rest = (
  λ e. elim (Option-cases (trim_suffix? rest host)) [
    | inl n ↦ absurd (ground arith)
    | inr (before, found) ↦ (before, ground arith, trim_suffix?-some rest host before found)
  ],
  λ (before, filled, e). ground (arith, trim_suffix?-append rest before),
)

length_eq_0 : (t : Text) → t ≢ [] → (length t == 0) ≡ false
length_eq_0 [] h = absurd (h refl)
length_eq_0 (c ∷ cs) h = ground arith

wild_split : (pattern : Text) → is_wild pattern ≡ true → (rest : Text) × (pattern ≡ star ∷ rest)
wild_split [] e = absurd (ground arith)
wild_split (c ∷ cs) e = (cs, ground arith)

-- A pattern that extends a wildcard covers only hosts that the wildcard covers.
narrower :
    (rest pattern host : Text)
    → Extends rest pattern
    → Covers pattern host
    → Covers (star ∷ rest) host
narrower rest pattern host (before, filled, e) (exact plain same) =
    wild rest before refl filled (same ∙ e)
narrower rest pattern host ([], filled, e) (wild tail front is filled' same) = absurd (filled refl)
narrower rest pattern host (d ∷ before, filled, e) (wild tail [] is filled' same) =
    absurd (filled' refl)
narrower rest pattern host (d ∷ before, filled, e) (wild tail (f ∷ front) is filled' same) =
    let tails : tail ≡ before ++ rest = cc in
    wild rest (f ∷ front ++ before) refl (λ x. ground arith)
      (same ∙ ap (λ t. f ∷ front ++ t) tails ∙ sym (append_assoc (f ∷ front) before rest))

module _ (listener route : Text) (given : listener ≢ []) where
  -- What the switch inserts, in each of its cases.
  common_host_cases :
      (h : Text)
      → common_host listener route ≡ some h
      → ((h ≡ route) × (listener ≡ route))
        ⊎ ((h ≡ route) × (rest : Text) × (listener ≡ star ∷ rest) × Extends rest route)
        ⊎ ((h ≡ listener) × (rest : Text) × (route ≡ star ∷ rest) × Extends rest listener)
  unfolding common_host
  common_host_cases h e = elim (text_dec listener route) [
    | yes same ↦ inl (ground (arith, length_pos), same)
    | no differ ↦ elim (Bool-cases (is_wild listener)) [
      | inl w ↦
          let (rest, is) = wild_split listener w in
          let matched : hostname_matches_wildcard route listener ≡ true =
            ground (arith, length_pos) in
          inr (
            inl (
              ground (arith, length_pos),
              rest,
              is,
              (hostname_matches_wildcard-Extends route rest).0 (rw is at matched),
            ))
      | inr plain ↦ elim (Bool-cases (is_wild route)) [
        | inl w ↦
            let (rest, is) = wild_split route w in
            let matched : hostname_matches_wildcard listener route ≡ true =
              ground (arith, length_pos) in
            inr (
              inr (
                ground (arith, length_pos),
                rest,
                is,
                (hostname_matches_wildcard-Extends listener rest).0 (rw is at matched),
              ))
        | inr plain' ↦ absurd (ground (arith, length_pos))
      ]
    ]
  ]
    where
      length_pos : (length listener == 0) ≡ false
      length_pos = length_eq_0 listener given

  -- Every host that the hostname in common covers is covered by the listener and by the route.
  pub common_host-Covers :
      (h host : Text)
      → common_host listener route ≡ some h
      → Covers h host
      → Covers listener host × Covers route host
  common_host-Covers h host e covered = elim (common_host_cases h e) [
    | inl (is, same) ↦
        let c = subst (λ p. Covers p host) is covered in
        (subst (λ p. Covers p host) (sym same) c, c)
    | inr (inl (is, rest, w, longer)) ↦
        let c = subst (λ p. Covers p host) is covered in
        (subst (λ p. Covers p host) (sym w) (narrower rest route host longer c), c)
    | inr (inr (is, rest, w, longer)) ↦
        let c = subst (λ p. Covers p host) is covered in
        (c, subst (λ p. Covers p host) (sym w) (narrower rest listener host longer c))
  ]

  plain_cover :
      (pattern host : Text) → is_wild pattern ≡ false → Covers pattern host → host ≡ pattern
  plain_cover pattern host plain (exact p same) = same
  plain_cover pattern host plain (wild rest before is filled same) = absurd (ground arith)

  wild_cover :
      (pattern host rest : Text) → pattern ≡ star ∷ rest → Covers pattern host → Extends rest host
  wild_cover pattern host rest is (exact plain same) = absurd (ground arith)
  wild_cover pattern host rest is (wild tail before is' filled same) =
      let tails : tail ≡ rest = cc in (before, filled, same ∙ ap (λ t. before ++ t) tails)

  -- Where the listener or the route is without a wildcard, a host that both cover is covered by the
  -- hostname in common.
  common_host-found :
      (host : Text)
      → (is_wild listener ≡ false) ⊎ (is_wild route ≡ false)
      → Covers listener host
      → Covers route host
      → (h : Text) × (common_host listener route ≡ some h) × Covers h host
  unfolding common_host
  common_host-found host plain cl cr = elim (text_dec listener route) [
    | yes same ↦ (route, ground (arith, length_eq_0 listener given), cr)
    | no differ ↦ elim (Bool-cases (is_wild listener)) [
      | inl w ↦
          let (rest, is) = wild_split listener w in
          let host-route = plain_cover route host (ground arith) cr in
          let longer = subst (Extends rest) host-route (wild_cover listener host rest is cl) in
          let matched = (hostname_matches_wildcard-Extends route rest).1 longer in
          let matched' = subst (λ l. hostname_matches_wildcard route l ≡ true) (sym is) matched in
          (route, ground (arith, length_eq_0 listener given), cr)
      | inr p ↦
          let host-listener = plain_cover listener host p cl in
          elim (Bool-cases (is_wild route)) [
            | inl w ↦
                let (rest, is) = wild_split route w in
                let longer =
                  subst (Extends rest) host-listener (wild_cover route host rest is cr) in
                let matched = (hostname_matches_wildcard-Extends listener rest).1 longer in
                let matched' =
                  subst (λ l. hostname_matches_wildcard listener l ≡ true) (sym is) matched in
                (listener, ground (arith, length_eq_0 listener given), cl)
            | inr p' ↦ absurd (differ (sym host-listener ∙ plain_cover route host p' cr))
          ]
    ]
  ]

  -- For a listener and a route of which one is without a wildcard, a host is covered by the
  -- hostname in common exactly if the listener and the route both cover it.
  pub common_host_lem :
      (host : Text)
      → (is_wild listener ≡ false) ⊎ (is_wild route ≡ false)
      → ((h : Text) × (common_host listener route ≡ some h) × Covers h host)
        ↔ (Covers listener host × Covers route host)
  common_host_lem host plain =
      (λ (h, e, c). common_host-Covers h host e c, λ (cl, cr). common_host-found host plain cl cr)

not_extended : (host rest : Text) → length host < length rest + 1 → ¬ Extends rest host
not_extended host rest short ([], filled, e) = filled refl
not_extended host rest short (c ∷ before, filled, e) =
    let h = ap length e in omega (arith, h, length-append before rest)

-- A route whose wildcard is wider than the listener's: it covers every host of the listener, and
-- yet they have no hostname in common.
pub common_host_wider :
    (first : ℕ) (more rest : Text)
    → (common_host (star ∷ first ∷ more ++ rest) (star ∷ rest) ≡ none)
      × ((host : Text) → Covers (star ∷ first ∷ more ++ rest) host → Covers (star ∷ rest) host)
unfolding common_host
common_host_wider first more rest =
    let refused : hostname_matches_wildcard (star ∷ rest) (star ∷ first ∷ more ++ rest) ≢ true =
      λ e.
        not_extended (star ∷ rest) (first ∷ more ++ rest) (omega (arith, length-append more rest))
          ((hostname_matches_wildcard-Extends (star ∷ rest) (first ∷ more ++ rest)).0 e) in
    let differ : star ∷ first ∷ more ++ rest ≢ star ∷ rest =
      λ e. let h = ap length e in omega (arith, h, length-append more rest) in
    (
      ground arith,
      λ host.
          narrower rest (star ∷ first ∷ more ++ rest) host
            (star ∷ first ∷ more, (λ e. ground arith), refl),
    )
