-- ===== src/Routing/Http/Gathering.antt =====
-- The map from hostnames to rules that `preprocessHTTPRoutes` builds.
use mathlib.Core.List.{append_assoc, append-nil}
use resource_model.Base.{
  ◌≡◌, ◌⊎◌, refl, sym, ap, ◌∙◌, subst, inl, inr, List, [], ◌∷◌, ◌++◌, Option, none, some, arith, In,
  ite, Text, text_dec,
}
use resource_model.GoMap.{
  GoMap, lookup, insert, lookup-insert, lookup-insert_ne, IsMap, insert-IsMap,
}
use resource_model.Routing.Rules.{Rule, split_matches}
use resource_model.Routing.Http.{HttpRoute, seed_hosts, seed, gather_hosts, gather}

abbrev pub Hosts : Type 0 → Type 0 → Type 0
Hosts F B = GoMap Text (List (Rule F B))

module _ {F B : Type 0} where
  -- The rules once for each time that the hostname stands in the list.
  unfoldable pub copies : Text → List Text → List (Rule F B) → List (Rule F B)
  copies h [] rules = []
  copies h (x ∷ hs) rules = ite (text_dec x h) (rules ++ copies h hs rules) (copies h hs rules)

  -- The split rules of the routes with the hostname, in the order of the routes.
  unfoldable pub rules_for : Text → List (HttpRoute F B) → List (Rule F B)
  rules_for h [] = []
  rules_for h (r ∷ routes) = copies h r.hostnames (split_matches r.rules) ++ rules_for h routes

  -- Some route has the hostname.
  abbrev pub IsNamed : Text → List (HttpRoute F B) → Type 0
  IsNamed h [] = ⊥
  IsNamed h (r ∷ routes) = In h r.hostnames ⊎ IsNamed h routes

  -- The entry of the hostname, with the rules added to it.
  abbrev extended : Option (List (Rule F B)) → List (Rule F B) → Option (List (Rule F B))
  extended none rules = none
  extended (some before) rules = some (before ++ rules)

  seed_hosts_lem :
      (h : Text) (hs : List Text) (m : Hosts F B)
      → ((lookup text_dec h (seed_hosts hs m) ≡ some [])
          × (In h hs ⊎ (lookup text_dec h m ≡ some [])))
        ⊎ ((lookup text_dec h (seed_hosts hs m) ≡ lookup text_dec h m) × ¬ In h hs)
  unfolding seed_hosts
  seed_hosts_lem h [] m = inr (refl, λ x. x)
  seed_hosts_lem h (x ∷ hs) m =
      ground (arith, seed_hosts_lem h hs (insert text_dec x [] m), lookup-insert text_dec x h [] m)

  seed_lem :
      (h : Text) (routes : List (HttpRoute F B)) (m : Hosts F B)
      → ((lookup text_dec h (seed routes m) ≡ some [])
          × (IsNamed h routes ⊎ (lookup text_dec h m ≡ some [])))
        ⊎ ((lookup text_dec h (seed routes m) ≡ lookup text_dec h m) × ¬ IsNamed h routes)
  unfolding seed
  seed_lem h [] m = inr (refl, λ x. x)
  seed_lem h (r ∷ routes) m =
      ground (arith, seed_hosts_lem h r.hostnames m, seed_lem h routes (seed_hosts r.hostnames m))

  seed_hosts-IsMap :
      (hs : List Text) (m : Hosts F B) → IsMap text_dec m → IsMap text_dec (seed_hosts hs m)
  unfolding seed_hosts
  seed_hosts-IsMap [] m h = h
  seed_hosts-IsMap (x ∷ hs) m h =
      seed_hosts-IsMap hs (insert text_dec x [] m) (insert-IsMap text_dec x [] m h)

  pub seed-IsMap :
      (routes : List (HttpRoute F B)) (m : Hosts F B)
      → IsMap text_dec m
      → IsMap text_dec (seed routes m)
  unfolding seed
  seed-IsMap [] m h = h
  seed-IsMap (r ∷ routes) m h =
      seed-IsMap routes (seed_hosts r.hostnames m) (seed_hosts-IsMap r.hostnames m h)

  -- Every hostname of the list has an entry.
  abbrev IsSeeded : Hosts F B → List Text → Type 0
  IsSeeded m hs =
      (h : Text) → In h hs → (rules : List (Rule F B)) × (lookup text_dec h m ≡ some rules)

  -- What adding rules does to the map.
  abbrev pub Adds : Hosts F B → Hosts F B → (Text → List (Rule F B)) → Type 0
  Adds m m' added = (h : Text) → lookup text_dec h m' ≡ extended (lookup text_dec h m) (added h)

  extended-nil : (o : Option (List (Rule F B))) → extended o [] ≡ o
  extended-nil none = refl
  extended-nil (some before) = ap some (append-nil before)

  extended-extended :
      (o : Option (List (Rule F B))) (first then : List (Rule F B))
      → extended (extended o first) then ≡ extended o (first ++ then)
  extended-extended none first then = refl
  extended-extended (some before) first then = ap some (append_assoc before first then)

  insert-IsSeeded :
      (x : Text) (hs : List Text) (rules : List (Rule F B)) (m : Hosts F B)
      → IsSeeded m (x ∷ hs)
      → IsSeeded (insert text_dec x rules m) hs
  insert-IsSeeded x hs rules m seeded h i = elim (text_dec x h) [
    | yes same ↦ (rules, ground (arith, lookup-insert text_dec x h rules m))
    | no differ ↦
        let (before, e) = seeded h (inr i) in
        (before, lookup-insert_ne text_dec x h rules m differ ∙ e)
  ]

  gather_hosts_lem :
      (hs : List Text) (rules : List (Rule F B)) (m : Hosts F B)
      → IsSeeded m hs
      → IsMap text_dec m
      → (m' : Hosts F B) × (gather_hosts hs rules m ≡ some m')
        × Adds m m' (λ h. copies h hs (split_matches rules))
        × IsMap text_dec m'
  unfolding gather_hosts copies
  gather_hosts_lem [] rules m seeded map =
      (m, refl, (λ h. sym (extended-nil (lookup text_dec h m))), map)
  gather_hosts_lem (x ∷ hs) rules m seeded map =
      let (before, e) = seeded x (inl refl) in
      let split : List (Rule F B) = split_matches rules in
      let (m', done, adds, map') =
        gather_hosts_lem hs rules (insert text_dec x (before ++ split) m)
          (insert-IsSeeded x hs (before ++ split) m seeded)
          (insert-IsMap text_dec x (before ++ split) m map) in
      (
        m',
        rw (gather_hosts, e) done,
        (λ h. elim (text_dec x h) [
          | yes same ↦
              let here : lookup text_dec h m ≡ some before =
                subst (λ y. lookup text_dec y m ≡ some before) same e in
              let there : lookup text_dec h (insert text_dec x (before ++ split) m)
                  ≡ some (before ++ split) =
                ground (arith, lookup-insert text_dec x h (before ++ split) m) in
              adds h
              ∙ ap (λ o. extended o (copies h hs split)) there
              ∙ extended-extended (some before) split (copies h hs split)
              ∙ ap (λ o. extended o (split ++ copies h hs split)) (sym here)
              ∙ ap (extended (lookup text_dec h m)) (ground arith)
          | no differ ↦
              adds h
              ∙ ap (λ o. extended o (copies h hs split))
                  (lookup-insert_ne text_dec x h (before ++ split) m differ)
              ∙ ap (extended (lookup text_dec h m)) (ground arith)
        ]),
        map',
      )

  -- Every hostname of the routes has an entry.
  abbrev HasEntries : Hosts F B → List (HttpRoute F B) → Type 0
  HasEntries m routes =
      (h : Text) → IsNamed h routes → (rules : List (Rule F B)) × (lookup text_dec h m ≡ some rules)

  still-HasEntries :
      (m m' : Hosts F B) (r : HttpRoute F B) (routes : List (HttpRoute F B))
      (added : Text → List (Rule F B))
      → HasEntries m (r ∷ routes)
      → Adds m m' added
      → HasEntries m' routes
  still-HasEntries m m' r routes added has adds h named =
      let (before, e) = has h (inr named) in
      (before ++ added h, adds h ∙ ap (λ o. extended o (added h)) e)

  gather_lem :
      (routes : List (HttpRoute F B)) (m : Hosts F B)
      → HasEntries m routes
      → IsMap text_dec m
      → (m' : Hosts F B) × (gather routes m ≡ some m')
        × Adds m m' (λ h. rules_for h routes)
        × IsMap text_dec m'
  unfolding gather rules_for
  gather_lem [] m has map = (m, refl, (λ h. sym (extended-nil (lookup text_dec h m))), map)
  gather_lem (r ∷ routes) m has map =
      let (m1, e, adds, map1) = gather_hosts_lem r.hostnames r.rules m (λ h i. has h (inl i)) map in
      let (m', done, adds', map') =
        gather_lem routes m1
          (still-HasEntries m m1 r routes (λ h. copies h r.hostnames (split_matches r.rules)) has
            adds)
          map1 in
      (
        m',
        rw (gather, e) done,
        (λ h.
            adds' h
            ∙ ap (λ o. extended o (rules_for h routes)) (adds h)
            ∙ extended-extended (lookup text_dec h m) _ (rules_for h routes)),
        map',
      )

  -- Gathering never panics, and gives each hostname of the routes the split rules of the routes
  -- with that hostname, and no other hostname an entry.
  pub gather-rules_for :
      (routes : List (HttpRoute F B))
      → (m : Hosts F B) × (gather routes (seed routes []) ≡ some m)
        × IsMap text_dec m
        × ((h : Text)
            → (IsNamed h routes × (lookup text_dec h m ≡ some (rules_for h routes)))
              ⊎ ((¬ IsNamed h routes) × (lookup text_dec h m ≡ none)))
  unfolding lookup
  gather-rules_for routes =
      let (m, done, adds, map) =
        gather_lem routes (seed routes []) (λ h named. ([], ground (arith, seed_lem h routes [])))
          (seed-IsMap routes [] tt) in
      (
        m,
        done,
        map,
        λ h. elim (seed_lem h routes []) [
          | inl (e, inl named) ↦ inl (named, adds h ∙ ap (λ o. extended o (rules_for h routes)) e)
          | inl (e, inr x) ↦ absurd (ground arith)
          | inr (e, unnamed) ↦ inr (unnamed, adds h ∙ ap (λ o. extended o (rules_for h routes)) e)
        ],
      )
