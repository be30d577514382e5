-- ===== src/Namespaces/Settled.antt =====
-- A second run of the namespace controller, and a run for a second namespace.
use resource_model.Base.{
  ◌≡◌, ◌≢◌, refl, sym, ap, subst, ◌∙◌, ◌⊎◌, inl, inr, true, false, List, [], ◌∷◌, Option, none,
  some, arith, In, Text, text, text_dec, ite, Option-cases, ok, until_error, contains,
}
use mathlib.Core.Option.{or_else}
use resource_model.Objects.{Object, ObjectKey, object_key}
use resource_model.Namespaces.{
  Client, Config, Namespace, default_cluster_role_binding_for, maybe_create, reconcile_namespace,
}
use resource_model.Namespaces.Created.{
  objects_for, IsUser, ns_has_labels-IsUser, create_objects-loop,
}

unfoldable pub key_dec : Discrete ObjectKey
unfolding text_dec
key_dec = hlevel text_dec

-- The first object of the list with the key.
abbrev pub wanted : List Object → ObjectKey → Option Object
wanted [] k = none
wanted (o ∷ os) k = ite (key_dec (object_key o) k) (some o) (wanted os k)

-- The API server, where nobody else acts: `stored` gives the object that it has under a key. It may
-- refuse to create an object, and says that one is there only if it is.
pub record IsServer {S E : Type 0} (cl : Client S E) (stored : S → ObjectKey → Option Object)
    : Type 0 where
  pub create_absent :
      (s : S) (o : Object)
      → stored s (object_key o) ≡ none
      → ((s' : S) × (cl.create s o ≡ (s', none))
          × ((k : ObjectKey) → stored s' k ≡ ite (key_dec (object_key o) k) (some o) (stored s k)))
        ⊎ ((s' : S) × (e : E) × (cl.create s o ≡ (s', some e))
            × (contains (text "already exists") (cl.message e) ≡ false))
  pub create_present :
      (s : S) (o x : Object)
      → stored s (object_key o) ≡ some x
      → (e : E) × (cl.create s o ≡ (s, some e))
        × (contains (text "already exists") (cl.message e) ≡ true)

module _ {S E : Type 0} (cl : Client S E) (stored : S → ObjectKey → Option Object)
    (law : IsServer cl stored) where
  maybe_create-settles :
      (s s' : S) (o : Object)
      → maybe_create cl s o ≡ (s', none)
      → (k : ObjectKey)
      → stored s' k ≡ or_else (stored s k) (ite (key_dec (object_key o) k) (some o) none)
  unfolding maybe_create or_else
  maybe_create-settles s s' o done k = elim (Option-cases (stored s (object_key o))) [
    | inl absent ↦ elim (law.create_absent s o absent) [
      | inr (t, e, is, said) ↦ absurd (ground arith)
      | inl (t, e, all) ↦
          let same : t ≡ s' = ground arith in
          subst
            (λ t. stored t k ≡ or_else (stored s k) (ite (key_dec (object_key o) k) (some o) none))
            same
            (elim (key_dec (object_key o) k) [
              | yes is ↦
                  let gone : stored s k ≡ none = subst (λ j. stored s j ≡ none) is absent in
                  ground (arith, all k)
              | no d ↦ ground (arith, all k, Option-cases (stored s k))
            ])
    ]
    | inr (x, present) ↦
        let (e, is, said) = law.create_present s o x present in
        let same : s ≡ s' = ground arith in
        subst
          (λ t. stored t k ≡ or_else (stored s k) (ite (key_dec (object_key o) k) (some o) none))
          same
          (elim (key_dec (object_key o) k) [
            | yes is ↦
                let there : stored s k ≡ some x = subst (λ j. stored s j ≡ some x) is present in
                ground arith
            | no d ↦ ground (arith, Option-cases (stored s k))
          ])
  ]

  until_error-settles :
      (os : List Object) (s s' : S)
      → until_error (maybe_create cl) os s ≡ (s', none)
      → (k : ObjectKey) → stored s' k ≡ or_else (stored s k) (wanted os k)
  unfolding until_error or_else
  until_error-settles [] s s' done k = ground (arith, Option-cases (stored s k))
  until_error-settles (o ∷ os) s s' done k = elim (Option-cases (maybe_create cl s o).1) [
    | inr (x, bad) ↦ absurd (ground arith)
    | inl fine ↦
        let s1 : S = (maybe_create cl s o).0 in
        let one = maybe_create-settles s s1 o (ground arith) k in
        let rest = until_error-settles os s1 s' (ground arith) k in
        ground (arith, Option-cases (stored s k))
  ]

  until_error-present :
      (os : List Object) (s : S)
      → ((o : Object) → In o os → (x : Object) × (stored s (object_key o) ≡ some x))
      → until_error (maybe_create cl) os s ≡ (s, none)
  unfolding until_error maybe_create
  until_error-present [] s h = refl
  until_error-present (o ∷ os) s h =
      let (x, present) = h o (inl refl) in
      let (e, is, said) = law.create_present s o x present in
      ground (arith, until_error-present os s (λ p i. h p (inr i)))

  wanted-In :
      (os : List Object) (o : Object) → In o os → (x : Object) × (wanted os (object_key o) ≡ some x)
  wanted-In [] o i = absurd i
  wanted-In (p ∷ os) o i = elim (key_dec (object_key p) (object_key o)) [
    | yes same ↦ (p, ground arith)
    | no d ↦ elim i [
      | inl is ↦ absurd (d (ap object_key (sym is)))
      | inr j ↦ let (x, e) = wanted-In os o j in (x, ground arith)
    ]
  ]

  -- Nobody changes the namespace or the configuration.
  abbrev pub IsSteady : Namespace → Config → Type 0
  IsSteady ns config =
      (s : S) → (cl.get_namespace s ns.name ≡ (s, ok ns)) × (cl.get_config s ≡ (s, ok config))

  module _ (ns : Namespace) (config : Config) (steady : IsSteady ns config) (user : IsUser ns)
      (stays : ns.phase ≢ text "Terminating") where
    reconcile_namespace-loop :
        (s : S)
        → reconcile_namespace cl ns.name s
          ≡ until_error (maybe_create cl) (objects_for ns.name config) s
    unfolding reconcile_namespace
    reconcile_namespace-loop s =
        let labels = (ns_has_labels-IsUser ns).1 user in
        let (read, configured) = steady s in ground (arith, create_objects-loop cl ns.name config s)

    -- For a user's namespace that is not terminating, where nobody else changes the cluster, and the
    -- namespace and the configuration can always be read: if a run reports no error, each of the seven
    -- objects is there afterwards, every object that was there before is as it was, and there is no other
    -- new one. A second run changes nothing, and reports no error either. The server may refuse to create
    -- an object that is not there.
    pub reconcile_namespace_twice :
        (s s' : S)
        → reconcile_namespace cl ns.name s ≡ (s', none)
        → ((k : ObjectKey)
            → stored s' k ≡ or_else (stored s k) (wanted (objects_for ns.name config) k))
          × (reconcile_namespace cl ns.name s' ≡ (s', none))
    unfolding or_else
    reconcile_namespace_twice s s' done =
        let os : List Object = objects_for ns.name config in
        let all = until_error-settles os s s' (sym (reconcile_namespace-loop s) ∙ done) in
        let again : until_error (maybe_create cl) os s' ≡ (s', none) =
          until_error-present os s' (λ o i.
            let (x, w) = wanted-In os o i in
            elim (Option-cases (stored s (object_key o))) [
              | inr (y, there) ↦ (y, ground (arith, all (object_key o)))
              | inl absent ↦ (x, ground (arith, all (object_key o)))
            ]) in
        (all, reconcile_namespace-loop s' ∙ again)

  abbrev binding_key : ObjectKey
  binding_key = object_key (default_cluster_role_binding_for [])

  other_kind :
      (namespace : Text) (config : Config)
      → wanted (objects_for namespace config) binding_key
        ≡ some (default_cluster_role_binding_for namespace)
  unfolding key_dec text_dec
  other_kind namespace config = refl

  -- The controller runs without an error for two users' namespaces in a cluster without the binding: in
  -- the end the binding has the service account of the first namespace as its one subject.
  pub reconcile_namespace_first :
      (ns1 ns2 : Namespace) (config : Config) (s s1 s2 : S)
      → IsSteady ns1 config
      → IsSteady ns2 config
      → IsUser ns1
      → IsUser ns2
      → ns1.phase ≢ text "Terminating"
      → ns2.phase ≢ text "Terminating"
      → stored s (object_key (default_cluster_role_binding_for ns2.name)) ≡ none
      → reconcile_namespace cl ns1.name s ≡ (s1, none)
      → reconcile_namespace cl ns2.name s1 ≡ (s2, none)
      → stored s2 (object_key (default_cluster_role_binding_for ns2.name))
        ≡ some (default_cluster_role_binding_for ns1.name)
  unfolding or_else
  reconcile_namespace_first ns1 ns2 config s s1 s2 steady1 steady2 user1 user2 stays1 stays2 absent
        one two =
      let (all1, _) = reconcile_namespace_twice ns1 config steady1 user1 stays1 s s1 one in
      let (all2, _) = reconcile_namespace_twice ns2 config steady2 user2 stays2 s1 s2 two in
      ground (
        arith,
        all1 binding_key,
        all2 binding_key,
        other_kind ns1.name config,
        other_kind ns2.name config,
      )
