-- ===== src/Namespaces/Created.antt =====
-- What a run of the namespace controller creates.
use resource_model.Base.{
  ◌≡◌, ◌≢◌, sym, ◌∙◌, ◌↔◌, ◌⊎◌, inl, inr, true, List, [], ◌∷◌, none, some, arith, In, Text, text,
  text_dec, Option-cases, Bool-cases, ok, err, Result-cases, andthen-until_error, until_error,
  until_error-one, until_error-In, contains,
}
use resource_model.GoMap.{GoMap}
use resource_model.Objects.{Object}
use resource_model.Namespaces.{
  Client, Config, Namespace, ns_has_label, ns_has_labels, user_ns_labels, marin3r_for,
  service_account_for, role_for, eds_role_binding_for, default_cluster_role_binding_for,
  service_for, eds_deployment_for, maybe_create, create_objects, reconcile_namespace,
}

abbrev pub objects_for : Text → Config → List Object
objects_for namespace config =
    marin3r_for namespace config.xds_image
    ∷ service_account_for namespace
    ∷ role_for namespace
    ∷ eds_role_binding_for namespace
    ∷ default_cluster_role_binding_for namespace
    ∷ service_for namespace
    ∷ eds_deployment_for namespace config.eds_image
    ∷ []

-- The map has the entry. A Go map has each key once.
abbrev pub HasEntry : GoMap Text Text → Text → Text → Type 0
HasEntry labels k v = In (k, v) labels

ns_has_label-HasEntry :
    (labels : GoMap Text Text) (k v : Text) → (ns_has_label labels k v ≡ true) ↔ HasEntry labels k v
unfolding ns_has_label
ns_has_label-HasEntry [] k v = ground arith
ns_has_label-HasEntry ((j, w) ∷ labels) k v = ground (arith, ns_has_label-HasEntry labels k v)

-- The namespace of a user.
abbrev pub IsUser : Namespace → Type 0
IsUser ns =
    HasEntry ns.labels (text "app.kubernetes.io/component") (text "user-namespace")
    × HasEntry ns.labels (text "app.kubernetes.io/part-of") (text "epic")

pub ns_has_labels-IsUser : (ns : Namespace) → (ns_has_labels ns user_ns_labels ≡ true) ↔ IsUser ns
unfolding ns_has_labels
ns_has_labels-IsUser ns = ground (
  arith,
  ns_has_label-HasEntry ns.labels (text "app.kubernetes.io/component") (text "user-namespace"),
  ns_has_label-HasEntry ns.labels (text "app.kubernetes.io/part-of") (text "epic"),
)

module _ {S E : Type 0} (cl : Client S E) where
  -- The client created the object, or answered that there is one of its name.
  abbrev pub IsCreated : Object → Type 0
  IsCreated obj =
      (before : S) × (after : S) × ((cl.create before obj ≡ (after, none))
        ⊎ ((e : E) × (cl.create before obj ≡ (after, some e))
            × (contains (text "already exists") (cl.message e) ≡ true)))

  maybe_create-IsCreated :
      (s s' : S) (obj : Object) → maybe_create cl s obj ≡ (s', none) → IsCreated obj
  unfolding maybe_create
  maybe_create-IsCreated s s' obj e = elim (Option-cases (cl.create s obj).1) [
    | inl good ↦ (s, s', inl (ground arith))
    | inr (x, bad) ↦ elim (Bool-cases (contains (text "already exists") (cl.message x))) [
      | inl there ↦ (s, s', inr (x, ground arith, there))
      | inr other ↦ absurd (ground arith)
    ]
  ]

  pub create_objects-loop :
      (namespace : Text) (config : Config) (s : S)
      → create_objects cl namespace config s
        ≡ until_error (maybe_create cl) (objects_for namespace config) s
  unfolding create_objects
  create_objects-loop namespace config s =
      let more = andthen-until_error (maybe_create cl) in
      more _ _ s _ (λ s1. more _ _ s1 _ (λ s2. more _ _ s2 _ (λ s3. more _ _ s3 _ (λ s4.
        more _ _ s4 _ (λ s5. more _ _ s5 _ (λ s6. until_error-one (maybe_create cl) _ s6))))))

  -- What `Reconcile` of the namespace controller did where it returns no error.
  abbrev pub IsSetUp : Text → S → S → Type 0
  IsSetUp request s s' =
      let read = cl.get_namespace s request in
      ((e : E) × (read.1 ≡ err e) × (cl.is_not_found e ≡ true) × (s' ≡ read.0))
      ⊎ ((ns : Namespace) × (read.1 ≡ ok ns)
          × ((ns.phase ≡ text "Terminating") ⊎ (¬ IsUser ns))
          × (s' ≡ read.0))
      ⊎ ((ns : Namespace) × (config : Config) × (read.1 ≡ ok ns)
          × (ns.phase ≢ text "Terminating")
          × IsUser ns
          × ((cl.get_config read.0).1 ≡ ok config)
          × ((obj : Object) → In obj (objects_for ns.name config) → IsCreated obj))

  -- Where `Reconcile` of the namespace controller returns no error, the namespace is gone, or it is
  -- terminating or not a user's, and nothing more was done; or it is a user's, and each of the seven
  -- objects for it was created, or there already was one of its name.
  pub reconcile_namespace_lem :
      (request : Text) (s s' : S)
      → reconcile_namespace cl request s ≡ (s', none)
      → IsSetUp request s s'
  unfolding reconcile_namespace
  reconcile_namespace_lem request s s' e =
      let s1 : S = (cl.get_namespace s request).0 in
      elim (Result-cases (cl.get_namespace s request).1) [
        | inr (x, bad) ↦ elim (Bool-cases (cl.is_not_found x)) [
          | inl absent ↦ inl (x, bad, absent, ground arith)
          | inr other ↦ absurd (ground arith)
        ]
        | inl (ns, got) ↦ elim (text_dec ns.phase (text "Terminating")) [
          | yes ends ↦ inr (inl (ns, got, inl ends, ground arith))
          | no stays ↦ elim (Bool-cases (ns_has_labels ns user_ns_labels)) [
            | inr other ↦
                let nobody : ¬ IsUser ns =
                  λ u. let h = (ns_has_labels-IsUser ns).1 u in ground arith in
                inr (inl (ns, got, inr nobody, ground arith))
            | inl user ↦ elim (Result-cases (cl.get_config s1).1) [
              | inr (x, bad) ↦ absurd (ground arith)
              | inl (config, read) ↦
                  let ran : create_objects cl ns.name config (cl.get_config s1).0 ≡ (s', none) =
                    ground arith in
                  let loop = sym (create_objects-loop ns.name config (cl.get_config s1).0) ∙ ran in
                  inr (
                    inr (
                      ns,
                      config,
                      got,
                      stays,
                      (ns_has_labels-IsUser ns).0 user,
                      read,
                      λ obj i.
                          let (before, after, made) =
                            until_error-In (maybe_create cl) (objects_for ns.name config)
                              (cl.get_config s1).0 s' obj loop i in
                          maybe_create-IsCreated before after obj made,
                    ))
            ]
          ]
        ]
      ]
