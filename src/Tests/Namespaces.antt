-- ===== src/Tests/Namespaces.antt =====
-- The namespace controller in a cluster whose state is the list of its objects.
use mathlib.Core.Option.{or_else}
use resource_model.Base.{
  ◌≡◌, ◌≢◌, refl, inl, inr, false, List, [], ◌∷◌, none, some, arith, Text, text, text_dec, ok,
  contains, trim_prefix?,
}
use resource_model.Objects.{Object, ObjectKey, object_key}
use resource_model.Namespaces.{
  Client, Config, Namespace, reconcile_namespace, ns_has_labels, ns_has_label, create_objects,
  maybe_create,
}
use resource_model.Namespaces.Created.{objects_for, IsUser, IsSetUp, reconcile_namespace_lem}
use resource_model.Namespaces.Settled.{key_dec, wanted, IsServer, reconcile_namespace_twice}

abbrev user : Text → Namespace
user name = record {
  name = name;
  phase = text "Active";
  labels =
      (text "app.kubernetes.io/part-of", text "epic")
      ∷ (text "app.kubernetes.io/component", text "user-namespace")
      ∷ [];
}

abbrev config : Config
config = record { xds_image = none; eds_image = text "eds:1" }

-- The error is its message.
abbrev cluster : Client (List Object) Text
cluster = record {
  get_namespace = λ s n. (s, ok (user n));
  get_config = λ s. (s, ok config);
  create = λ s o. elim (wanted s (object_key o)) [
    | none ↦ (o ∷ s, none)
    | some x ↦ (s, some (text "it already exists"))
  ];
  is_not_found = λ e. false;
  message = λ e. e;
}

cluster-IsServer : IsServer cluster wanted
unfolding contains trim_prefix?
cluster-IsServer = record {
  create_absent = λ s o e. inl (o ∷ s, ground arith, λ k. refl);
  create_present = λ s o x e. (text "it already exists", ground arith, refl);
}

user-IsUser : (name : Text) → IsUser (user name)
user-IsUser name = (inr (inl refl), inl refl)

is_active : text "Active" ≢ text "Terminating"
is_active = ground arith

reconcile_namespace-ok :
    reconcile_namespace cluster (text "epic-a") []
    ≡ ((reconcile_namespace cluster (text "epic-a") []).0, none)
unfolding reconcile_namespace ns_has_labels ns_has_label create_objects maybe_create key_dec
    text_dec
reconcile_namespace-ok = refl

reconcile_namespace_twice_example :
    let s' : List Object = (reconcile_namespace cluster (text "epic-a") []).0 in
    ((k : ObjectKey)
      → wanted s' k ≡ or_else (wanted [] k) (wanted (objects_for (text "epic-a") config) k))
    × (reconcile_namespace cluster (text "epic-a") s' ≡ (s', none))
reconcile_namespace_twice_example =
    reconcile_namespace_twice cluster wanted cluster-IsServer (user (text "epic-a")) config
      (λ s. (refl, refl)) (user-IsUser (text "epic-a")) is_active []
      (reconcile_namespace cluster (text "epic-a") []).0 reconcile_namespace-ok

reconcile_namespace_lem_example :
    IsSetUp cluster (text "epic-a") [] (reconcile_namespace cluster (text "epic-a") []).0
reconcile_namespace_lem_example =
    reconcile_namespace_lem cluster (text "epic-a") []
      (reconcile_namespace cluster (text "epic-a") []).0 reconcile_namespace-ok
