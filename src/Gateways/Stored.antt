-- ===== src/Gateways/Stored.antt =====
-- What was created or updated in the cluster for a proxy.
use resource_model.Base.{
  ◌≡◌, refl, ◌⊎◌, inl, inr, true, Option, none, some, arith, text, Option-cases, Bool-cases, Result,
  ok, err, Result-cases, contains,
}
use resource_model.Links.{NamespacedName}
use resource_model.Envoys.{EnvoyDeployment, Failure}
use resource_model.Routing.Configs.{EnvoyConfig}
use resource_model.Gateways.{
  GwProxy, Client, Error, name_of, client_error, try_update, update_envoy_deployment, launch,
  store_config,
}
use resource_model.Gateways.Tunnels.{client_error-none}

module _ {S E F B : Type 0} (cl : Client S E F B) where
  -- `RetryOnConflict` calls the function at least once and returns what its last call returned.
  abbrev pub Retries : Type 0
  Retries = (f : S → S × Option (Error E)) (s : S) → (t : S) × (cl.retry_on_conflict f s ≡ f t)

  -- An object is created, and its error says that it is there already.
  abbrev pub IsThere : S × Option E → S → Type 0
  IsThere created after =
      (e : E) × (created ≡ (after, some e))
      × (contains (text "already exists") (cl.message e) ≡ true)

  -- The deployment was created; or there is one of its name, and an update stored its spec there.
  abbrev pub IsLaunched : EnvoyDeployment → S → S → Type 0
  IsLaunched dep s s' =
      (cl.create_deployment s dep ≡ (s', none))
      ⊎ ((after : S) × (t : S) × (existing : EnvoyDeployment) × IsThere (cl.create_deployment s dep)
            after
          × ((cl.get_deployment t (record { namespace = dep.namespace; name = dep.name })).1
              ≡ ok existing)
          × (cl.put_deployment
                (cl.get_deployment t (record { namespace = dep.namespace; name = dep.name })).0
                (record dep { name = existing.name; namespace = existing.namespace })
              ≡ (s', none)))

  pub launch-IsLaunched :
      Retries
      → (made : Result Failure EnvoyDeployment) (s s' : S) → launch cl made s ≡ (s', none)
      → (dep : EnvoyDeployment) × (made ≡ ok dep) × IsLaunched dep s s'
  unfolding launch update_envoy_deployment try_update
  launch-IsLaunched retries (err x) s s' e = absurd (ground arith)
  launch-IsLaunched retries (ok dep) s s' e =
      let s1 : S = (cl.create_deployment s dep).0 in
      elim (Option-cases (cl.create_deployment s dep).1) [
        | inl made ↦ (dep, refl, inl (ground arith))
        | inr (x, failed) ↦ elim (Bool-cases (contains (text "already exists") (cl.message x))) [
          | inr other ↦ absurd (ground arith)
          | inl there ↦
              let (t, last) = retries (try_update cl dep) s1 in
              let name : NamespacedName = record { namespace = dep.namespace; name = dep.name } in
              elim (Result-cases (cl.get_deployment t name).1) [
                | inr (y, bad) ↦ absurd (ground arith)
                | inl (existing, got) ↦
                    let stored : client_error (
                          cl.put_deployment (cl.get_deployment t name).0
                            (record dep { name = existing.name; namespace = existing.namespace }))
                        ≡ (s', none) =
                      ground arith in
                    (
                      dep,
                      refl,
                      inr (
                        s1,
                        t,
                        existing,
                        (x, ground arith, there),
                        got,
                        client_error-none _ s' stored,
                      ),
                    )
              ]
        ]
      ]

  -- The configuration was created; or there is one for the proxy, and an update stored its spec there.
  abbrev pub IsStored : GwProxy → EnvoyConfig → S → S → Type 0
  IsStored proxy made s s' =
      (cl.create_config s made ≡ (s', none))
      ⊎ ((after : S) × (existing : EnvoyConfig) × IsThere (cl.create_config s made) after
          × ((cl.get_config after (name_of proxy)).1 ≡ ok existing)
          × (cl.update_config (cl.get_config after (name_of proxy)).0
                (record made { name = existing.name; namespace = existing.namespace })
              ≡ (s', none)))

  pub store_config-IsStored :
      (proxy : GwProxy) (made : EnvoyConfig) (s s' : S)
      → store_config cl proxy made s ≡ (s', none)
      → IsStored proxy made s s'
  unfolding store_config
  store_config-IsStored proxy made s s' e =
      let s1 : S = (cl.create_config s made).0 in
      elim (Option-cases (cl.create_config s made).1) [
        | inl fine ↦ inl (ground arith)
        | inr (x, failed) ↦ elim (Bool-cases (contains (text "already exists") (cl.message x))) [
          | inr other ↦ absurd (ground arith)
          | inl there ↦ elim (Result-cases (cl.get_config s1 (name_of proxy)).1) [
            | inr (y, bad) ↦ absurd (ground arith)
            | inl (existing, got) ↦
                let stored : client_error (
                      cl.update_config (cl.get_config s1 (name_of proxy)).0
                        (record made { name = existing.name; namespace = existing.namespace }))
                    ≡ (s', none) =
                  ground arith in
                inr (s1, existing, (x, ground arith, there), got, client_error-none _ s' stored)
          ]
        ]
      ]
