-- ===== src/Remotes/Removed.antt =====
-- `removeRepInfo` of controllers/remoteendpoint_controller.go with its calls of the client.
use resource_model.Base.{
  ◌≡◌, ◌≢◌, ◌↔◌, ◌⊎◌, inl, inr, false, List, [], ◌∷◌, none, some, arith, In, subst, sym, ap, ◌∙◌,
  Text, text, text_dec, Bool-cases, Option-cases, ok, Result-cases,
}
use resource_model.GoMap.{GoMap, lookup, insert}
use resource_model.Links.{NamespacedName}
use resource_model.Proxies.{TunnelMaps}
use resource_model.Remotes.{
  RemoteEndpoint, LoadBalancer, Client, Fallible, node_of, active, without_rep, store_without,
  try_remove, remove_rep_info,
}
use resource_model.Remotes.Tunnels.{without_rep_lem}

active-In :
    (reps : List RemoteEndpoint) (other : RemoteEndpoint)
    → In other (active reps) ↔ (In other reps × (other.deleting ≡ false))
unfolding active
active-In [] other = (λ i. absurd i, λ (i, _). absurd i)
active-In (rep ∷ reps) other =
    let (into, back) = active-In reps other in
    elim (Bool-cases rep.deleting) [
      | inl gone ↦
          let step : active (rep ∷ reps) ≡ active reps = ground arith in
          (
            (λ i. let (j, e) = into (subst (In other) step i) in (inr j, e)),
            λ (i, e). elim i [
              | inl is ↦
                  let same = ap (λ (r : RemoteEndpoint). r.deleting) is in absurd (ground arith)
              | inr j ↦ subst (In other) (sym step) (back (j, e))
            ],
          )
      | inr here ↦
          let step : active (rep ∷ reps) ≡ rep ∷ active reps = ground arith in
          (
            (λ i. elim (subst (In other) step i) [
              | inl is ↦ (inl is, ap (λ (r : RemoteEndpoint). r.deleting) is ∙ here)
              | inr j ↦ let (k, e) = into j in (inr k, e)
            ]),
            λ (i, e).
                subst (In other) (sym step)
                  (elim i [ inl is ↦ inl is | inr j ↦ inr (back (j, e)) ]),
          )
    ]

-- The tunnel maps after an endpoint has gone, given the endpoints of the load balancer. If every one on
-- its node that is not to be deleted has its name, the entry of the node goes and every other stays; if
-- there is another, all stay.
abbrev pub IsReduced : RemoteEndpoint → List RemoteEndpoint → TunnelMaps → TunnelMaps → Type 0
IsReduced rep reps old new =
    (((other : RemoteEndpoint)
        → In other reps
        → other.deleting ≡ false
        → node_of other ≡ node_of rep
        → other.name ≡ rep.name)
      × (lookup text_dec (node_of rep) new ≡ none)
      × ((n : Text) → n ≢ node_of rep → lookup text_dec n new ≡ lookup text_dec n old))
    ⊎ ((other : RemoteEndpoint) × In other reps
        × (other.deleting ≡ false)
        × (other.name ≢ rep.name)
        × (node_of other ≡ node_of rep)
        × (new ≡ old))

without_rep-IsReduced :
    (rep : RemoteEndpoint) (reps : List RemoteEndpoint) (maps : TunnelMaps)
    → IsReduced rep reps maps (without_rep rep (active reps) maps)
without_rep-IsReduced rep reps maps = elim (without_rep_lem rep (active reps) maps) [
  | inl (alone, gone, stay) ↦
      inl ((λ other i here same. alone other ((active-In reps other).1 (i, here)) same), gone, stay)
  | inr ((other, i, differ, same), all) ↦
      let (j, here) = (active-In reps other).0 i in inr (other, j, here, differ, same, all)
]

module _ {S E : Type 0} (cl : Client S E)
    (retry_on_conflict : (S → S × Fallible E) → S → S × Fallible E) (finalizer_name : Text) where
  -- The load balancer was read, then its endpoints, and an update stored it with the new maps and a new
  -- label.
  abbrev pub IsRemoved : NamespacedName → RemoteEndpoint → S → Type 0
  IsRemoved key rep s' =
      (t : S) × (lb : LoadBalancer) × (reps : List RemoteEndpoint) × (labels : GoMap Text Text)
      × (raw : Text) × (new : TunnelMaps) × (before : S) × ((cl.get_load_balancer t key).1 ≡ ok lb)
      × ((cl.list_endpoints (cl.get_load_balancer t key).0 key).1 ≡ ok reps)
      × (lb.labels ≡ some labels)
      × IsReduced rep reps lb.gue_tunnel_maps new
      × (cl.update_load_balancer before key (record lb {
        labels = some (insert text_dec (text "nudge") raw labels);
        gue_tunnel_maps = new;
      })
          ≡ (s', none))

  -- Where `removeRepInfo` reports no error, and `RetryOnConflict` returns what its last call returned:
  -- the load balancer had labels when it was read, then its endpoints were read, and an update stored it
  -- with a new value of the label "nudge". In that, the tunnels of the node of the endpoint are gone if
  -- no other endpoint that was read, and is not to be deleted, is on the node, and all others are as they
  -- were; if there is one, all are as they were.
  pub remove_rep_info_lem :
      ((f : S → S × Fallible E) (s : S) → (t : S) × (retry_on_conflict f s ≡ f t))
      → (key : NamespacedName) (rep : RemoteEndpoint) (s s' : S)
      → remove_rep_info cl retry_on_conflict finalizer_name key rep s ≡ (s', some none)
      → IsRemoved key rep s'
  unfolding remove_rep_info try_remove store_without
  remove_rep_info_lem retries key rep s s' e =
      let (t, last) = retries (try_remove cl key rep) s in
      let s1 : S = (cl.get_load_balancer t key).0 in
      let s2 : S = (cl.list_endpoints s1 key).0 in
      elim (Result-cases (cl.get_load_balancer t key).1) [
        | inr (x, bad) ↦ absurd (ground arith)
        | inl (lb, got) ↦ elim (Result-cases (cl.list_endpoints s1 key).1) [
          | inr (x, bad) ↦ absurd (ground arith)
          | inl (reps, listed) ↦ elim (Option-cases lb.labels) [
            | inl lacks ↦ absurd (ground arith)
            | inr (labels, has) ↦ (
              t,
              lb,
              reps,
              labels,
              (cl.random s2).1,
              without_rep rep (active reps) lb.gue_tunnel_maps,
              (cl.random s2).0,
              got,
              listed,
              has,
              without_rep-IsReduced rep reps lb.gue_tunnel_maps,
              ground arith,
            )
          ]
        ]
      ]
