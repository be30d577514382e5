-- ===== src/Remotes/Validated.antt =====
-- Which endpoints `ValidateCreate` lets through.
use resource_model.Base.{
  ◌≡◌, ◌≢◌, ◌↔◌, refl, ap, subst, ◌∙◌, ◌⊎◌, inl, inr, true, List, [], ◌∷◌, Option, none, arith, In,
  Text, text_dec, ok, Result-cases, Option-cases, Bool-cases,
}
use resource_model.Allocator.Ip.{Ip}
use resource_model.Admission.Validation.{contains_upstream}
use resource_model.Admission.Upstreams.{contains_upstream-In}
use resource_model.Remotes.{
  Spec, RemoteEndpoint, LoadBalancer, Client, spec_dec, node_of, owner_of, same_spec, can_parse,
  check_owner, validate_create,
}

same_spec-none :
    (spec : Spec) (reps : List RemoteEndpoint)
    → (same_spec spec reps ≡ none) ↔ ((other : RemoteEndpoint) → In other reps → spec ≢ other.spec)
unfolding same_spec
same_spec-none spec [] = (λ e other i. absurd i, λ h. refl)
same_spec-none spec (rep ∷ reps) =
    let (into, back) = same_spec-none spec reps in
    elim (spec_dec spec rep.spec) [
      | yes same ↦ (λ e. absurd (ground arith), λ h. absurd (h rep (inl refl) same))
      | no differ ↦ (
        (λ e other i. elim i [
          | inl is ↦ λ s. differ (s ∙ ap (λ (r : RemoteEndpoint). r.spec) is)
          | inr j ↦ into (ground arith) other j
        ]),
        λ h.
            let rest : same_spec spec reps ≡ none = back (λ other i. h other (inr i)) in
            ground arith,
      )
    ]

module _ {S E : Type 0} (cl : Client S E) (parse_ip : Text → Option Ip) where
  -- The owner is a load balancer with the endpoint's cluster, and no endpoint of it has the same spec.
  abbrev pub IsWelcome : Text → RemoteEndpoint → S → Type 0
  IsWelcome namespace rep s =
      let key = owner_of cl namespace rep in
      (lb : LoadBalancer) × (reps : List RemoteEndpoint) × ((cl.get_load_balancer s key).1 ≡ ok lb)
      × In rep.spec.endpoint.cluster lb.upstream_clusters
      × ((cl.list_endpoints (cl.get_load_balancer s key).0 key).1 ≡ ok reps)
      × ((other : RemoteEndpoint) → In other reps → rep.spec ≢ other.spec)

  check_owner-IsWelcome :
      (namespace : Text) (rep : RemoteEndpoint) (s : S)
      → ((check_owner cl parse_ip namespace rep s).1 ≡ none) ↔ IsWelcome namespace rep s
  unfolding check_owner
  check_owner-IsWelcome namespace rep s =
      let key = owner_of cl namespace rep in
      let s1 : S = (cl.get_load_balancer s key).0 in
      elim (Result-cases (cl.get_load_balancer s key).1) [
        | inr (x, bad) ↦
            (λ e. absurd (ground arith), λ (lb, reps, got, i, listed, apart). absurd (ground arith))
        | inl (lb, got) ↦
            let (member, found) =
              contains_upstream-In rep.spec.endpoint.cluster lb.upstream_clusters in
            elim (Bool-cases (contains_upstream rep.spec.endpoint.cluster lb.upstream_clusters)) [
              | inr absent ↦ (
                λ e. absurd (ground arith),
                λ (lb', reps, got', i, listed, apart).
                    let same : lb' ≡ lb = ground arith in
                    let here = found (
                      subst (λ (l : LoadBalancer). In rep.spec.endpoint.cluster l.upstream_clusters)
                        same i) in
                    absurd (ground arith),
              )
              | inl there ↦ elim (Result-cases (cl.list_endpoints s1 key).1) [
                | inr (x, bad) ↦ (
                  λ e. absurd (ground arith),
                  λ (lb', reps, got', i, listed, apart). absurd (ground arith),
                )
                | inl (reps, listed) ↦
                    let (into, back) = same_spec-none rep.spec reps in
                    elim (Option-cases (same_spec rep.spec reps)) [
                      | inl free ↦
                          (λ e. (lb, reps, got, member there, listed, into free), λ w. ground arith)
                      | inr (other, taken) ↦ (
                        λ e. absurd (ground arith),
                        λ (lb', reps', got', i, listed', apart).
                            let same : reps' ≡ reps = ground arith in
                            let free = back (
                              subst
                                (λ (l : List RemoteEndpoint).
                                  (o : RemoteEndpoint) → In o l → rep.spec ≢ o.spec)
                                same apart) in
                            absurd (ground arith),
                      )
                    ]
              ]
            ]
      ]

  -- `ValidateCreate` lets an endpoint through exactly if its address can be parsed, and its node's too
  -- where it has one, its owner is a load balancer with its cluster, and no endpoint in the list of that
  -- load balancer has the same spec.
  pub validate_create_lem :
      (namespace : Text) (rep : RemoteEndpoint) (s : S)
      → ((validate_create cl parse_ip namespace rep s).1 ≡ none) ↔ (
          (can_parse cl parse_ip rep.spec.endpoint.address ≡ true)
          × ((node_of rep ≡ []) ⊎ (can_parse cl parse_ip (node_of rep) ≡ true))
          × IsWelcome namespace rep s)
  unfolding validate_create
  validate_create_lem namespace rep s =
      let (into, back) = check_owner-IsWelcome namespace rep s in
      elim (Bool-cases (can_parse cl parse_ip rep.spec.endpoint.address)) [
        | inr bad ↦ (λ e. absurd (ground arith), λ (good, node, w). absurd (ground arith))
        | inl good ↦ elim (text_dec (node_of rep) []) [
          | yes empty ↦ (
            λ e. (good, inl empty, into (ground arith)),
            λ (g, node, w). let free = back w in ground arith,
          )
          | no differ ↦ elim (Bool-cases (can_parse cl parse_ip (node_of rep))) [
            | inl fine ↦ (
              λ e. (good, inr fine, into (ground arith)),
              λ (g, node, w). let free = back w in ground arith,
            )
            | inr bad ↦ (
              λ e. absurd (ground arith),
              λ (g, node, w). elim node [
                | inl empty ↦ absurd (differ empty)
                | inr fine ↦ absurd (ground arith)
              ],
            )
          ]
        ]
      ]
