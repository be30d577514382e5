-- ===== src/Agents/Commands.antt =====
-- Which commands the agent runs.
use resource_model.Base.{
  ◌≡◌, ◌≢◌, ◌↔◌, refl, sym, ap, subst, ◌∙◌, ◌⊎◌, inl, inr, true, List, [], ◌∷◌, ◌++◌, some, arith,
  In, In-append, Text, Option-cases, Bool-cases,
}
use resource_model.GoMap.{GoMap}
use resource_model.Links.{RemoteEndpoint}
use resource_model.Proxies.{Tunnel, TunnelMaps, tunnel_at}
use resource_model.Agents.{
  Interface, Command, configure_tunnel, configure_service, endpoint_commands, each_endpoint,
  is_mine, commands_for,
}

-- A command for the tunnel between the node of the interface and that of the endpoint.
abbrev pub IsFor : TunnelMaps → Interface → RemoteEndpoint → Command → Type 0
IsFor maps info ep c =
    (t : Tunnel) × (tunnel_at maps ep.node_address info.epic_node_address ≡ some t)
    × ((c ≡ configure_tunnel t) ⊎ (c ≡ configure_service ep info.index t.tunnel_id))

endpoint_commands-In :
    (maps : TunnelMaps) (info : Interface) (ep : RemoteEndpoint) (c : Command)
    → In c (endpoint_commands maps info ep) ↔ IsFor maps info ep c
unfolding endpoint_commands
endpoint_commands-In maps info ep c =
    elim (Option-cases (tunnel_at maps ep.node_address info.epic_node_address)) [
      | inl lacks ↦
          let is : endpoint_commands maps info ep ≡ [] = ground arith in
          subst (λ cs. In c cs ↔ IsFor maps info ep c) (sym is)
            (λ i. absurd i, λ (t, has, which). absurd (ground arith))
      | inr (t, has) ↦
          let is : endpoint_commands maps info ep
              ≡ configure_tunnel t ∷ configure_service ep info.index t.tunnel_id ∷ [] =
            ground arith in
          subst (λ cs. In c cs ↔ IsFor maps info ep c) (sym is)
            (
              (λ i. elim i [
                | inl first ↦ (t, has, inl first)
                | inr (inl second) ↦ (t, has, inr second)
                | inr (inr left) ↦ absurd left
              ]),
              λ (u, has', which).
                  let same : u ≡ t = ground arith in
                  elim which [
                    | inl first ↦ inl (first ∙ ap configure_tunnel same)
                    | inr second ↦ inr (
                        inl (
                          second
                          ∙ ap (λ (t : Tunnel). configure_service ep info.index t.tunnel_id) same))
                  ],
            )
    ]

each_endpoint-In :
    (maps : TunnelMaps) (info : Interface) (reps : List RemoteEndpoint) (c : Command)
    → In c (each_endpoint maps info reps)
      ↔ ((ep : RemoteEndpoint) × In ep reps × IsFor maps info ep c)
unfolding each_endpoint
each_endpoint-In maps info [] c = (λ i. absurd i, λ (ep, i, f). absurd i)
each_endpoint-In maps info (x ∷ reps) c =
    let (split, join) =
      In-append c (endpoint_commands maps info x) (each_endpoint maps info reps) in
    let (into, back) = each_endpoint-In maps info reps c in
    let (into1, back1) = endpoint_commands-In maps info x c in
    (
      (λ i. elim (split i) [
        | inl j ↦ (x, inl refl, into1 j)
        | inr j ↦ let (ep, k, f) = into j in (ep, inr k, f)
      ]),
      (λ (ep, i, f). join (elim i [
        | inl same ↦ inl (back1 (subst (λ e. IsFor maps info e c) same f))
        | inr k ↦ inr (back (ep, k, f))
      ])),
    )

-- The interface is on the node and has its name.
abbrev pub IsMine : Text → Interface → Type 0
IsMine me info = (info.epic_node_address ≡ me) × (info.name ≢ [])

pub is_mine-IsMine : (me : Text) (info : Interface) → (is_mine me info ≡ true) ↔ IsMine me info
unfolding is_mine
is_mine-IsMine me info = ground arith

-- A command that the agent runs for one interface.
abbrev IsOwn : Text → TunnelMaps → List RemoteEndpoint → Interface → Command → Type 0
IsOwn me maps reps info c =
    IsMine me info × ((ep : RemoteEndpoint) × In ep reps × IsFor maps info ep c)

-- A step of the loop appends the commands of one interface.
commands_for-step :
    (me : Text) (maps : TunnelMaps) (reps : List RemoteEndpoint) (x : Text) (info : Interface)
    (interfaces : GoMap Text Interface)
    → (own : List Command) × (commands_for me maps reps ((x, info) ∷ interfaces)
        ≡ own ++ commands_for me maps reps interfaces)
      × ((c : Command) → In c own ↔ IsOwn me maps reps info c)
unfolding commands_for
commands_for-step me maps reps x info interfaces =
    let (is, isnt) = is_mine-IsMine me info in
    elim (Bool-cases (is_mine me info)) [
      | inr other ↦ (
        [],
        ground arith,
        λ c. (λ i. absurd i, λ (m, _). let mine = isnt m in absurd (ground arith)),
      )
      | inl mine ↦ (
        each_endpoint maps info reps,
        ground arith,
        λ c.
            let (into, back) = each_endpoint-In maps info reps c in
            (λ i. (is mine, into i), λ (_, found). back found),
      )
    ]

-- The commands for a proxy on a node are exactly those for the tunnels of the proxy's between this node,
-- where an interface of the proxy with a name is on it, and the nodes of the endpoints: one that sets up
-- the tunnel, and one for the service from the interface to the endpoint.
pub commands_for-In :
    (me : Text) (maps : TunnelMaps) (reps : List RemoteEndpoint) (interfaces : GoMap Text Interface)
    (c : Command)
    → In c (commands_for me maps reps interfaces) ↔ (
        (name : Text) × (info : Interface) × (ep : RemoteEndpoint) × In (name, info) interfaces
        × IsMine me info
        × In ep reps
        × IsFor maps info ep c)
unfolding commands_for
commands_for-In me maps reps [] c = (λ i. absurd i, λ (name, info, ep, i, m, j, f). absurd i)
commands_for-In me maps reps ((x, info) ∷ interfaces) c =
    let (own, step, own-IsOwn) = commands_for-step me maps reps x info interfaces in
    let (split, join) = In-append c own (commands_for me maps reps interfaces) in
    let (into, back) = commands_for-In me maps reps interfaces c in
    let (into1, back1) = own-IsOwn c in
    (
      (λ i. elim (split (subst (In c) step i)) [
        | inl j ↦ let (m, (ep, k, f)) = into1 j in (x, info, ep, inl refl, m, k, f)
        | inr j ↦ let (name, o, ep, k, m, l, f) = into j in (name, o, ep, inr k, m, l, f)
      ]),
      λ (name, o, ep, k, m, l, f). subst (In c) (sym step) (
          join (elim k [
            | inl same ↦
                let here : IsOwn me maps reps info c =
                  subst (λ o. IsOwn me maps reps o c) (ap (λ (e : Text × Interface). e.1) same)
                    (m, (ep, l, f)) in
                inl (back1 here)
            | inr j ↦ inr (back (name, o, ep, j, m, l, f))
          ])),
    )
