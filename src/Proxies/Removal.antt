-- ===== src/Proxies/Removal.antt =====
-- `RemoveProxyInfo`: the tunnels of a node go when its last pod goes.
use resource_model.Base.{
  ◌≡◌, ◌↔◌, ◌⊎◌, refl, sym, inl, inr, true, [], ◌∷◌, map, none, some, arith, ite, Text, text_dec,
  Option-cases, Bool-cases,
}
use resource_model.GoMap.{GoMap, lookup, delete, lookup-delete, IsMap, delete-IsMap}
use resource_model.Proxies.{
  TunnelMaps, ProxyInterface, Proxy, tunnel_at, has_proxys, delete_node, remove_proxy_info,
}

-- Some pod of the proxy runs on the node.
abbrev pub RunsOn : GoMap Text ProxyInterface → Text → Type 0
RunsOn interfaces node =
    (pod : Text) × (info : ProxyInterface) × (lookup text_dec pod interfaces ≡ some info)
    × (info.epic_node_address ≡ node)

has_proxys-RunsOn :
    (node : Text) (interfaces : GoMap Text ProxyInterface)
    → IsMap text_dec interfaces
    → (has_proxys node interfaces ≡ true) ↔ RunsOn interfaces node
unfolding has_proxys lookup
has_proxys-RunsOn node [] h =
    ((λ e. absurd (ground arith)), λ (pod, info, e, s). absurd (ground arith))
has_proxys-RunsOn node ((pod, info) ∷ interfaces) h =
    let (to, from) = has_proxys-RunsOn node interfaces h.1 in
    (
      (λ e. elim (text_dec node info.epic_node_address) [
        | yes same ↦ (pod, info, ground arith, sym same)
        | no d ↦
            let (pod', info', found, same) = to (ground arith) in
            (pod', info', ground (arith, h.0), same)
      ]),
      λ (pod', info', found, same). elim (text_dec node info.epic_node_address) [
        | yes s ↦ ground arith
        | no d ↦ elim (text_dec pod pod') [
          | yes s ↦ absurd (ground arith)
          | no o ↦
              let there : lookup text_dec pod' interfaces ≡ some info' = ground arith in
              let rest = from (pod', info', there, same) in ground arith
        ]
      ],
    )

lookup-delete_node :
    (node n : Text) (m : TunnelMaps)
    → lookup text_dec n (delete_node node m)
      ≡ elim (lookup text_dec n m) [ none ↦ none | some inner ↦ some (delete text_dec node inner) ]
unfolding lookup
lookup-delete_node node n [] = refl
lookup-delete_node node n ((k, inner) ∷ m) = ground (arith, lookup-delete_node node n m)

tunnel_at-delete_node :
    (node n p : Text) (m : TunnelMaps)
    → tunnel_at (delete_node node m) n p ≡ ite (text_dec node p) none (tunnel_at m n p)
unfolding lookup
tunnel_at-delete_node node n p m = elim (Option-cases (lookup text_dec n m)) [
  | inl e ↦ ground (arith, lookup-delete_node node n m)
  | inr (inner, e) ↦
      ground (arith, lookup-delete_node node n m, lookup-delete text_dec node p inner)
]

-- `RemoveProxyInfo` of a pod that the proxy has: the interfaces of all other pods stay and the
-- pod's goes. If another pod runs on the pod's node no tunnel changes, and otherwise exactly the
-- tunnels to this node go.
pub remove_proxy_info_lem :
    (p : Proxy) (pod : Text) (info : ProxyInterface)
    → IsMap text_dec p.proxy_interfaces
    → lookup text_dec pod p.proxy_interfaces ≡ some info
    → (p' : Proxy) × (remove_proxy_info pod p ≡ some p')
      × ((other : Text)
          → lookup text_dec other p'.proxy_interfaces
            ≡ ite (text_dec pod other) none (lookup text_dec other p.proxy_interfaces))
      × ((RunsOn p'.proxy_interfaces info.epic_node_address
            × (p'.gue_tunnel_maps ≡ p.gue_tunnel_maps))
          ⊎ ((¬ RunsOn p'.proxy_interfaces info.epic_node_address)
              × ((n node : Text)
                  → tunnel_at p'.gue_tunnel_maps n node
                    ≡ ite
                        (text_dec info.epic_node_address node)
                        none
                        (tunnel_at p.gue_tunnel_maps n node))))
unfolding remove_proxy_info
remove_proxy_info_lem p pod info map has =
    let left : GoMap Text ProxyInterface = delete text_dec pod p.proxy_interfaces in
    let left-map = delete-IsMap text_dec pod p.proxy_interfaces map in
    let node : Text = info.epic_node_address in
    let (to, from) = has_proxys-RunsOn node left left-map in
    elim (Bool-cases (has_proxys node left)) [
      | inl yes_ ↦ (
        record { proxy_interfaces = left; gue_tunnel_maps = p.gue_tunnel_maps },
        ground arith,
        (λ other. lookup-delete text_dec pod other p.proxy_interfaces),
        inl (to yes_, refl),
      )
      | inr no_ ↦ (
        record { proxy_interfaces = left; gue_tunnel_maps = delete_node node p.gue_tunnel_maps },
        ground arith,
        (λ other. lookup-delete text_dec pod other p.proxy_interfaces),
        inr (
          (λ runs. let e = from runs in absurd (ground arith)),
          λ n other. tunnel_at-delete_node node n other p.gue_tunnel_maps,
        ),
      )
    ]
