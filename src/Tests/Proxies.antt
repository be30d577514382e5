-- ===== src/Tests/Proxies.antt =====
-- The tunnels of a proxy with two pods on two nodes.
use resource_model.Base.{
  ℕ, ◌+◌, ◌≡◌, ◌⊎◌, refl, [], ◌∷◌, none, some, ite, Text, text, text_dec, Result, ok,
}
use resource_model.GoMap.{GoMap, lookup, insert}
use resource_model.Proxies.{
  Tunnel, TunnelMaps, ProxyInterface, Proxy, tunnel_at, proxy_tunnels, add_tunnels,
  add_node_tunnels, add_tunnel, remove_proxy_info,
}
use resource_model.Proxies.Removal.{RunsOn, remove_proxy_info_lem}

-- A counter hands out the IDs.
abbrev allocate_id : ℕ → ℕ × Result ℕ ℕ
allocate_id s = (s + 1, ok s)

abbrev tunnel_to : Text → ℕ → Tunnel
tunnel_to address id = record { address = address; port = 6080; tunnel_id = id }

abbrev pods : GoMap Text ProxyInterface
pods =
    (text "pod-a", record { epic_node_address = text "a" })
    ∷ (text "pod-b", record { epic_node_address = text "b" })
    ∷ []

abbrev old : TunnelMaps
old = (text "n", (text "a", tunnel_to (text "a") 1) ∷ []) ∷ []

abbrev new : TunnelMaps
new = (text "n", (text "a", tunnel_to (text "a") 1) ∷ (text "b", tunnel_to (text "b") 7) ∷ []) ∷ []

-- The tunnel that is there keeps its ID.
tunnels_added : proxy_tunnels allocate_id (tunnel_to [] 0) old (text "n" ∷ []) pods 7 ≡ (8, ok new)
unfolding proxy_tunnels add_tunnels add_node_tunnels add_tunnel lookup insert text_dec
tunnels_added = refl

abbrev proxy : Proxy
proxy = record { proxy_interfaces = pods; gue_tunnel_maps = new }

remove_proxy_info_lem_example :
    (p' : Proxy) × (remove_proxy_info (text "pod-a") proxy ≡ some p')
    × ((other : Text)
        → lookup text_dec other p'.proxy_interfaces
          ≡ ite (text_dec (text "pod-a") other) none (lookup text_dec other pods))
    × ((RunsOn p'.proxy_interfaces (text "a") × (p'.gue_tunnel_maps ≡ new))
        ⊎ ((¬ RunsOn p'.proxy_interfaces (text "a"))
            × ((n node : Text)
                → tunnel_at p'.gue_tunnel_maps n node
                  ≡ ite (text_dec (text "a") node) none (tunnel_at new n node))))
unfolding lookup text_dec
remove_proxy_info_lem_example =
    remove_proxy_info_lem proxy (text "pod-a") (record { epic_node_address = text "a" })
      (refl, (refl, tt)) refl
