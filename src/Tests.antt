-- ===== src/Tests.antt =====
-- The library's theorems at concrete values, and runs of the modelled code.
mod Data
mod Allocator
mod Admission
mod Pool
mod Proxies
mod Routing
mod Tunnels
mod Labels
mod Finalizers
mod Blocks
mod Links
mod Namespaces
mod Prefixes
mod Envoys
mod Configs
mod Gateways
mod Pods
mod Remotes
mod Agents
