-- ===== src/Lib.antt =====
-- The EPIC resource model: the Kubernetes operator that gives load balancers and gateway proxies
-- their public addresses, their tunnels and their Envoy configuration.
--
-- The parts of the program and how they work together:
--   * The allocator (internal/allocator) holds the pools of public addresses. A pool is a range of
--     addresses with who uses each address, under which sharing key, and with which ports. The
--     prefix controller adds and removes pools, the admission webhooks ask for addresses, and the
--     controllers free them.
--   * The admission webhooks (api/v1/gwproxy_webhook.go, api/v1/loadbalancer_webhook.go) fill in a
--     new object, allocate its address, and refuse objects without an address, owner or quota.
--   * The tunnel IDs (api/v1/epic_types.go, controllers/remoteendpoint_controller.go) come from a
--     counter in a singleton object that several processes update at the same time.
--   * The proxy tunnels (controllers/gwproxy_controller.go, controllers/remoteendpoint_controller.go,
--     api/v1/gwproxy_types.go) connect each node that runs a pod of the proxy with each node that
--     runs an endpoint of a client.
--   * The routing (internal/contour, internal/envoy/resource.go) turns the routes and listeners of a
--     gateway into the rules that Envoy's templates print, and into the whole configuration of a
--     proxy or a load balancer.
--   * The controllers (controllers/) bring the cluster to what an object asks for. The prefix
--     controller fills the allocator; those of load balancers and proxies launch Envoys, and give
--     addresses back; those of pods and of proxies connect the tunnels; those of routes and endpoint
--     slices nudge the proxies that they concern; that of namespaces sets up the namespace of a user.
--
-- The files:
--   * Base, GoMap: shared names, lists, texts, and Go's map as an association list whose order
--     stands for the order in which `range` visits it.
--   * Allocator/Ip, Allocator/Range, Allocator/Pool, Allocator/Allocations: net.IP as bytes,
--     `IPRange` with its parser, `LocalPool`, and `Allocator` with its gauges. The methods have the
--     names of the source in lower case: `Pool.assign_next` is `LocalPool.AssignNext`,
--     `Allocations.allocate_from_pool` is `Allocator.AllocateFromPool`. State that a method changes
--     through a pointer or a map is an argument and a result.
--   * Admission: `Default` and `ValidateCreate` of the two webhooks, and the upstream clusters.
--   * Tunnels: the read-modify-write cycles on the counter; Tunnels/Unique has the processes that
--     interleave as a step relation.
--   * Finalizers: `AddFinalizer` and `RemoveFinalizer` of controllers/misc.go.
--   * Labels: `NewLabelsFromString` and `Serialize` of api/v1/dns_labels.go, a text and back.
--   * Proxies: `allocateProxyTunnels`, `addProxyTunnels` and `RemoveProxyInfo`. Proxies/Pods has the
--     loop of the pod controller.
--   * Routing/Hosts, Routing/Rules, Routing/Http, Routing/Listeners: `ComputeHosts`, the splitting,
--     combining and sorting of rules, `preprocessHTTPRoutes`, and `collapse`. Routing/Configs has
--     the parameters of the templates; Routing/Configs/Printing runs them and has
--     `ServiceToEnvoyConfig`, and Routing/Configs/Translation has `GWProxyToEnvoyConfig`.
--   * Links: the references between proxies, routes and endpoint slices (api/v1/gwroute_types.go,
--     api/v1/gwendpointslice_types.go, api/v1/gwproxy_types.go), with `ActiveProxyEndpoints`.
--   * Nudges: controllers/gwroute_controller.go and controllers/gwendpointslice_controller.go.
--   * Prefixes: controllers/serviceprefix_controller.go, with the warm-up of the allocator.
--   * PodLabels, Objects: api/v1/labels.go, and the objects of Kubernetes that are created.
--   * Namespaces: controllers/namespace_controller.go.
--   * Envoys: controllers/loadbalancer_controller.go, and the deployment for a proxy;
--     `Reconcile` is in Envoys/Controller.
--   * Gateways: controllers/gwproxy_controller.go, which joins Links, Proxies, Envoys and
--     Routing/Configs; `Reconcile` is in Gateways/Controller. A proxy is a record of the views that
--     these have of it.
--   * Agents: controllers/gwproxy_agent_controller.go.
--   * Remotes: controllers/remoteendpoint_controller.go and api/v1/remoteendpoint_webhook.go.
--   * Pods: controllers/pod_controller.go, `RemovePodInfo` and `RemoveProxyInfo`. The documents of its
--     merge patches are values, and what the API server makes of them is a parameter.
--   * Tests: the theorems at concrete values, and runs of the modelled code.
--
-- Machine integers are natural numbers with the wrap-around written out: `toInt` and `Size` modulo
-- 2^64, the tunnel counter modulo 2^32, `inc` on each byte modulo 256. An error is a value of a
-- result type, and a run-time panic is `none` or the error `panic`.
--
-- Fuel: the walk of `AssignNext` takes fuel, and one round more than the range has addresses is
-- enough. The loop of `parseCIDR` takes fuel too, and one round more than the block has addresses
-- from the one in the text on is enough, for a block whose addresses `Contains` accepts, and no others.
-- An IPv6 block with the IPv4-mapped addresses is not one: it refuses those.
--
-- The state of the cluster is a type `S` of which nothing is known: each call of the Kubernetes
-- client is a function from a state to a state and an answer, so that a theorem holds whatever other
-- processes do in between. Where a theorem needs more of the client it is a named hypothesis.
--
-- What other repositories provide is a parameter: `net.ParseIP` and `net.ParseCIDR`, the hostname
-- validations of Kubernetes, the Kubernetes client, text templates, the type of a route's filters, the
-- order in which `range` visits a map. The sort of more than 20 rules, which merges sorted blocks, is a
-- parameter as well, since the comparison is no order: what is shown of sorted rules is for up to 20.
--
-- Not modelled: owner references, and the helper functions that the templates of the Envoy
-- configuration call; the other node agents and the ad-hoc controller with their shell commands, and
-- the network interfaces of a node; the generated deep copies, and the command-line programs.
pub mod Admission
pub mod Agents
pub mod Allocator
pub mod Base
pub mod Envoys
pub mod Finalizers
pub mod Gateways
pub mod GoMap
pub mod Labels
pub mod Links
pub mod Namespaces
pub mod Nudges
pub mod Objects
pub mod PodLabels
pub mod Pods
pub mod Prefixes
pub mod Proxies
pub mod Remotes
pub mod Routing
pub mod Tests
pub mod Tunnels
