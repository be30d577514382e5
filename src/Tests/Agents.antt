-- ===== src/Tests/Agents.antt =====
-- An agent on a node with an Envoy of a proxy, which has one endpoint.
use resource_model.Base.{
  ◌≡◌, ◌↔◌, refl, In, List, [], ◌∷◌, none, some, Text, text, text_dec, true, false, ok,
}
use resource_model.GoMap.{GoMap, lookup}
use resource_model.Finalizers.{add_finalizer}
use resource_model.Links.{
  NamespacedName, GwRoute, GwEndpointSlice, RemoteEndpoint, parents, backends, refers_to,
  is_child_of, append_each, first_port, remote_endpoint, slice_endpoints, cluster_endpoints,
  route_endpoints, active_proxy_endpoints,
}
use resource_model.Proxies.{Tunnel, TunnelMaps}
use resource_model.Agents.{
  Interface, GwProxy, Command, Client, endpoint_commands, each_endpoint, is_mine, commands_for,
  has_proxy, run_all, finish, set_up, serve_proxy, read_stack, reconcile_agent,
}
use resource_model.Agents.Commands.{IsMine, IsFor, commands_for-In}
use resource_model.Agents.Reconciled.{IsReconciled, reconcile_agent_lem}
use resource_model.Tests.Envoys.{service_prefix}
use resource_model.Tests.Data.{parse_ip, web, http}

abbrev me : Text
me = text "192.168.0.1"

abbrev tunnel : Tunnel
tunnel = record { address = me; port = 6080; tunnel_id = 7 }

abbrev maps : TunnelMaps
maps = (text "10.1.0.1", (me, tunnel) ∷ []) ∷ []

abbrev interfaces : GoMap Text Interface
interfaces = (text "pod", record { epic_node_address = me; name = text "veth0"; index = 3 }) ∷ []

abbrev proxy : GwProxy
proxy = record {
  namespace = text "epic-a";
  name = web;
  deleting = false;
  labels = [];
  public_address = text "10.0.0.1";
  alt_address = [];
  public_ports = http ∷ [];
  proxy_interfaces = interfaces;
  gue_tunnel_maps = maps;
}

abbrev link : GwRoute
link = record {
  namespace = text "epic-a";
  name = web;
  deleting = false;
  http = none;
  tcp = some (record { parent_refs = web ∷ []; rules = (text "east" ∷ []) ∷ [] });
}

abbrev slice : GwEndpointSlice
slice = record {
  namespace = text "epic-a";
  name = text "slice";
  deleting = false;
  annotations = none;
  parent_uid = text "east";
  endpoints = record { addresses = text "10.2.0.1" ∷ []; node_name = some (text "node") } ∷ [];
  ports = record { port = some 80; protocol = some (text "TCP") } ∷ [];
  node_addresses = (text "node", text "10.1.0.1") ∷ [];
}

abbrev rep : RemoteEndpoint
rep = record {
  cluster = text "east";
  address = text "10.2.0.1";
  node_address = text "10.1.0.1";
  port = 80;
  protocol = text "TCP";
}

-- The state is the commands that were run, the last one first.
abbrev node : Client (List Command) Text
node = record {
  get_proxy = λ s n. (s, ok proxy);
  get_service_group = λ s n. (s, ok (record { labels = []; envoy_image = none }));
  get_prefix = λ s n. (s, ok service_prefix);
  get_account = λ s n. (s, none);
  get_epic = λ s. (s, ok (record { envoy_image = []; service_cidr = [] }));
  list_routes = λ s n. (s, ok (link ∷ []));
  list_slices = λ s n. (s, ok (slice ∷ []));
  my_address = λ s epic. (s, ok me);
  run = λ s c. c ∷ s;
  cleanup = λ s name pool p ip. s;
  add_ipset_entry = λ s p. (s, none);
  parse_ip = parse_ip;
  is_not_found = λ e. false;
  finalizers = record {
    get = λ s. (s, ok proxy);
    update = λ s o. (s, o, none);
    contains_finalizer = λ o n. true;
    add_finalizer = λ o n. o;
    remove_finalizer = λ o n. o;
    retry_on_conflict = λ f x. f x;
  };
}

abbrev request : NamespacedName
request = record { namespace = text "epic-a"; name = web }

abbrev commands : List Command
commands = Command.configure_tunnel tunnel ∷ Command.configure_service rep 3 7 ∷ []

commanded : commands_for me maps (rep ∷ []) interfaces ≡ commands
unfolding commands_for is_mine each_endpoint endpoint_commands lookup text_dec
commanded = refl

commands_for-In_example :
    In (Command.configure_tunnel tunnel) (commands_for me maps (rep ∷ []) interfaces) ↔ (
      (name : Text) × (info : Interface) × (ep : RemoteEndpoint) × In (name, info) interfaces
      × IsMine me info
      × In ep (rep ∷ [])
      × IsFor maps info ep (Command.configure_tunnel tunnel))
commands_for-In_example =
    commands_for-In me maps (rep ∷ []) interfaces (Command.configure_tunnel tunnel)

set :
    reconcile_agent node (text "agent") request []
    ≡ (Command.configure_service rep 3 7 ∷ Command.configure_tunnel tunnel ∷ [], none)
unfolding reconcile_agent read_stack serve_proxy add_finalizer set_up active_proxy_endpoints
    append_each route_endpoints is_child_of refers_to parents backends cluster_endpoints
    slice_endpoints remote_endpoint first_port lookup text_dec finish has_proxy is_mine commands_for
    each_endpoint endpoint_commands run_all
set = refl

reconcile_agent_lem_example :
    IsReconciled node
      (text "agent")
      request
      []
      (Command.configure_service rep 3 7 ∷ Command.configure_tunnel tunnel ∷ [])
reconcile_agent_lem_example =
    reconcile_agent_lem node (text "agent") request []
      (Command.configure_service rep 3 7 ∷ Command.configure_tunnel tunnel ∷ []) set
