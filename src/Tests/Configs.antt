-- ===== src/Tests/Configs.antt =====
-- The Envoy configuration of a proxy with one route, and of a load balancer with three clusters.
use native.Mathlib.Decide.{ℕ_discrete}
use resource_model.Base.{
  ℕ, ◌≡◌, ◌≢◌, refl, ◌↔◌, ◌⊎◌, In, [], ◌∷◌, List, none, some, Text, text, text_dec, Bool, false, ok,
}
use resource_model.GoMap.{insert}
use resource_model.Allocator.Pool.{ServicePort}
use resource_model.Routing.Http.{explicit_all, seed, gather, flatten, preprocess_http_routes}
use resource_model.Routing.Listeners.{Listener, collapse, refers_to_section, filter_referent_routes}
use resource_model.Routing.Configs.{
  GwProxy, LoadBalancer, Route, Templates, Resource, EnvoyTemplate, EnvoyConfig, wash_protocol,
  http_routes, other_routes, http_listener_params,
}
use resource_model.Routing.Configs.Printing.{
  run_cluster_template, run_cluster_templates, each_resource, each_pair, make_http_listener,
  make_http_listeners, run_listener,
}
use resource_model.Routing.Configs.Translation.{
  Ranges, cluster_names, routes_to_clusters, preprocess_routes, listener_routes,
  execute_listener_template, make_gw_listeners, gw_proxy_to_envoy_config,
}
use resource_model.Routing.Configs.Gateways.{IsConfigured, IsRange, gw_proxy_to_envoy_config_lem}
use resource_model.Routing.Configs.Balancers.{IsWeighted, make_http_listeners_lem}
use resource_model.Tests.Data.{web, http}

-- A template prints the name that it is for.
abbrev pub templates : Templates Text (Route ℕ Text) Text
templates = record {
  parse = λ v. ok v;
  execute_cluster = λ t params. (params.cluster_name, none);
  execute_listener = λ t params. (params.port_name, none);
}

abbrev pub in_order : Ranges (Route ℕ Text)
in_order = record { names = λ xs. xs; listeners = λ m. m }

in_order-IsRange : IsRange in_order
in_order-IsRange = record {
  names = λ xs x. (λ i. i, λ i. i);
  entries = λ m e. (λ i. i, λ i. i);
  map = λ m h. h;
}

abbrev pub shape : EnvoyTemplate
shape = record {
  envoy_api = text "v3";
  serialization = text "yaml";
  resources = record {
    clusters = record { name = []; value = text "cluster" } ∷ [];
    routes = [];
    listeners = record { name = []; value = text "listener" } ∷ [];
    runtimes = [];
    secrets = [];
  };
}

abbrev listener : Listener
listener = record {
  name = web;
  hostname = none;
  port = 80;
  protocol = text "HTTP";
  tls = none;
  allowed_routes = none;
}

abbrev pub proxy : GwProxy
proxy = record {
  namespace = text "epic-a";
  name = web;
  display_name = web;
  listeners = listener ∷ [];
  template = shape;
}

abbrev pub route : Route ℕ Text
route = record {
  http = none;
  tcp = some (record {
    parent_refs = record { name = web; section_name = none } ∷ [];
    rules = (text "east" ∷ text "west" ∷ []) ∷ [];
  });
}

abbrev pub config : EnvoyConfig
config = record {
  name = web;
  namespace = text "epic-a";
  node_id = text "epic-a.web";
  envoy_api = text "v3";
  serialization = text "yaml";
  resources = record {
    clusters =
        record { name = text "east"; value = text "east" }
        ∷ record { name = text "west"; value = text "west" }
        ∷ [];
    routes = [];
    listeners = record { name = text "HTTP-80"; value = text "HTTP-80" } ∷ [];
    runtimes = [];
    secrets = [];
  };
}

abbrev pub never : Text → Bool
never t = false

pub configured :
    gw_proxy_to_envoy_config templates in_order
      (λ b. b)
      ℕ_discrete
      some
      never
      never
      never
      proxy
      (route ∷ [])
    ≡ ok config
unfolding gw_proxy_to_envoy_config routes_to_clusters run_cluster_templates run_cluster_template
    cluster_names text_dec make_gw_listeners listener_routes preprocess_routes http_routes
    other_routes filter_referent_routes refers_to_section preprocess_http_routes explicit_all gather
    seed flatten insert collapse each_pair each_resource execute_listener_template wash_protocol
configured = refl

gw_proxy_to_envoy_config_lem_example :
    IsConfigured templates in_order
      (λ b. b)
      ℕ_discrete
      some
      never
      never
      never
      proxy
      (route ∷ [])
      config
gw_proxy_to_envoy_config_lem_example =
    gw_proxy_to_envoy_config_lem templates in_order (λ b. b) ℕ_discrete some never never never proxy
      (route ∷ []) config in_order-IsRange configured

-- The weights of three clusters are 33 each.
abbrev balancer : LoadBalancer
balancer = record {
  namespace = text "epic-a";
  name = web;
  display_name = web;
  public_ports = http ∷ [];
  upstream_clusters = text "east" ∷ text "west" ∷ text "south" ∷ [];
  template = shape;
}

abbrev printed : List Resource
printed = record { name = text "TCP-80"; value = text "TCP-80" } ∷ []

listened : make_http_listeners templates balancer ≡ ok printed
unfolding make_http_listeners each_pair each_resource make_http_listener
listened = refl

make_http_listeners_lem_example :
    ((balancer.upstream_clusters ≡ []) × (printed ≡ []))
    ⊎ ((balancer.upstream_clusters ≢ [])
        × ((r : Resource)
            → In r printed ↔ (
                (t : Resource) × (port : ServicePort) × In t shape.resources.listeners
                × In port (http ∷ [])
                × (run_listener templates t.value (http_listener_params balancer port) ≡ ok r)))
        × ((port : ServicePort) → IsWeighted templates (http_listener_params balancer port)))
make_http_listeners_lem_example = make_http_listeners_lem templates balancer printed listened
