-- ===== src/Envoys.antt =====
-- controllers/loadbalancer_controller.go, and `deploymentForProxy` with the ports of
-- controllers/gwproxy_controller.go: the Envoys that serve a load balancer or a proxy. The owner
-- references that `SetControllerReference` writes are left out.
pub mod Controller
pub mod Launched
pub mod Labelled
pub mod Leaks
use mathlib.Core.Option.{get_or}
use resource_model.Base.{
  ℕ, ◌-◌, Bool, true, false, ◌&&◌, List, [], ◌∷◌, ◌++◌, map, Option, none, some, Text, text,
  text_dec, ite, if◌then◌else◌, Result, ok, err, ◌>>=◌, or_fail, contains, leb,
}
use resource_model.GoMap.{GoMap, lookup, insert}
use resource_model.Links.{NamespacedName}
use resource_model.Finalizers.{Library, remove_finalizer}
use resource_model.Allocator.Pool.{ServicePort}
use resource_model.Allocator.Allocations.{AddressPool, Allocator, unassign}
use resource_model.Prefixes.{namespaced}
use resource_model.PodLabels.{
  owning_lb_service_group, owning_service_prefix, owning_account, component, labels_for_envoy,
  labels_for_proxy,
}
use resource_model.Objects.{
  Meta, EnvVar, EnvSource, ContainerPort, Container, PodTemplate, DeploymentSpec, Object,
  deployment,
}
use resource_model.Namespaces.{eds_server_name, envoy_mounts, envoy_volumes}

abbrev cni_annotation : Text
cni_annotation = text "k8s.v1.cni.cncf.io/networks"

abbrev pub config_namespace : Text
config_namespace = text "epic"

-- A load balancer, with what its controller reads.
pub record LoadBalancer : Type 0 where
  pub namespace : Text
  pub name : Text
  pub deleting : Bool
  pub labels : GoMap Text Text
  pub public_address : Text
  pub public_ports : List ServicePort

pub record GwProxy : Type 0 where
  pub namespace : Text
  pub name : Text
  pub public_address : Text
  pub alt_address : Text
  pub public_ports : List ServicePort
  pub envoy_replica_count : Option ℕ

-- The objects above a load balancer: the service group, the service prefix and the EPIC singleton.
pub record ServiceGroup : Type 0 where
  pub labels : GoMap Text Text
  pub envoy_image : Option Text

pub record Prefix : Type 0 where
  pub namespace : Text
  pub name : Text
  pub public_pool : Option AddressPool
  pub alt_pool : Option AddressPool

pub record Epic : Type 0 where
  pub envoy_image : Text
  pub service_cidr : Text

-- `washProtocol`: `strings.ToUpper` of ASCII.
unfoldable pub wash_protocol : Text → Text
wash_protocol = map (λ c. if leb b'a' c && leb c b'z' then c - 32 else c)

-- `portsToV1Ports`
unfoldable pub ports_to_v1_ports : List ServicePort → List ContainerPort
ports_to_v1_ports = map (λ (p : ServicePort). record {
  name = p.name;
  container_port = p.port;
  protocol = wash_protocol p.protocol;
})

-- `portsToPorts`, for the ports of Marin3r.
unfoldable pub ports_to_ports : List ServicePort → List ContainerPort
ports_to_ports = map (λ (p : ServicePort). record {
  name = p.name;
  container_port = p.port;
  protocol = wash_protocol p.protocol;
})

-- `netlink.ParseAddr` and `netlink.ParseIPNet`, an address under another mask as a text, and the
-- JSON of the attachment to a network: the prefix's name and namespace, whether there is a default
-- route, and the addresses. They belong to other repositories.
pub record Network (A N : Type 0) : Type 0 where
  pub parse_addr : Text → Option A
  pub parse_ip_net : Text → Option N
  pub under_mask : A → N → Text
  pub marshal : Text → Text → Bool → List Text → Option Text

-- The functions return nil where something cannot be read, and panic where a pool is nil.
pub data Failure : Type 0 where
  nil_deployment panic : Failure

abbrev pub envoy_env : Text → List EnvVar
envoy_env service_cidr =
    record { name = text "SERVICE_CIDR"; source = EnvSource.value service_cidr }
    ∷ record { name = text "HOST_IP"; source = EnvSource.field_path (text "status.hostIP") }
    ∷ []

abbrev pub envoy_container : LoadBalancer → Text → Text → Container
envoy_container lb image service_cidr = record {
  name = eds_server_name;
  image = image;
  image_pull_policy = text "Always";
  env =
      record {
        name = text "WATCH_NAMESPACE";
        source = EnvSource.field_path (text "metadata.namespace");
      }
      ∷ envoy_env service_cidr;
  ports = ports_to_v1_ports lb.public_ports;
  capabilities = text "NET_ADMIN" ∷ [];
  allow_privilege_escalation = true;
  read_only_root_filesystem = false;
  volume_mounts = envoy_mounts;
}

abbrev pub lb_pod_labels : LoadBalancer → GoMap Text Text
lb_pod_labels lb = insert text_dec component (text "envoy-deployment") (labels_for_envoy lb.name)

-- A `Deployment`: its metadata and its spec.
abbrev pub Deployment : Type 0
Deployment = Meta × DeploymentSpec

-- The deployment, once the attachment is known.
abbrev pub lb_deployment : LoadBalancer → Text → Text → Text → Deployment
lb_deployment lb image service_cidr multus = (
  record { name = lb.name; namespace = lb.namespace; labels = lb_pod_labels lb },
  record {
    match_labels = lb_pod_labels lb;
    template = record {
      labels = lb_pod_labels lb;
      annotations = (cni_annotation, multus) ∷ [];
      hostname = eds_server_name;
      subdomain = text "epic";
      containers = envoy_container lb image service_cidr ∷ [];
      service_account_name = [];
      termination_grace_period = 3;
      volumes = envoy_volumes;
    };
  },
)

-- `EnvoyDeployment` of Marin3r.
pub record EnvoyDeployment : Type 0 where
  pub name : Text
  pub namespace : Text
  pub discovery_service_ref : Text
  pub envoy_config_ref : Text
  pub image : Text
  pub extra_labels : GoMap Text Text
  pub static_replicas : Option ℕ
  pub ports : List ContainerPort
  pub annotations : GoMap Text Text
  pub env_vars : List EnvVar

module _ {A N : Type 0} (net : Network A N) where
  -- An address of the object with the mask of its pool's subnet.
  unfoldable pub masked : Text → Option AddressPool → Result Failure Text
  masked address pool = do
    addr ← or_fail (net.parse_addr (address ++ text "/32")) nil_deployment
    ap ← or_fail pool panic
    subnet ← or_fail (net.parse_ip_net ap.subnet) nil_deployment
    ok (net.under_mask addr subnet)

  -- `deploymentForLB`
  unfoldable pub deployment_for_lb : LoadBalancer → Prefix → Text → Text → Result Failure Deployment
  deployment_for_lb lb sp image service_cidr = do
    address ← masked lb.public_address sp.public_pool
    multus ← or_fail (net.marshal sp.name sp.namespace false (address ∷ [])) nil_deployment
    ok (lb_deployment lb image service_cidr multus)

  -- The alternative address: a subnet that cannot be read is passed over.
  unfoldable pub alt_addresses : GwProxy → Prefix → Result Failure (List Text)
  alt_addresses proxy sp = ite (text_dec proxy.alt_address []) (ok []) (do
    addr ← or_fail (net.parse_addr (proxy.alt_address ++ text "/32")) nil_deployment
    ap ← or_fail sp.alt_pool panic
    ok (elim (net.parse_ip_net ap.subnet) [
      | none ↦ []
      | some subnet ↦ net.under_mask addr subnet ∷ []
    ]))

  -- `deploymentForProxy`
  unfoldable pub deployment_for_proxy :
      GwProxy → Prefix → Text → Text → Result Failure EnvoyDeployment
  deployment_for_proxy proxy sp image service_cidr = do
    address ← masked proxy.public_address sp.public_pool
    more ← alt_addresses proxy sp
    multus ← or_fail (net.marshal sp.name sp.namespace true (address ∷ more)) nil_deployment
    ok (record {
      name = proxy.name;
      namespace = proxy.namespace;
      discovery_service_ref = text "discoveryservice";
      envoy_config_ref = proxy.name;
      image = image;
      extra_labels = labels_for_proxy proxy.name;
      static_replicas = proxy.envoy_replica_count;
      ports = ports_to_ports proxy.public_ports;
      annotations = (cni_annotation, multus) ∷ [];
      env_vars = envoy_env service_cidr;
    })
