-- ===== src/Namespaces.antt =====
-- controllers/namespace_controller.go: what is set up in the namespace of a user.
pub mod Created
pub mod Settled
use resource_model.Base.{
  ℕ, Bool, true, false, List, [], ◌∷◌, ◌++◌, Option, none, some, Text, text, text_dec, ite,
  if◌then◌else◌, Result, ok, err, contains, ◌andthen◌,
}
use resource_model.GoMap.{GoMap}
use resource_model.Objects.{
  Meta, PolicyRule, RoleRef, Subject, EnvVar, EnvSource, ContainerPort, VolumeMount, Container,
  Volume, PodTemplate, DeploymentSpec, Object, discovery_service, service_account, role,
  role_binding, cluster_role_binding, service, deployment,
}

abbrev pub product_name : Text
product_name = text "epic"

abbrev pub eds_server_name : Text
eds_server_name = text "eds-server"

abbrev group_name : Text
group_name = text "epic.acnodal.io"

-- `UserNSLabels`
abbrev pub user_ns_labels : GoMap Text Text
user_ns_labels =
    (text "app.kubernetes.io/component", text "user-namespace")
    ∷ (text "app.kubernetes.io/part-of", product_name)
    ∷ []

pub record Namespace : Type 0 where
  pub name : Text
  pub phase : Text
  pub labels : GoMap Text Text

-- The fields of the EPIC singleton that are read.
pub record Config : Type 0 where
  pub xds_image : Option Text
  pub eds_image : Text

unfoldable pub ns_has_label : GoMap Text Text → Text → Text → Bool
ns_has_label [] label value = false
ns_has_label ((k, v) ∷ labels) label value =
    let rest = ns_has_label labels label value in
    ite (text_dec k label) (ite (text_dec v value) true rest) rest

unfoldable pub ns_has_labels : Namespace → GoMap Text Text → Bool
ns_has_labels ns [] = true
ns_has_labels ns ((k, v) ∷ labels) =
    let rest = ns_has_labels ns labels in if ns_has_label ns.labels k v then rest else false

abbrev app_labels : GoMap Text Text
app_labels = (text "app", text "epic") ∷ []

abbrev component_labels : GoMap Text Text
component_labels = (text "app", text "epic") ∷ (text "component", eds_server_name) ∷ []

abbrev eds_meta : Text → GoMap Text Text → Meta
eds_meta namespace labels = record {
  name = eds_server_name;
  namespace = namespace;
  labels = labels;
}

-- The object of `maybeCreateMarin3r`, which sets the debug flag whatever its argument.
abbrev pub marin3r_for : Text → Option Text → Object
marin3r_for namespace image =
    discovery_service
      (record { name = text "discoveryservice"; namespace = namespace; labels = [] }) image true

abbrev pub service_account_for : Text → Object
service_account_for namespace = service_account (eds_meta namespace app_labels)

abbrev pub role_for : Text → Object
role_for namespace = role (eds_meta namespace app_labels) (
    record {
      api_groups = group_name ∷ [];
      resources =
          text "loadbalancers"
          ∷ text "remoteendpoints"
          ∷ text "lbservicegroups"
          ∷ text "gwproxies"
          ∷ text "gwroutes"
          ∷ text "gwendpointslices"
          ∷ text "loadbalancers"
          ∷ text "remoteendpoints"
          ∷ [];
      verbs = text "get" ∷ text "list" ∷ text "watch" ∷ text "update" ∷ text "patch" ∷ [];
    }
    ∷ record {
      api_groups = group_name ∷ [];
      resources = text "lbservicegroups/status" ∷ [];
      verbs = text "get" ∷ text "update" ∷ text "patch" ∷ [];
    }
    ∷ [])

abbrev pub eds_role_binding_for : Text → Object
eds_role_binding_for namespace =
    role_binding (eds_meta namespace app_labels)
      (record {
        api_group = text "rbac.authorization.k8s.io";
        kind = text "Role";
        name = eds_server_name;
      })
      (record { kind = text "ServiceAccount"; name = eds_server_name; namespace = namespace } ∷ [])

-- The binding of the whole cluster has the same name for every namespace.
abbrev pub default_cluster_role_binding_for : Text → Object
default_cluster_role_binding_for namespace =
    cluster_role_binding
      (record {
        name = text "default-epic";
        namespace = [];
        labels = (text "app.kubernetes.io/name", text "epic") ∷ [];
      })
      (record {
        api_group = text "rbac.authorization.k8s.io";
        kind = text "ClusterRole";
        name = text "manager-role";
      })
      (record { kind = text "ServiceAccount"; name = text "default"; namespace = namespace } ∷ [])

abbrev pub service_for : Text → Object
service_for namespace =
    service (record { name = text "epic"; namespace = namespace; labels = component_labels })
      component_labels (text "None")

abbrev pub envoy_mounts : List VolumeMount
envoy_mounts =
    record {
      name = text "server-cert";
      mount_path = text "/etc/envoy/tls/server/";
      read_only = true;
    }
    ∷ record { name = text "ca-cert"; mount_path = text "/etc/envoy/tls/ca/"; read_only = true }
    ∷ []

abbrev pub envoy_volumes : List Volume
envoy_volumes =
    record {
      name = text "server-cert";
      default_mode = 420;
      secret_name = text "marin3r-server-cert-discoveryservice";
    }
    ∷ record {
      name = text "ca-cert";
      default_mode = 420;
      secret_name = text "marin3r-ca-cert-discoveryservice";
    }
    ∷ []

abbrev pub eds_container : Text → Container
eds_container image = record {
  name = eds_server_name;
  image = image;
  image_pull_policy = text "Always";
  env =
      record {
        name = text "WATCH_NAMESPACE";
        source = EnvSource.field_path (text "metadata.namespace");
      }
      ∷ [];
  ports =
      record { name = []; container_port = 8080; protocol = [] }
      ∷ record { name = []; container_port = 18000; protocol = [] }
      ∷ [];
  capabilities = [];
  allow_privilege_escalation = true;
  read_only_root_filesystem = true;
  volume_mounts = envoy_mounts;
}

abbrev pub eds_deployment_for : Text → Text → Object
eds_deployment_for namespace image = deployment (eds_meta namespace component_labels) (record {
  match_labels = component_labels;
  template = record {
    labels = component_labels;
    annotations = [];
    hostname = eds_server_name;
    subdomain = text "epic";
    containers = eds_container image ∷ [];
    service_account_name = eds_server_name;
    termination_grace_period = 0;
    volumes = envoy_volumes;
  };
})

-- The Kubernetes client, which belongs to another repository: `S` is the state of the world, and `E`
-- the errors with their messages.
pub record Client (S E : Type 0) : Type 1 where
  pub get_namespace : S → Text → S × Result E Namespace
  pub get_config : S → S × Result E Config
  pub create : S → Object → S × Option E
  pub is_not_found : E → Bool
  pub message : E → Text

module _ {S E : Type 0} (cl : Client S E) where
  unfoldable pub maybe_create : S → Object → S × Option E
  maybe_create s obj =
      let (s1, e) = cl.create s obj in
      elim e [
        | none ↦ (s1, none)
        | some e ↦
            if contains (text "already exists") (cl.message e) then (s1, none) else (s1, some e)
      ]

  -- The seven calls of `Reconcile`, each with its return on an error.
  unfoldable pub create_objects : Text → Config → S → S × Option E
  create_objects namespace config s =
      maybe_create s (marin3r_for namespace config.xds_image) andthen (λ s1.
        maybe_create s1 (service_account_for namespace) andthen (λ s2.
          maybe_create s2 (role_for namespace) andthen (λ s3.
            maybe_create s3 (eds_role_binding_for namespace) andthen (λ s4.
              maybe_create s4 (default_cluster_role_binding_for namespace) andthen (λ s5.
                maybe_create s5 (service_for namespace)
                andthen (λ s6. maybe_create s6 (eds_deployment_for namespace config.eds_image)))))))

  -- `Reconcile`
  unfoldable pub reconcile_namespace : Text → S → S × Option E
  reconcile_namespace request s =
      let (s1, got) = cl.get_namespace s request in
      elim got [
        | err e ↦ (s1, if cl.is_not_found e then none else some e)
        | ok ns ↦
            ite (text_dec ns.phase (text "Terminating")) (s1, none)
              (if ns_has_labels ns user_ns_labels
                then (let (s2, read) = cl.get_config s1 in
                    elim read [
                      | err e ↦ (s2, some e)
                      | ok config ↦ create_objects ns.name config s2
                    ])
                else (s1, none))
      ]
