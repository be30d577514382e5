-- ===== src/Objects.antt =====
-- The Kubernetes objects that the controllers create, with the fields that they set. Their types
-- belong to other repositories; a field that stays empty in every object is left out.
use resource_model.Base.{ℕ, Bool, List, Option, Text, text}
use resource_model.GoMap.{GoMap}

-- `ObjectMeta`. The namespace of an object of the whole cluster is empty.
pub record Meta : Type 0 where
  pub name : Text
  pub namespace : Text
  pub labels : GoMap Text Text

pub record PolicyRule : Type 0 where
  pub api_groups : List Text
  pub resources : List Text
  pub verbs : List Text

pub record RoleRef : Type 0 where
  pub api_group : Text
  pub kind : Text
  pub name : Text

pub record Subject : Type 0 where
  pub kind : Text
  pub name : Text
  pub namespace : Text

-- `EnvVar`: a value, or the path of a field of the pod.
pub data EnvSource : Type 0 where
  value field_path : Text → EnvSource

pub record EnvVar : Type 0 where
  pub name : Text
  pub source : EnvSource

pub record ContainerPort : Type 0 where
  pub name : Text
  pub container_port : ℕ
  pub protocol : Text

pub record VolumeMount : Type 0 where
  pub name : Text
  pub mount_path : Text
  pub read_only : Bool

pub record Container : Type 0 where
  pub name : Text
  pub image : Text
  pub image_pull_policy : Text
  pub env : List EnvVar
  pub ports : List ContainerPort
  pub capabilities : List Text
  pub allow_privilege_escalation : Bool
  pub read_only_root_filesystem : Bool
  pub volume_mounts : List VolumeMount

-- `Volume` from a secret.
pub record Volume : Type 0 where
  pub name : Text
  pub default_mode : ℕ
  pub secret_name : Text

-- `PodTemplateSpec` with its `PodSpec`.
pub record PodTemplate : Type 0 where
  pub labels : GoMap Text Text
  pub annotations : GoMap Text Text
  pub hostname : Text
  pub subdomain : Text
  pub containers : List Container
  pub service_account_name : Text
  pub termination_grace_period : ℕ
  pub volumes : List Volume

pub record DeploymentSpec : Type 0 where
  pub match_labels : GoMap Text Text
  pub template : PodTemplate

pub data Object : Type 0 where
  discovery_service : Meta → Option Text → Bool → Object
  service_account : Meta → Object
  role : Meta → List PolicyRule → Object
  role_binding cluster_role_binding : Meta → RoleRef → List Subject → Object
  service : Meta → GoMap Text Text → Text → Object
  deployment : Meta → DeploymentSpec → Object

-- What the API server tells objects apart by.
pub record ObjectKey : Type 0 where
  pub kind : Text
  pub namespace : Text
  pub name : Text

abbrev meta_key : Text → Meta → ObjectKey
meta_key kind m = record { kind = kind; namespace = m.namespace; name = m.name }

abbrev pub object_key : Object → ObjectKey
object_key (discovery_service m image debug) = meta_key (text "DiscoveryService") m
object_key (service_account m) = meta_key (text "ServiceAccount") m
object_key (role m rules) = meta_key (text "Role") m
object_key (role_binding m ref subjects) = meta_key (text "RoleBinding") m
object_key (cluster_role_binding m ref subjects) = meta_key (text "ClusterRoleBinding") m
object_key (service m selector ip) = meta_key (text "Service") m
object_key (deployment m spec) = meta_key (text "Deployment") m
