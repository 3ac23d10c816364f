-- ===== src/Kube.antt =====
-- What the program reads of the Kubernetes objects (networking/v1 and core/v1), and the reads that it
-- makes from the API server. Kubernetes is not part of the repository: the objects are data, and the
-- server's answers are a parameter of the model.
pub mod Connect
use caddy_k8s.Base.{ℤ, String, Bool, Option, none, some, List}
use caddy_k8s.Dict.{Dict}

pub data PathType : Type 0 where
  exact prefix implementation_specific : PathType

-- A service backend: its name and port number.
pub record ServiceBackend : Type 0 where
  pub name : String
  pub port : ℤ

-- A path of a rule; `service` is nil for a resource backend.
pub record HttpPath : Type 0 where
  pub path : String
  pub path_type : Option PathType
  pub service : Option ServiceBackend

-- A rule; `http` is nil for a rule without paths.
pub record Rule : Type 0 where
  pub host : String
  pub http : Option (List HttpPath)

pub record IngressTls : Type 0 where
  pub hosts : List String
  pub secret_name : String

pub record Ingress : Type 0 where
  pub namespace : String
  pub name : String
  pub uid : String
  pub annotations : Dict String
  pub ingress_class_name : Option String
  pub rules : List Rule
  pub tls : List IngressTls

pub record Secret : Type 0 where
  pub namespace : String
  pub name : String
  pub secret_type : String
  pub contents : Dict String

-- The answers of the API server to a read by namespace and name; `none` stands for an error.
pub record Cluster : Type 0 where
  pub config_map : String → String → Option (Dict String)
  pub secret : String → String → Option Secret

pub record OwnerReference : Type 0 where
  pub api_version : String
  pub kind : String
  pub name : String
  pub uid : String
  pub controller : Bool
  pub block_owner_deletion : Bool

pub record ConfigMap : Type 0 where
  pub name : String
  pub namespace : String
  pub labels : Dict String
  pub owner_references : List OwnerReference
  pub contents : Dict String

-- The answer to a read: the object, the error that `IsNotFound` tells, or another error's text.
pub data Read (A : Type 0) : Type 0 where
  there : A → Read A
  not_found : Read A
  unread : String → Read A

-- The answer to a creation: success, the error that `IsAlreadyExists` tells, or another error's text.
pub data Creation : Type 0 where
  created : Creation
  already_exists : Creation
  uncreated : String → Creation

-- The API server with the state of its objects: reads by namespace and name, the creation of a
-- ConfigMap, and a merge patch of an Ingress.
pub record Kube : Type 1 where
  pub Objects : Type 0
  pub get_config_map : String → String → Objects → Read (Dict String)
  pub get_secret : String → String → Objects → Option Secret
  pub create_config_map : ConfigMap → Objects → Creation × Objects
  pub patch_ingress : String → String → String → Objects → Option String × Objects

abbrev read_option : {A : Type 0} → Read A → Option A
read_option (there a) = some a
read_option not_found = none
read_option (unread e) = none

-- The reads at a state of the objects.
abbrev pub cluster_at : (kube : Kube) → kube.Objects → Cluster
cluster_at kube objects = record {
  config_map = λ namespace name. read_option (kube.get_config_map namespace name objects);
  secret = λ namespace name. kube.get_secret namespace name objects;
}
