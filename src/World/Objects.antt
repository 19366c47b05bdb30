-- ===== src/World/Objects.antt =====
-- The Kubernetes objects that the platform service reads and writes, with the fields that it uses.
use edp_gerrit_operator.Base.{ℕ, String, Option, List, Dict}

-- `coreV1.EnvVar`
pub record EnvVar : Type 0 where
  pub name : String
  pub value : String

-- `coreV1.Container`
pub record Container : Type 0 where
  pub name : String
  pub env : List EnvVar

-- `appsV1.Deployment`
pub record Deployment : Type 0 where
  pub namespace : String
  pub name : String
  pub containers : List Container
  pub updated_replicas : ℕ
  pub available_replicas : ℕ

-- `coreV1.Pod`, with the names of its containers
pub record Pod : Type 0 where
  pub namespace : String
  pub name : String
  pub containers : List String

-- `coreV1.ConfigMap`
pub record ConfigMap : Type 0 where
  pub namespace : String
  pub name : String
  pub labels : Dict String
  pub values : Dict String

-- `routeV1.Route`: the host, and the termination of its TLS part, `none` where there is no such part.
pub record Route : Type 0 where
  pub host : String
  pub termination : Option String

-- `coreV1.ServicePort`
pub record ServicePort : Type 0 where
  pub name : String
  pub port : ℕ
  pub target_port : ℕ
  pub node_port : ℕ

-- `coreV1.Service`
pub record Service : Type 0 where
  pub namespace : String
  pub name : String
  pub ports : List ServicePort

-- `coreV1.Secret`
pub record Secret : Type 0 where
  pub namespace : String
  pub name : String
  pub labels : Dict String
  pub values : Dict String

-- `MRConfigMapFile` of controllers/merge_request/controller.go; `none` is a nil pointer.
pub record MrConfigMapFile : Type 0 where
  pub path : String
  pub contents : Option String
