-- ===== src/Api.antt =====
-- The custom resources (api/v1): what every resource has, and the `Gerrit` resource.
pub mod Specs
use edp_gerrit_operator.Base.{ℕ, String, Bool, List, Dict}

-- `metav1.OwnerReference`. The controller and blocking flags point to Booleans.
pub record OwnerReference : Type 0 where
  pub api_version : String
  pub kind : String
  pub name : String
  pub uid : String
  pub block_owner_deletion : Bool
  pub controller : Bool

-- The fields of `metav1.ObjectMeta` and `metav1.TypeMeta` that the code reads or writes.
pub record ObjectMeta : Type 0 where
  pub name : String
  pub namespace : String
  pub uid : String
  pub kind : String
  -- the deletion timestamp is set
  pub deleted : Bool
  pub finalizers : List String
  pub owner_references : List OwnerReference
  pub annotations : Dict String

-- A custom resource: its spec is the user's, its status is the operator's.
pub record Object (Spec Status : Type 0) : Type 0 where
  pub meta : ObjectMeta
  pub spec : Spec
  pub status : Status

pub record KeycloakSpec : Type 0 where
  pub enabled : Bool
  pub url : String
  pub realm : String

pub record GerritSpec : Type 0 where
  pub keycloak_spec : KeycloakSpec
  pub rest_api_url : String
  pub ssh_url : String
  pub ssh_port : ℕ
  pub base_path : String
  pub external_url : String

pub record GerritStatus : Type 0 where
  pub external_url : String
  pub available : Bool
  pub last_time_updated : ℕ
  pub status : String

abbrev pub Gerrit : Type 0
Gerrit = Object GerritSpec GerritStatus
