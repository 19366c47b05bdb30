-- ===== src/World/Requests.antt =====
-- What is sent to Gerrit (pkg/client/gerrit) and what its answers are decoded to.
use edp_gerrit_operator.Base.{ℕ, ℤ, String, Bool, List, Dict}

-- `*resty.Client`: the package's `DefaultClient`, one for the whole process. Its host and its credentials are not a
-- part of it here: they are set by calls, of other controllers too, and the answers depend on the calls.
pub data RestyClient : Type 0 where
  default_client : RestyClient

pub record Project : Type 0 where
  pub name : String
  pub parent : String
  pub description : String
  pub permissions_only : Bool
  pub create_empty_commit : Bool
  pub submit_type : String
  pub branches : String
  pub owners : String
  pub reject_empty_commit : String

pub record WebLink : Type 0 where
  pub name : String
  pub url : String
  pub image_url : String
  pub target : String

pub record Branch : Type 0 where
  pub ref : String
  pub revision : String
  pub can_delete : Bool
  pub web_links : List WebLink

pub record GroupMember : Type 0 where
  pub email : String
  pub username : String

pub record Group : Type 0 where
  pub id : String
  pub group_id : ℕ
  pub members : List GroupMember

pub record Change : Type 0 where
  pub id : String
  pub status : String

pub record AccessInfo : Type 0 where
  pub ref_pattern : String
  pub permission_name : String
  pub permission_label : String
  pub group_name : String
  pub action : String
  pub force : Bool
  pub min : ℤ
  pub max : ℤ

pub record GroupPermissions : Type 0 where
  pub min : ℤ
  pub max : ℤ
  pub force : Bool
  pub action : String
  pub modified : Bool
  pub added : Bool

pub record Permission : Type 0 where
  pub label : String
  pub rules : Dict GroupPermissions

pub record RefPermissions : Type 0 where
  pub permissions : Dict Permission

pub data Field : Type 0 where
  text : String → Field
  flag : Bool → Field

-- The value given to `SetBody`, before it is encoded as JSON.
pub data Body : Type 0 where
  no_body : Body
  fields : Dict Field → Body
  project_body : Project → Body
  access_body : Dict (Dict RefPermissions) → Body

pub data Method : Type 0 where
  get put post delete : Method

pub record Request : Type 0 where
  pub method : Method
  pub path : String
  pub body : Body
