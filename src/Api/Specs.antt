-- ===== src/Api/Specs.antt =====
-- The specs and statuses of the resources that depend on a Gerrit (api/v1).
use edp_gerrit_operator.Base.{ℕ, ℤ, String, Bool, List, ◌<>◌, ◌==◌, ◌&&◌, not}
use edp_gerrit_operator.Base.{string_eq, if◌then◌else◌}

pub record GerritProjectSpec : Type 0 where
  pub name : String
  pub owner_name : String
  pub parent : String
  pub description : String
  pub permissions_only : Bool
  pub create_empty_commit : Bool
  pub submit_type : String
  pub branches : String
  pub owners : String
  pub reject_empty_commit : String

pub record GerritProjectStatus : Type 0 where
  pub value : String
  pub branches : List String

pub record GerritGroupSpec : Type 0 where
  pub name : String
  pub owner_name : String
  pub description : String
  pub visible_to_all : Bool

pub record GerritGroupStatus : Type 0 where
  pub id : String
  pub group_id : String
  pub value : String

pub record GerritGroupMemberSpec : Type 0 where
  pub group_id : String
  pub account_id : String
  pub owner_name : String

pub record GerritGroupMemberStatus : Type 0 where
  pub value : String
  pub failure_count : ℤ

pub record Reference : Type 0 where
  pub pattern_text : String
  pub permission_name : String
  pub permission_label : String
  pub group_name : String
  pub action : String
  pub force : Bool
  pub min : ℤ
  pub max : ℤ

pub record GerritProjectAccessSpec : Type 0 where
  pub project_name : String
  pub owner_name : String
  pub parent : String
  pub references : List Reference

pub record GerritProjectAccessStatus : Type 0 where
  pub created : Bool
  pub value : String

pub record GerritReplicationConfigSpec : Type 0 where
  pub ssh_url : String
  pub owner_name : String

pub record GerritReplicationConfigStatus : Type 0 where
  pub available : Bool
  pub last_time_updated : ℕ
  pub status : String

pub record GerritMergeRequestSpec : Type 0 where
  pub owner_name : String
  pub project_name : String
  pub author_name : String
  pub author_email : String
  pub target_branch : String
  pub source_branch : String
  pub commit_message : String
  pub changes_config_map : String
  pub additional_arguments : List String

pub record GerritMergeRequestStatus : Type 0 where
  pub value : String
  pub change_url : String
  pub change_id : String

-- `GerritMergeRequest.TargetBranch`
unfoldable pub target_branch : GerritMergeRequestSpec → String
target_branch s = if s.target_branch == "" then "master" else s.target_branch

-- `GerritMergeRequest.CommitMessage`
unfoldable pub commit_message : GerritMergeRequestSpec → String
commit_message s =
    if s.commit_message == "" && not (s.source_branch == "")
    then "merge " <> s.source_branch <> " to " <> target_branch s
    else if s.commit_message == "" && not (s.changes_config_map == "")
    then "merge files contents from config map: " <> s.changes_config_map
    else s.commit_message
