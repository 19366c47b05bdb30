-- ===== src/Client/Access.antt =====
-- Access rights over REST (pkg/client/gerrit/project_access.go).
pub mod Request
pub mod Rules
use edp_gerrit_operator.Base.{String, ◌<>◌, Bool, true, false, List, [], ◌∷◌, Dict}
use edp_gerrit_operator.World.{Env}
use edp_gerrit_operator.World.Requests.{AccessInfo, RefPermissions, text, fields, access_body}
use edp_gerrit_operator.World.Requests.{put, post}
use edp_gerrit_operator.Exec.{M}
use edp_gerrit_operator.Client.Rest.{send, parse_resty_response}
use edp_gerrit_operator.Client.Access.Request.{generate_set_access_request}

module _ {O : Type 0} (env : Env O) where
  unfoldable pub post_access : String → Dict (Dict RefPermissions) → M O (Unit {0})
  post_access project_name body =
      parse_resty_response env
        (send env post ("/projects/" <> project_name <> "/access") (access_body body))

  unfoldable pub add_access_rights : String → List AccessInfo → M O (Unit {0})
  unfolding post_access
  add_access_rights project_name permissions =
      let access_info = generate_set_access_request permissions true false in
      post_access project_name (("add", access_info) ∷ [])

  unfoldable pub update_access_rights : String → List AccessInfo → M O (Unit {0})
  unfolding post_access
  update_access_rights project_name permissions =
      let access_info = generate_set_access_request permissions false true in
      post_access project_name (("add", access_info) ∷ ("remove", access_info) ∷ [])

  unfoldable pub delete_access_rights : String → List AccessInfo → M O (Unit {0})
  unfolding post_access
  delete_access_rights project_name permissions =
      let access_info = generate_set_access_request permissions false false in
      post_access project_name (("remove", access_info) ∷ [])

  unfoldable pub set_project_parent : String → String → M O (Unit {0})
  set_project_parent project_name parent_name = parse_resty_response env (
      send env put ("/projects/" <> project_name <> "/parent")
        (fields (("parent", text parent_name) ∷ [])))
