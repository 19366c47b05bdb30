-- ===== src/Client/Projects.antt =====
-- Projects and branches over REST (pkg/client/gerrit/project.go).
pub mod Listing
use edp_gerrit_operator.Base.{ℕ, String, ◌<>◌, false, List, [], ◌∷◌, not, ◌=?◌}
use edp_gerrit_operator.Base.{Dict, erase, if◌then◌else◌}
use edp_gerrit_operator.Errors.{bad_response, does_not_exist}
use edp_gerrit_operator.World.{Env}
use edp_gerrit_operator.World.Requests.{Project, Branch, text, flag, no_body, fields, project_body}
use edp_gerrit_operator.World.Requests.{get, put, post}
use edp_gerrit_operator.Exec.{M, ◌>>=◌, ◌>>◌, pure, raise, wrapping}
use edp_gerrit_operator.Client.Rest.{send, parse_resty_response, decode_gerrit_response}

-- `http.StatusOK`, `http.StatusNotFound`
abbrev pub status_ok : ℕ
status_ok = 200

abbrev pub status_not_found : ℕ
status_not_found = 404

-- The loop of `ListProjects` over the decoded map, in the order in which Go visits it.
unfoldable pub with_names : Dict Project → List Project
with_names [] = []
with_names ((k, v) ∷ rest) = record v { name = k } ∷ with_names rest

module _ {O : Type 0} (env : Env O) where
  abbrev pub project_path : String → String
  project_path name = "/projects/" <> env.query_escape name

  unfoldable pub create_project : Project → M O (Unit {0})
  create_project prj =
      parse_resty_response env (send env put (project_path prj.name) (project_body prj))

  unfoldable pub get_project : String → M O Project
  get_project name = do
    rsp ← wrapping "Unable to get Gerrit project" [] (send env get (project_path name) no_body)
    if not (rsp.status =? status_ok)
        then if rsp.status =? status_not_found
          then raise (does_not_exist "does not exists")
          else raise (bad_response "wrong response code: %d, body: %s" rsp)
        else wrapping "unable to unmarshal project response" []
            (decode_gerrit_response env env.decode_project rsp.body)

  unfoldable pub update_project : Project → M O (Unit {0})
  update_project prj = do
    wrapping "unable to update project description" [] (
        parse_resty_response env (
          send env put (project_path prj.name <> "/description") (
            fields (
              ("description", text prj.description)
              ∷ ("commit_message", text "Update the project description")
              ∷ []))))
    parse_resty_response env (
        send env put (project_path prj.name <> "/parent") (
          fields (
            ("parent", text prj.parent)
            ∷ ("commit_message", text "Update the project parent")
            ∷ [])))

  unfoldable pub delete_project : String → M O (Unit {0})
  delete_project name = parse_resty_response env (
      send env post (project_path name <> "/delete-project~delete")
        (fields (("force", flag false) ∷ ("preserve", flag false) ∷ [])))

  unfoldable pub list_projects : String → M O (List Project)
  list_projects type = do
    rsp ←
        wrapping "Unable to get Gerrit project" []
          (send env get ("/projects/?type=" <> type <> "&d=1&t=1") no_body)
    if env.is_error rsp then raise (bad_response "wrong response code: %d, body: %s" rsp) else do
      pre_projects ←
          wrapping "unable to unmarshal project response, body: %s" []
            (decode_gerrit_response env env.decode_projects rsp.body)
      pure (
          with_names (erase "All-Users" (erase "All-Projects" (erase "All-Projects" pre_projects))))

  unfoldable pub list_project_branches : String → M O (List Branch)
  list_project_branches name = do
    rsp ←
        wrapping "Unable to get Gerrit project branches" []
          (send env get (project_path name <> "/branches/") no_body)
    if env.is_error rsp
        then raise (bad_response "wrong response code: %d, body: %s" rsp)
        else wrapping "unable to unmarshal project response, body: %s" []
            (decode_gerrit_response env env.decode_branches rsp.body)
