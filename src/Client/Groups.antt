-- ===== src/Client/Groups.antt =====
-- Groups over REST (pkg/client/gerrit/group.go).
use edp_gerrit_operator.Base.{ℕ, String, ◌<>◌, Bool, [], ◌∷◌, not, ◌=?◌, if◌then◌else◌}
use edp_gerrit_operator.Errors.{already_exists, bad_response, Response}
use edp_gerrit_operator.World.{Env}
use edp_gerrit_operator.World.Requests.{Group, text, flag, no_body, fields, put, delete}
use edp_gerrit_operator.Exec.{M, ◌>>=◌, ◌>>◌, raise, wrapping, skip}
use edp_gerrit_operator.Client.Rest.{send, parse_resty_response, decode_gerrit_response}

-- `http.StatusNoContent`, `http.StatusConflict`
abbrev pub status_no_content : ℕ
status_no_content = 204

abbrev pub status_conflict : ℕ
status_conflict = 409

module _ {O : Type 0} (env : Env O) where
  abbrev pub member_path : String → String → String
  member_path group_name username = "groups/" <> group_name <> "/members/" <> username

  unfoldable pub delete_user_from_group : String → String → M O (Unit {0})
  delete_user_from_group group_name username = do
    rsp ←
        wrapping "Unable to get Gerrit groups" []
          (send env delete (member_path group_name username) no_body)
    if not (rsp.status =? status_no_content)
        then raise (bad_response "wrong response code: %d, body: %s" rsp)
        else skip

  unfoldable pub add_user_to_group : String → String → M O (Unit {0})
  add_user_to_group group_name username =
      parse_resty_response env (send env put (member_path group_name username) no_body)

  -- One of the two requests of `UpdateGroup`.
  abbrev accepted : Response → M O (Unit {0})
  accepted rsp = if env.is_error rsp then raise (bad_response "status: %s, body: %s" rsp) else skip

  unfoldable pub update_group : String → String → Bool → M O (Unit {0})
  update_group group_id description visible_to_all = do
    rsp ← wrapping "unable to update group" [] (
        send env put ("groups/" <> group_id <> "/description")
          (fields (("description", text description) ∷ [])))
    accepted rsp
    rsp' ← wrapping "unable to update group" [] (
        send env put ("groups/" <> group_id <> "/options")
          (fields (("visible_to_all", flag visible_to_all) ∷ [])))
    accepted rsp'

  unfoldable pub create_group : String → String → Bool → M O Group
  create_group name description visible_to_all = do
    rsp ← wrapping "unable to create group" [] (
        send env put ("groups/" <> name) (
          fields (
            ("description", text description)
            ∷ ("name", text name)
            ∷ ("visible_to_all", flag visible_to_all)
            ∷ [])))
    if env.is_error rsp
        then if rsp.status =? status_conflict
          then raise (already_exists "already exists")
          else raise (bad_response "status: %s, body: %s" rsp)
        else wrapping "unable to unmarshal group response" []
            (decode_gerrit_response env env.decode_group rsp.body)
