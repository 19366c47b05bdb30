-- ===== src/Service/Apart/Client.antt =====
-- The Gerrit client makes no call at the controller's resource (pkg/client/gerrit).
use edp_gerrit_operator.Base.{
  ℕ, String, List, [], ◌∷◌, Option, none, some, Bool, inl, inr, Option-cases,
}
use edp_gerrit_operator.Errors.{Outcome}
use edp_gerrit_operator.World.{Env, World}
use edp_gerrit_operator.World.Requests.{Method, Body, Request, RestyClient}
use edp_gerrit_operator.World.Shells.{SshClient}
use edp_gerrit_operator.Exec.Keeps.{Keeps, bind-Keeps}
use edp_gerrit_operator.Exec.Apart.{IsApart, apart_rules}
use edp_gerrit_operator.Client.Rest
use edp_gerrit_operator.Client.Groups
use edp_gerrit_operator.Client.Shell
use edp_gerrit_operator.Client.Ssh
use edp_gerrit_operator.Service.Apart.Platform.{platform_rules}

module _ {O : Type 0} (env : Env O) {P : World O → Type 0} (apart : IsApart env P) where
  send_by-Keeps : (r : Request) (c : Option RestyClient) → Keeps P (Rest.send_by env r c)
  unfolding Rest.send_by
  send_by-Keeps r none = search apart_rules
  send_by-Keeps r (some c) = search (apart_rules, tt)

  send-Keeps : (m : Method) (path : String) (body : Body) → Keeps P (Rest.send env m path body)
  unfolding Rest.send
  send-Keeps m path body = search (apart_rules, send_by-Keeps)

  decode-Keeps :
      {A : Type 0} (f : List ℕ → Outcome A) (body : List ℕ)
      → Keeps P (Rest.decode_gerrit_response env f body)
  unfolding Rest.decode_gerrit_response
  decode-Keeps f body = search apart_rules

  ssh_init-Keeps :
      (user key host : String) (port : ℕ) → Keeps P (Shell.ssh_init env user key host port)
  unfolding Shell.ssh_init
  ssh_init-Keeps user key host port = search apart_rules

  new_session-Keeps : (c : SshClient) → Keeps P (Shell.new_session env c)
  unfolding Shell.new_session
  new_session-Keeps c = search (apart_rules, tt)

  close_all-Keeps : (c : SshClient) → Keeps P (Shell.close_all env c)
  unfolding Shell.close_all
  close_all-Keeps c = search (apart_rules, tt)

  shell_command-Keeps :
      (c : SshClient) (command : String) → Keeps P (Shell.run_command env c command)
  unfolding Shell.run_command
  shell_command-Keeps c command = search (apart_rules, new_session-Keeps, close_all-Keeps)

  run_by-Keeps : (command : String) (s : Option SshClient) → Keeps P (Ssh.run_by env command s)
  unfolding Ssh.run_by
  run_by-Keeps command none = search apart_rules
  run_by-Keeps command (some s) = search (apart_rules, shell_command-Keeps)

  run_command-Keeps : (command : String) → Keeps P (Ssh.run_command env command)
  unfolding Ssh.run_command
  run_command-Keeps command = search (apart_rules, run_by-Keeps)

  ruleset sending = (platform_rules, send-Keeps, decode-Keeps, run_command-Keeps)

  pub init_new_rest_client-Keeps :
      (url user password : String) → Keeps P (Ssh.init_new_rest_client env url user password)
  unfolding Ssh.init_new_rest_client
  init_new_rest_client-Keeps url user password = search sending

  pub init_new_ssh_client-Keeps :
      (user key host : String) (port : ℕ) → Keeps P (Ssh.init_new_ssh_client env user key host port)
  unfolding Ssh.init_new_ssh_client
  init_new_ssh_client-Keeps user key host port = search (sending, ssh_init-Keeps)

  pub check_credentials-Keeps : Keeps P (Ssh.check_credentials env)
  unfolding Ssh.check_credentials
  check_credentials-Keeps = search sending

  uuid_of-Keeps : (group : Option String) → Keeps P (Ssh.uuid_of env group)
  unfolding Ssh.uuid_of
  uuid_of-Keeps none = search sending
  uuid_of-Keeps (some group) = elim (Option-cases (Ssh.second_field group)) [
    | inl e ↦ rw (e, Ssh.uuid_of) (search sending)
    | inr (uuid, e) ↦ rw (e, Ssh.uuid_of) (search sending)
  ]

  get_group_uuid-Keeps : (name : String) → Keeps P (Ssh.get_group_uuid env name)
  unfolding Ssh.get_group_uuid
  get_group_uuid-Keeps name = search (sending, uuid_of-Keeps)

  pub check_group-Keeps : (name : String) → Keeps P (Ssh.check_group env name)
  unfolding Ssh.check_group
  check_group-Keeps name = search (sending, get_group_uuid-Keeps) depth 14

  pub change_password-Keeps :
      (user password : String) → Keeps P (Ssh.change_password env user password)
  unfolding Ssh.change_password
  change_password-Keeps user password = search sending

  get_user-Keeps : (user : String) → Keeps P (Ssh.get_user env user)
  unfolding Ssh.get_user
  get_user-Keeps user = search sending

  pub create_user-Keeps :
      (user password name key : String) → Keeps P (Ssh.create_user env user password name key)
  unfolding Ssh.create_user
  create_user-Keeps user password name key = search (sending, get_user-Keeps) depth 14

  add_user_to-Keeps : (user group : String) → Keeps P (Ssh.add_user_to env user group)
  unfolding Ssh.add_user_to
  add_user_to-Keeps user group = search (sending, check_group-Keeps) depth 14

  pub add_user_to_groups-Keeps :
      (user : String) (groups : List String) → Keeps P (Ssh.add_user_to_groups env user groups)
  unfolding Ssh.add_user_to_groups
  add_user_to_groups-Keeps user [] = search sending
  add_user_to_groups-Keeps user (g ∷ groups) =
      bind-Keeps _ _ (add_user_to-Keeps user g) (λ _. add_user_to_groups-Keeps user groups)

  upload_script-Keeps :
      (namespace pod script contents failure : String)
      → Keeps P (Ssh.upload_script env namespace pod script contents failure)
  unfolding Ssh.upload_script
  upload_script-Keeps namespace pod script contents failure = search sending depth 14

  pub init_admin_user-Keeps :
      (namespace path pod key : String) → Keeps P (Ssh.init_admin_user env namespace path pod key)
  unfolding Ssh.init_admin_user
  init_admin_user-Keeps namespace path pod key = search (sending, upload_script-Keeps) depth 14

  flush_caches-Keeps : Keeps P (Ssh.flush_caches env)
  unfolding Ssh.flush_caches
  flush_caches-Keeps = search sending

  pub init_all_projects-Keeps :
      (namespace path pod : String) → Keeps P (Ssh.init_all_projects env namespace path pod)
  unfolding Ssh.init_all_projects
  init_all_projects-Keeps namespace path pod =
      search (sending, get_group_uuid-Keeps, upload_script-Keeps, flush_caches-Keeps) depth 20

  pub create_group-Keeps :
      (name text : String) (b : Bool) → Keeps P (Groups.create_group env name text b)
  unfolding Groups.create_group
  create_group-Keeps name text b = search sending depth 14

pub ruleset client_rules = (
  init_new_rest_client-Keeps, init_new_ssh_client-Keeps, check_credentials-Keeps, check_group-Keeps,
  change_password-Keeps, create_user-Keeps, add_user_to_groups-Keeps, init_admin_user-Keeps,
  init_all_projects-Keeps, create_group-Keeps, platform_rules,
)
