-- ===== src/Client/Ssh.antt =====
-- Commands over SSH, and the checks that go with them (pkg/client/gerrit/gerrit.go).
pub mod Commands
use Prim.Native.Char.{code}
use Prim.Native.String.{String}
use edp_gerrit_operator.Base.{ℕ, ◌<>◌, Option, none, some, List, [], ◌∷◌, ◌=?◌, ◌==◌, string_eq}
use edp_gerrit_operator.Base.{if◌then◌else◌}
use edp_gerrit_operator.World.{Env, Call}
use edp_gerrit_operator.Errors.{ok}
use edp_gerrit_operator.World.Requests.{no_body, get, default_client}
use edp_gerrit_operator.World.Shells.{SshClient}
use edp_gerrit_operator.Exec.{M, ◌>>=◌, ◌>>◌, pure, crash, lift, call, wrapping, ssh_session}
use edp_gerrit_operator.Exec.{set_rest, set_ssh, skip}
use edp_gerrit_operator.Platform.K8s.{exec_in_pod}
use edp_gerrit_operator.Client.Rest.{send}
use edp_gerrit_operator.Client.Shell
use edp_gerrit_operator.Client.Projects.{status_not_found}

-- `strings.Split(s, "\t")[1]`: what follows the first tab, up to the next; a panic if there is none.
unfoldable pub up_to_tab : String → String
up_to_tab String.[] = ""
up_to_tab (String.◌∷◌ c s) = if code c =? 9 then "" else String.◌∷◌ c (up_to_tab s)

unfoldable pub second_field : String → Option String
unfolding up_to_tab
second_field String.[] = none
second_field (String.◌∷◌ c s) =
    let later = second_field s in if code c =? 9 then some (up_to_tab s) else later

-- The regular expression of `getGroupUuid`; the group's name stands in it unquoted.
abbrev pub group_pattern : String → String
group_pattern group_name = group_name <> "\t[A-Za-z0-9_]{40}"

module _ {O : Type 0} (env : Env O) where
  unfoldable pub run_by : String → Option SshClient → M O String
  run_by command none = crash
  run_by command (some s) = Shell.run_command env s command

  -- `gc.sshClient.RunCommand`: a nil client is called.
  unfoldable pub run_command : String → M O String
  unfolding ◌>>=◌ run_by
  run_command command = ssh_session >>= run_by command

  -- `InitNewRestClient`
  unfoldable pub init_new_rest_client : String → String → String → M O (Unit {0})
  init_new_rest_client url user password = do
    call (Call.set_default_client url user password) (λ _. ok tt)
    set_rest default_client

  unfoldable pub init_new_ssh_client : String → String → String → ℕ → M O (Unit {0})
  init_new_ssh_client user key host port = do
    s ← wrapping "err while initializing new ssh client" [] (Shell.ssh_init env user key host port)
    set_ssh s

  unfoldable pub check_credentials : M O ℕ
  check_credentials = do
    rsp ←
        wrapping "Unable to verify Gerrit credentials" []
          (send env get "config/server/summary" no_body)
    pure rsp.status

  -- `group[0]` holds a tab, which the pattern asks for.
  unfoldable pub uuid_of : Option String → M O String
  uuid_of none = pure ""
  uuid_of (some group) = elim (second_field group) [ none ↦ crash | some uuid ↦ pure uuid ]

  unfoldable pub get_group_uuid : String → M O String
  get_group_uuid group_name = do
    groups ←
        wrapping "Receiving Gerrit groups password failed" [] (run_command "gerrit ls-groups -v")
    uuid_of (env.find_submatch (group_pattern group_name) groups)

  -- No group of that name is answered as a missing page would be.
  unfoldable pub check_group : String → M O ℕ
  check_group group_name = do
    uuid ← wrapping "Unable to get Gerrit group uuid" [] (get_group_uuid group_name)
    if uuid == "" then pure status_not_found else do
      rsp ← wrapping "Unable to get Gerrit groups" [] (send env get ("groups/" <> uuid) no_body)
      pure rsp.status

  unfoldable pub get_user : String → M O ℕ
  get_user username = do
    rsp ← wrapping "Unable to get Gerrit user" [] (send env get ("accounts/" <> username) no_body)
    pure rsp.status

  unfoldable pub change_password : String → String → M O (Unit {0})
  change_password username password =
      wrapping "Changing %v password failed. %v" (username ∷ []) (
        run_command
          ("gerrit set-account --http-password \"" <> password <> "\" \"" <> username <> "\""))
      >> skip

  unfoldable pub reload_plugin : String → M O (Unit {0})
  reload_plugin plugin =
      wrapping "Reloading %v plugin failed" (plugin ∷ [])
        (run_command ("gerrit plugin reload \"" <> plugin <> "\""))
      >> skip

  abbrev pub create_account : String → String → String → String → String
  create_account username password full_name public_key =
      "gerrit create-account --full-name \"" <> full_name <> "\" --http-password \"" <> password
      <> "\" --ssh-key \"" <> public_key <> "\" \"" <> username <> "\""

  unfoldable pub create_user : String → String → String → String → M O (Unit {0})
  create_user username password full_name public_key = do
    user_status ← wrapping "Getting %v user failed" (username ∷ []) (get_user username)
    if user_status =? status_not_found
        then wrapping "Creating %v user failed" (username ∷ [])
            (run_command (create_account username password full_name public_key))
          >> skip
        else skip

  -- One round of `AddUserToGroups`: a group that is missing is passed over.
  unfoldable pub add_user_to : String → String → M O (Unit {0})
  add_user_to user_name group = do
    group_status ← check_group group
    if group_status =? status_not_found
        then skip
        else wrapping "Failed to add user %v to group %v" (user_name ∷ group ∷ [])
            (run_command ("gerrit set-members --add \"" <> user_name <> "\" \"" <> group <> "\""))
          >> skip

  unfoldable pub add_user_to_groups : String → List String → M O (Unit {0})
  add_user_to_groups user_name [] = skip
  add_user_to_groups user_name (group ∷ groups) =
      add_user_to user_name group >> add_user_to_groups user_name groups

  unfoldable pub flush_caches : M O (Unit {0})
  flush_caches =
      wrapping "Failed to flush Gerrit caches" [] (run_command "gerrit flush-caches --all") >> skip

  -- Copy a script into the pod: two commands, the first creates the file.
  unfoldable pub upload_script : String → String → String → String → String → M O (Unit {0})
  upload_script namespace pod_name script contents failure = do
    let target = "/tmp/scripts/" <> script
    wrapping ("Failed to create " <> script <> " script inside gerrit pod") [] (
        exec_in_pod env namespace pod_name
          ("mkdir -p /tmp/scripts && touch " <> target <> " && chmod +x " <> target))
    wrapping failure []
        (exec_in_pod env namespace pod_name ("echo \"" <> contents <> "\" > " <> target))

  unfoldable pub init_admin_user : String → String → String → String → M O (Unit {0})
  init_admin_user namespace scripts_path pod_name public_key = do
    script ←
        wrapping "Failed to read add-initial-admin-user.sh script" []
          (lift (env.read_file (scripts_path <> "/add-initial-admin-user.sh")))
    upload_script namespace pod_name "add-initial-admin-user.sh" script
        "Failed to add content to add-initial-admin-user.sh script inside gerrit pod"
    wrapping "Failed to execute add-initial-admin-user.sh script inside gerrit pod" [] (
        exec_in_pod env namespace pod_name
          ("sh /tmp/scripts/add-initial-admin-user.sh \"" <> public_key <> "\""))

  -- `spec.GerritCIToolsGroupName` and so on.
  unfoldable pub init_all_projects : String → String → String → M O (Unit {0})
  init_all_projects namespace scripts_path pod_name = do
    script ←
        wrapping "Failed to read init-all-projects.sh script" []
          (lift (env.read_file (scripts_path <> "/init-all-projects.sh")))
    config ←
        wrapping "Failed to read init-all-projects.sh script" []
          (lift (env.read_file (scripts_path <> "/../gerrit.config")))
    ci_tools ←
        wrapping "Failed to get %v group ID" ("Continuous Integration Tools" ∷ [])
          (get_group_uuid "Continuous Integration Tools")
    bootstrappers ←
        wrapping "Failed to get %v group ID" ("Continuous Integration Tools" ∷ [])
          (get_group_uuid "Project Bootstrappers")
    developers ←
        wrapping "Failed to get %v group ID" ("Continuous Integration Tools" ∷ [])
          (get_group_uuid "Developers")
    read_only ← wrapping "Failed to get %s group ID" ("ReadOnly" ∷ []) (get_group_uuid "ReadOnly")
    upload_script namespace pod_name "init-all-projects.sh" script
        "Failed to create init-all-projects.sh script inside gerrit pod"
    wrapping "Failed to execute init-all-projects.sh script inside gerrit pod" [] (
        exec_in_pod env namespace pod_name (
          "sh /tmp/scripts/init-all-projects.sh \"" <> config <> "\" \"" <> ci_tools <> "\" \""
          <> bootstrappers <> "\" \"" <> developers <> "\" \"" <> read_only <> "\""))
    flush_caches
