-- ===== src/Service/Configure.antt =====
-- `Configure` and `IsDeploymentReady` (pkg/service/gerrit/gerrit.go).
pub mod Checks
pub mod Groups
pub mod Answers
use edp_gerrit_operator.Base.{
  ℕ, String, ◌<>◌, Bool, true, false, Option, List, [], ◌∷◌, not, ◌&&◌, ◌||◌, ◌=?◌, leb, inl, inr,
  ◌⊎◌,
}
use edp_gerrit_operator.Base.{if◌then◌else◌}
use edp_gerrit_operator.Errors.{Error}
use edp_gerrit_operator.Api.{Gerrit}
use edp_gerrit_operator.World.{Env}
use edp_gerrit_operator.World.Requests.{Group}
use edp_gerrit_operator.Exec.{M, ◌>>=◌, ◌>>◌, pure, lift, wrapping, attempt, skip, traced}
use edp_gerrit_operator.Platform.K8s
use edp_gerrit_operator.Client.Projects.{status_not_found}
use edp_gerrit_operator.Client.Groups.{create_group}
use edp_gerrit_operator.Client.Ssh.{
  init_new_rest_client, init_new_ssh_client, check_credentials, check_group, init_admin_user,
  init_all_projects,
}
use edp_gerrit_operator.Service.Connect.{
  admin_user, text_at, get_gerrit_rest_api_url, get_gerrit_ssh_url, get_gerrit_admin_password,
  get_service_port, create_ssh_key_pairs, set_gerrit_admin_user_password,
  update_deployment_config_port,
}

-- `spec.GerritDefaultAdminPassword`
abbrev pub default_password : String
default_password = "secret"

-- `spec.GerritCIToolsGroupName` and so on.
abbrev pub ci_tools : String
ci_tools = "Continuous Integration Tools"

abbrev pub bootstrappers : String
bootstrappers = "Project Bootstrappers"

abbrev pub developers : String
developers = "Developers"

abbrev pub read_only : String
read_only = "ReadOnly"

-- `http.StatusUnauthorized`
abbrev pub status_unauthorized : ℕ
status_unauthorized = 401

-- A status that says neither yes nor no to the credentials, up to `http.StatusHTTPVersionNotSupported`.
abbrev pub is_odd_status : ℕ → Bool
is_odd_status status = not (status =? status_unauthorized) && leb 400 status && leb status 505

-- What `Configure` has found out of the instance: `gerritUrl`, `gerritScriptsPath`, `sshPortService`,
-- `gerritApiUrl`, `gerritAdminPassword`, the name of the pod and `gerritAdminPublicKey`.
pub record Site : Type 0 where
  pub ssh_url : String
  pub scripts_path : String
  pub port : ℕ
  pub api_url : String
  pub password : String
  pub pod : String
  pub public_key : String

module _ {O : Type 0} (env : Env O) where
  unfoldable pub is_deployment_ready : Gerrit → M O Bool
  is_deployment_ready g =
      wrapping "failed to check readiness of Gerrit deployment %q" (g.meta.name ∷ [])
        (K8s.is_deployment_ready env g)

  -- `platformHelper.GetExecutableFilePath`
  abbrev get_executable_file_path : M O String
  get_executable_file_path =
      wrapping "failed to get path for the executable that started process" []
        (lift env.executable_path)

  -- `filepath.FromSlash` changes nothing where the separator is a slash.
  abbrev pub scripts_path : String → String
  scripts_path executable =
      if env.running_in_cluster
      then "/usr/local/configs/scripts"
      else executable <> "/../configs/scripts"

  abbrev pub make_group : String → String → M O Group
  make_group name text =
      wrapping "failed to create Gerrit group %q" (name ∷ []) (create_group env name text true)

  -- The groups are made when one of two is missing, and the script runs only then.
  unfoldable pub create_groups : Gerrit → Site → M O (Unit {0})
  create_groups g site = do
    make_group ci_tools "Contains CI tools that get +2/-2 access on reviews"
    make_group bootstrappers "Grants all the permissions needed to set up a new project"
    make_group developers "Grant access to all projects in Gerrit"
    make_group read_only ""
    wrapping "failed to initialize Gerrit All-Projects project" []
        (init_all_projects env g.meta.namespace site.scripts_path site.pod)

  abbrev pub connect : Site → String → M O (Unit {0})
  connect site key =
      wrapping "failed to init ssh client for gerrit" []
        (init_new_ssh_client env admin_user key site.ssh_url site.port)

  abbrev pub group_status : String → M O ℕ
  group_status name = wrapping "failed to check Gerrit group %q" (name ∷ []) (check_group env name)

  unfoldable pub ensure_groups : Gerrit → Site → String → M O (Unit {0})
  ensure_groups g site key = do
    tools_status ← group_status ci_tools
    bootstrappers_status ← group_status bootstrappers
    if tools_status =? status_not_found || bootstrappers_status =? status_not_found
        then connect site key >> create_groups g site
        else skip

  -- From the secret with the administrator's keys on.
  unfoldable pub set_up : Gerrit → Site → M O Bool
  set_up g site = do
    let secret_name : String = g.meta.name <> "-admin"
    let command : String = "chown -R gerrit2:gerrit2 /var/gerrit/review_site"
    keys ←
        wrapping "failed to get secret %q for gerrit" (secret_name ∷ [])
          (K8s.get_secret env g.meta.namespace secret_name)
    wrapping "failed to exec command %q in a pod %q" (("/bin/sh -c " <> command) ∷ site.pod ∷ [])
        (K8s.exec_in_pod env g.meta.namespace site.pod command)
    connect site (text_at "id_rsa" keys)
    ensure_groups g site (text_at "id_rsa" keys)
    pure false

  -- `CheckCredentials` after `InitNewRestClient` with the password.
  unfoldable pub try_password : Gerrit → Site → String → String → M O ℕ
  try_password g site failure password = do
    wrapping failure (g.meta.namespace ∷ g.meta.name ∷ [])
        (init_new_rest_client env site.api_url admin_user password)
    wrapping "failed to check credentials in Gerrit" [] (check_credentials env)

  -- The password of the secret is refused: the default one is tried, and where that is refused too, the
  -- administrator is made.
  unfoldable pub reset_password : Gerrit → Site → M O Bool
  reset_password g site = do
    let new_password : M O Bool =
        set_gerrit_admin_user_password env g site.ssh_url site.password site.api_url site.port
        >> set_up g site
    status ←
        try_password g site "Failed to initialize Gerrit REST client for %v/%v" default_password
    if is_odd_status status
        then pure false
        else if status =? status_unauthorized
        then wrapping "failed to initialize Gerrit Admin User" []
            (init_admin_user env g.meta.namespace site.scripts_path site.pod site.public_key)
          >> new_password
        else new_password

  -- `errors.Wrap` of no error is no error: an odd status ends the configuration without one.
  unfoldable pub log_in : Gerrit → Site → M O Bool
  log_in g site = do
    status ← try_password g site "failed to initialize Gerrit REST client for %v/%v" site.password
    if is_odd_status status
        then pure false
        else if status =? status_unauthorized
        then reset_password g site
        else set_up g site

  -- One pod is wanted; another number of pods ends the configuration without an error too.
  unfoldable pub with_pod : List String → (String → M O Bool) → M O Bool
  with_pod [] f = pure false
  with_pod (pod ∷ []) f = f pod
  with_pod (pod ∷ pod' ∷ pods) f = pure false

  -- From the URL of the REST interface on; the deployment is as it should be.
  unfoldable pub set_up_access : Gerrit → String → String → ℕ → M O Bool
  set_up_access g ssh_url scripts port = do
    api_url ←
        wrapping "failed to get Gerrit REST API URL %v/%v" (g.meta.namespace ∷ g.meta.name ∷ [])
          (get_gerrit_rest_api_url env g)
    password ←
        wrapping "failed to get Gerrit admin password from secret for %s/%s"
          (g.meta.namespace ∷ g.meta.name ∷ []) (get_gerrit_admin_password env g)
    pods ←
        wrapping "unable to determine Gerrit pod name: %v" (env.itoa 0 ∷ [])
          (K8s.get_pods env g.meta.namespace ("app=" <> g.meta.name))
    with_pod pods λ pod. do
      (private_key, public_key) ←
          wrapping "failed to create Gerrit admin SSH keypair %v/%v"
            (g.meta.namespace ∷ g.meta.name ∷ [])
            (create_ssh_key_pairs env g (g.meta.name <> "-admin"))
      log_in g (record {
        ssh_url = ssh_url;
        scripts_path = scripts;
        port = port;
        api_url = api_url;
        password = password;
        pod = pod;
        public_key = public_key;
      })

  -- Whether the deployment was patched.
  unfoldable pub configure : Gerrit → M O Bool
  configure g = do
    let secret_name : String = g.meta.name <> "-admin-password"
    ssh_url ← wrapping "unable to get Gerrit SSH URL" [] (get_gerrit_ssh_url env g)
    executable ← wrapping "unable to get executable file path" [] get_executable_file_path
    t ← traced
    wrapping "failed to create admin Secret %s for Gerrit" (secret_name ∷ []) (
        K8s.create_secret env g secret_name
          (("user", admin_user) ∷ ("password", env.new_password t) ∷ []) [])
    port ← get_service_port env g
    deployment_port ←
        wrapping "failed to get SSH port for Gerrit instance %q" (g.meta.name ∷ [])
          (K8s.get_deployment_ssh_port env g)
    service ←
        wrapping "unable to get Gerrit service" []
          (K8s.get_service env g.meta.namespace g.meta.name)
    wrapping "unable to update Gerrit service" [] (K8s.update_service env service port)
    patched ← update_deployment_config_port env deployment_port port g
    if patched then pure true else set_up_access g ssh_url (scripts_path executable) port

  -- The results of `Configure`: an error comes without a patch.
  unfoldable pub configured : M O Bool → M O (Bool × (Error ⊎ Unit {0}))
  configured m = do
    r ← attempt m
    elim r [ inl e ↦ pure (false, inl e) | inr patched ↦ pure (patched, inr tt) ]
