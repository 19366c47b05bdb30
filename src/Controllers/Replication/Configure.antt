-- ===== src/Controllers/Replication/Configure.antt =====
-- `configureReplication` and the commands that it runs in the pod of the Gerrit
-- (controllers/gerritreplicationconfig/gerritreplicationconfig_controller.go).
use edp_gerrit_operator.Base.{
  ℕ, String, ◌<>◌, Option, none, some, List, [], ◌∷◌, if◌then◌else◌, Dict,
}
use edp_gerrit_operator.Errors.{new}
use edp_gerrit_operator.Api.{Gerrit, Object}
use edp_gerrit_operator.Api.Specs.{GerritReplicationConfigSpec, GerritReplicationConfigStatus}
use edp_gerrit_operator.World.{Env}
use edp_gerrit_operator.Exec.{M, ◌>>=◌, ◌>>◌, pure, raise, crash, lift, wrapping, catch, this}
use edp_gerrit_operator.Platform.K8s
use edp_gerrit_operator.Client.Ssh.{init_new_ssh_client, reload_plugin}
use edp_gerrit_operator.Service.Connect.{get_gerrit_ssh_url, get_service_port, text_at, admin_user}

abbrev pub GerritReplicationConfig : Type 0
GerritReplicationConfig = Object GerritReplicationConfigSpec GerritReplicationConfigStatus

-- `spec.DefaultGerritReplicationConfigPath`, the file of `spec.DefaultGerritSSHConfigPath`, and the
-- key of `spec.GerritDefaultVCSKeyPath`.
abbrev pub replication_config_path : String
replication_config_path = "/var/gerrit/review_site/etc/replication.config"

abbrev pub ssh_directory : String
ssh_directory = "/var/gerrit/.ssh"

abbrev pub vcs_key_path : String
vcs_key_path = "/var/gerrit/review_site/etc/vcs-autouser"

-- `configurationArguments`
pub record ConfigurationArguments : Type 0 where
  pub ssh_port_service : ℕ
  pub gerrit_pod_name : String
  pub gerrit_url : String
  pub gerrit_admin_ssh_keys : Option (Dict String)
  pub gerrit_vcs_ssh_key : Option (Dict String)

abbrev pub owned_by_gerrit : String → String
owned_by_gerrit path = "chown -R gerrit2:gerrit2 " <> path

module _ (env : Env GerritReplicationConfig) where
  -- Exactly one pod is asked for.
  unfoldable pub single_pod : List String → M GerritReplicationConfig String
  single_pod (pod ∷ []) = pure pod
  single_pod _ = raise (
      new
        "found multiple pods of Gerrit instance. It seems that some of old pods did not shutdown yet")

  unfoldable pub get_configuration_args : Gerrit → M GerritReplicationConfig ConfigurationArguments
  get_configuration_args g = do
    pods ←
        wrapping "failed to get Gerrit pods" []
          (K8s.get_pods env g.meta.namespace ("deploymentconfig=" <> g.meta.name))
    pod ← single_pod pods
    url ← wrapping "failed to Get ssh url for gerrit instance" [] (get_gerrit_ssh_url env g)
    port ← wrapping "failed to Get ssh port for gerrit" [] (get_service_port env g)
    admin ←
        wrapping "failed to Get a ssh key for admin user " []
          (K8s.get_secret env g.meta.namespace (g.meta.name <> "-admin"))
    vcs ←
        wrapping "failed to Get a ssh key for autouser" []
          (K8s.get_secret env g.meta.namespace "vcs-autouser")
    pure (record {
      ssh_port_service = port;
      gerrit_pod_name = pod;
      gerrit_url = url;
      gerrit_admin_ssh_keys = admin;
      gerrit_vcs_ssh_key = vcs;
    })

  unfoldable pub save_ssh_replication_key :
      String → String → String → M GerritReplicationConfig (Unit {0})
  save_ssh_replication_key namespace pod key = wrapping "failed executing command save ssh key" [] (
      K8s.exec_in_pod env namespace pod
        ("echo \"" <> key <> "\" > " <> vcs_key_path <> " && chmod 600 " <> vcs_key_path))

  unfoldable pub create_replication_config : String → String → M GerritReplicationConfig (Unit {0})
  create_replication_config namespace pod =
      wrapping "failed executing command to create replication config" [] (
        K8s.exec_in_pod env namespace pod (
          "[[ -f "
          <> replication_config_path
          <> " ]] || printf '%s\n  %s\n' '[gerrit]' 'defaultForceUpdate = true' > "
          <> replication_config_path
          <> " && "
          <> owned_by_gerrit replication_config_path))

  unfoldable pub create_ssh_config : String → String → M GerritReplicationConfig (Unit {0})
  create_ssh_config namespace pod =
      let file = ssh_directory <> "/config" in
      wrapping "failed executing command to create ssh config" [] (
        K8s.exec_in_pod env namespace pod (
          "[[ -f "
          <> file
          <> " ]] || mkdir -p "
          <> ssh_directory
          <> " && touch "
          <> file
          <> " && "
          <> owned_by_gerrit file))

  -- The template is given the whole resource.
  unfoldable pub resolve_replication_template :
      GerritReplicationConfig → String → String → M GerritReplicationConfig String
  resolve_replication_template o path template_name = do
    let template_path = env.path_join path template_name
    template ←
        wrapping "failed to parse template file %q" (template_path ∷ [])
          (lift (env.parse_template template_path))
    wrapping "failed to execute template" [] (lift (env.render_resource template o))

  unfoldable pub update_replication_config :
      String → String → String → GerritReplicationConfig → M GerritReplicationConfig (Unit {0})
  update_replication_config namespace pod template_path o = do
    config ← resolve_replication_template o template_path "replication-conf.tmpl"
    wrapping "failed executing command to update Gerrit replication config" [] (
        K8s.exec_in_pod env namespace pod
          ("echo \"" <> config <> "\" >> " <> replication_config_path))

  -- `host[1]` of `resolveSshTemplate` panics where the URL does not match.
  unfoldable pub host_of : Option String → M GerritReplicationConfig String
  host_of none = crash
  host_of (some host) = pure host

  unfoldable pub resolve_ssh_template :
      GerritReplicationConfig → String → String → String → M GerritReplicationConfig String
  resolve_ssh_template o path template_name key_path = do
    host ← host_of (env.find_group "@([^\\[\\]]*):" o.spec.ssh_url)
    let template_path = env.path_join path template_name
    template ←
        wrapping "failed to parse template file %q" (template_path ∷ [])
          (lift (env.parse_template template_path))
    wrapping "failed to execute template" [] (lift (env.render template (host ∷ key_path ∷ [])))

  unfoldable pub update_ssh_config :
      String → String → String → GerritReplicationConfig → M GerritReplicationConfig (Unit {0})
  update_ssh_config namespace pod template_path o = do
    create_ssh_config namespace pod
    config ← resolve_ssh_template o template_path "ssh-sshTemplate.tmpl" vcs_key_path
    wrapping "failed to exec command in pod" [] (
        K8s.exec_in_pod env namespace pod
          ("echo " <> env.quote config <> " >> " <> ssh_directory <> "/config"))

  unfoldable pub reload_replication_plugin : M GerritReplicationConfig (Unit {0})
  reload_replication_plugin =
      wrapping "failed to reload Gerrit %q plugin" ("replication" ∷ [])
        (reload_plugin env "replication")

  abbrev templates_path : String → String
  templates_path executable =
      if env.running_in_cluster
      then executable <> "/../configs/templates"
      else "/usr/local/configs/templates"

  unfoldable pub configure_replication : Gerrit → M GerritReplicationConfig (Unit {0})
  configure_replication g = do
    o ← this
    executable ←
        catch (lift env.executable_path)
          (λ _. raise (new "failed to check if operator running in cluster"))
    args ← wrapping "failed to get configuration arguments" [] (get_configuration_args g)
    let pod = args.gerrit_pod_name
    save_ssh_replication_key g.meta.namespace pod (text_at "ssh-privatekey" args.gerrit_vcs_ssh_key)
    wrapping "failed to init ssh client for Gerrit admin user" [] (
        init_new_ssh_client env admin_user (text_at "id_rsa" args.gerrit_admin_ssh_keys)
          args.gerrit_url args.ssh_port_service)
    create_replication_config g.meta.namespace pod
    update_replication_config g.meta.namespace pod (templates_path executable) o
    update_ssh_config g.meta.namespace pod (templates_path executable) o
    reload_replication_plugin
