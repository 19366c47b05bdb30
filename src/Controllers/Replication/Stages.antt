-- ===== src/Controllers/Replication/Stages.antt =====
-- How far the configuration of a replication has come, by the commands that were run
-- (controllers/gerritreplicationconfig/gerritreplicationconfig_controller.go).
use edp_gerrit_operator.Base.{String, ◌<>◌, List, [], ◌∷◌, ◌≡◌, some}
use edp_gerrit_operator.Errors.{ok}
use edp_gerrit_operator.World.{Env}
use edp_gerrit_operator.Controllers.Replication.Configure.{
  GerritReplicationConfig, owned_by_gerrit, replication_config_path, ssh_directory, vcs_key_path,
}
use edp_gerrit_operator.Controllers.Replication.Commands.{Command, in_pod, over_ssh}

-- The commands, with what they are given.
abbrev pub save_key : String → Command
save_key key =
    in_pod ("echo \"" <> key <> "\" > " <> vcs_key_path <> " && chmod 600 " <> vcs_key_path)

abbrev pub create_config : Command
create_config = in_pod (
    "[[ -f "
    <> replication_config_path
    <> " ]] || printf '%s\n  %s\n' '[gerrit]' 'defaultForceUpdate = true' > "
    <> replication_config_path
    <> " && "
    <> owned_by_gerrit replication_config_path)

abbrev pub extend_config : String → Command
extend_config config = in_pod ("echo \"" <> config <> "\" >> " <> replication_config_path)

abbrev pub create_ssh : Command
create_ssh = in_pod (
    "[[ -f "
    <> (ssh_directory <> "/config")
    <> " ]] || mkdir -p "
    <> ssh_directory
    <> " && touch "
    <> (ssh_directory <> "/config")
    <> " && "
    <> owned_by_gerrit (ssh_directory <> "/config"))

abbrev pub extend_ssh : String → Command
extend_ssh quoted = in_pod ("echo " <> quoted <> " >> " <> ssh_directory <> "/config")

abbrev pub reload : Command
reload = over_ssh "gerrit plugin reload \"replication\""

module _ (env : Env GerritReplicationConfig) (o : GerritReplicationConfig)
    (before : List Command) where
  -- The text is the replication's template, filled in with the resource.
  abbrev pub IsConfig : String → Type 0
  IsConfig config =
      (path template : String) × (env.parse_template (env.path_join path "replication-conf.tmpl")
        ≡ ok template)
      × (env.render_resource template o ≡ ok config)

  -- The text is the SSH template, filled in with the host of the URL and with the path of the key.
  abbrev pub IsSsh : String → Type 0
  IsSsh config =
      (path template host : String) × (env.find_group "@([^\\[\\]]*):" o.spec.ssh_url ≡ some host)
      × (env.parse_template (env.path_join path "ssh-sshTemplate.tmpl") ≡ ok template)
      × (env.render template (host ∷ vcs_key_path ∷ []) ≡ ok config)

  -- How far a configuration may have come, by the commands that were run, newest first.
  pub data Stage : List Command → Type 0 where
    untouched : Stage before
    key_saved : (key : String) → Stage (save_key key ∷ before)
    config_created : (key : String) → Stage (create_config ∷ save_key key ∷ before)
    config_extended :
        (key config : String)
        → IsConfig config
        → Stage (extend_config config ∷ create_config ∷ save_key key ∷ before)
    ssh_created :
        (key config : String)
        → IsConfig config
        → Stage (create_ssh ∷ extend_config config ∷ create_config ∷ save_key key ∷ before)
    ssh_extended :
        (key config ssh : String)
        → IsConfig config
        → IsSsh ssh
        → Stage (
            extend_ssh (env.quote ssh)
            ∷ create_ssh
            ∷ extend_config config
            ∷ create_config
            ∷ save_key key
            ∷ before)
    reloaded :
        (key config ssh : String)
        → IsConfig config
        → IsSsh ssh
        → Stage (
            reload
            ∷ extend_ssh (env.quote ssh)
            ∷ create_ssh
            ∷ extend_config config
            ∷ create_config
            ∷ save_key key
            ∷ before)

  abbrev pub Extended : List Command → Type 0
  Extended l =
      (key config : String) × IsConfig config
      × (l ≡ extend_config config ∷ create_config ∷ save_key key ∷ before)

  abbrev pub SshExtended : List Command → Type 0
  SshExtended l =
      (key config ssh : String) × IsConfig config
      × IsSsh ssh
      × (l
          ≡ extend_ssh (env.quote ssh)
            ∷ create_ssh
            ∷ extend_config config
            ∷ create_config
            ∷ save_key key
            ∷ before)

  -- All six commands were run.
  abbrev pub Configured : List Command → Type 0
  Configured l =
      (key config ssh : String) × IsConfig config
      × IsSsh ssh
      × (l
          ≡ reload
            ∷ extend_ssh (env.quote ssh)
            ∷ create_ssh
            ∷ extend_config config
            ∷ create_config
            ∷ save_key key
            ∷ before)
