-- ===== src/Controllers/Replication/Order.antt =====
-- In which order a replication is configured
-- (controllers/gerritreplicationconfig/gerritreplicationconfig_controller.go).
use edp_gerrit_operator.Base.{ℕ, String, List, [], ◌∷◌, ◌≡◌, refl, Option, none, some}
use edp_gerrit_operator.Api.{Gerrit}
use edp_gerrit_operator.World.{Env, World}
use edp_gerrit_operator.Exec.{M, ◌>>=◌, ◌>>◌, wrapping}
use edp_gerrit_operator.Exec.Keeps.{wrapping-Keeps}
use edp_gerrit_operator.Exec.Settled.{
  Settled, Runs, keeps-Runs, wrapping-Runs, bind-Runs, lookup-Runs, nested-Runs, into-Runs,
  this-Runs,
}
use edp_gerrit_operator.Client.Ssh
use edp_gerrit_operator.Controllers.Replication.Configure.{
  GerritReplicationConfig, owned_by_gerrit, replication_config_path, ssh_directory, vcs_key_path,
}
use edp_gerrit_operator.Controllers.Replication.Configure
use edp_gerrit_operator.Controllers.Replication.Commands.{
  Command, commands, Ran, ran_rules, Exactly, within, exec_in_pod-Runs, run_command-Runs, from-Runs,
}
use edp_gerrit_operator.Controllers.Replication.Queries.{
  get_configuration_args-Ran, init_new_ssh_client-Ran,
}
use edp_gerrit_operator.Controllers.Replication.Stages.{
  save_key, create_config, extend_config, create_ssh, extend_ssh,
}
use edp_gerrit_operator.Controllers.Replication.Stages

module _ (env : Env GerritReplicationConfig) (o : GerritReplicationConfig)
    (before : List Command) where
  extended :
      (namespace pod path key : String)
      → Runs
          (Exactly (create_config ∷ save_key key ∷ before))
          (Configure.update_replication_config env namespace pod path o)
          (Ran (Stages.Extended env o before))
          (Ran (Stages.Stage env o before))
  unfolding Configure.update_replication_config Configure.resolve_replication_template
  extended namespace pod path key =
      nested-Runs _ _ _ _ _ (within env (Stages.Stage env o before) _ (Stages.config_created key))
        (λ template parsed.
          lookup-Runs _ _ _ _ (within env (Stages.Stage env o before) _ (Stages.config_created key))
            (λ config rendered.
              into-Runs _
                (within env (Stages.Extended env o before) _
                  (key, config, (path, template, parsed, rendered), refl))
                (wrapping-Runs _ _ _ (
                  exec_in_pod-Runs env (Stages.Stage env o before) _ namespace pod _
                    (Stages.config_created key)
                    (Stages.config_extended key config (path, template, parsed, rendered))))))

  hosted :
      {P Q : World GerritReplicationConfig → Type 0} (h : Option String)
      (f : String → M GerritReplicationConfig String)
      (k : String → M GerritReplicationConfig (Unit {0}))
      → ((w : World GerritReplicationConfig) → P w → Ran (Stages.Stage env o before) w)
      → ((host : String)
          → h ≡ some host
          → Runs P (f host >>= k) Q (Ran (Stages.Stage env o before)))
      → Runs P (Configure.host_of env h >>= f >>= k) Q (Ran (Stages.Stage env o before))
  unfolding Configure.host_of ◌>>=◌
  hosted none f k fail next = record { at = λ w p. fail w p }
  hosted (some host) f k fail next = record { at = λ w p. (next host refl).at w p }

  ssh_written :
      (namespace pod path key config : String)
      → Stages.IsConfig env o before config
      → Runs
          (Exactly (extend_config config ∷ create_config ∷ save_key key ∷ before))
          (Configure.update_ssh_config env namespace pod path o)
          (Ran (Stages.SshExtended env o before))
          (Ran (Stages.Stage env o before))
  unfolding Configure.update_ssh_config Configure.create_ssh_config Configure.resolve_ssh_template
  ssh_written namespace pod path key config c =
      bind-Runs _ _
        (wrapping-Runs _ _ _ (
          exec_in_pod-Runs env (Stages.Stage env o before) _ namespace pod _
            (Stages.config_extended key config c) (Stages.ssh_created key config c)))
        (λ _.
          hosted _ _ _ (within env (Stages.Stage env o before) _ (Stages.ssh_created key config c))
            (λ host found.
              nested-Runs _ _ _ _ _
                (within env (Stages.Stage env o before) _ (Stages.ssh_created key config c))
                (λ template parsed.
                  lookup-Runs _ _ _ _
                    (within env (Stages.Stage env o before) _ (Stages.ssh_created key config c))
                    (λ ssh rendered.
                      into-Runs _
                        (within env (Stages.SshExtended env o before) _ (
                          key,
                          config,
                          ssh,
                          c,
                          (path, template, host, found, parsed, rendered),
                          refl,
                        ))
                        (wrapping-Runs _ _ _ (
                          exec_in_pod-Runs env (Stages.Stage env o before) _ namespace pod _
                            (Stages.ssh_created key config c)
                            (Stages.ssh_extended key config ssh c
                              (path, template, host, found, parsed, rendered))))))))

  reloading :
      (key config ssh : String)
      → Stages.IsConfig env o before config
      → Stages.IsSsh env o before ssh
      → Runs
          (Exactly (
            extend_ssh (env.quote ssh)
            ∷ create_ssh
            ∷ extend_config config
            ∷ create_config
            ∷ save_key key
            ∷ before))
          (Ssh.reload_plugin env "replication")
          (Ran (Stages.Configured env o before))
          (Ran (Stages.Stage env o before))
  unfolding Ssh.reload_plugin
  reloading key config ssh c d =
      into-Runs _ (within env (Stages.Configured env o before) _ (key, config, ssh, c, d, refl)) (
        bind-Runs _ _
          (wrapping-Runs _ _ _ (
            run_command-Runs env (Stages.Stage env o before) _ _
              (Stages.ssh_extended key config ssh c d) (Stages.reloaded key config ssh c d)))
          (λ _.
            keeps-Runs _ (search ran_rules)
              (within env (Stages.Stage env o before) _ (Stages.reloaded key config ssh c d))))

  saved :
      (namespace pod key : String)
      → Runs
          (Exactly before)
          (Configure.save_ssh_replication_key env namespace pod key)
          (Exactly (save_key key ∷ before))
          (Ran (Stages.Stage env o before))
  unfolding Configure.save_ssh_replication_key
  saved namespace pod key = wrapping-Runs _ _ _ (
      exec_in_pod-Runs env (Stages.Stage env o before) _ namespace pod _ Stages.untouched
        (Stages.key_saved key))

  created :
      (namespace pod key : String)
      → Runs
          (Exactly (save_key key ∷ before))
          (Configure.create_replication_config env namespace pod)
          (Exactly (create_config ∷ save_key key ∷ before))
          (Ran (Stages.Stage env o before))
  unfolding Configure.create_replication_config
  created namespace pod key = wrapping-Runs _ _ _ (
      exec_in_pod-Runs env (Stages.Stage env o before) _ namespace pod _ (Stages.key_saved key)
        (Stages.config_created key))

  -- What follows once the arguments are read.
  written :
      (namespace pod path key user admin url : String) (port : ℕ)
      → Runs
          (Exactly before)
          (do
            Configure.save_ssh_replication_key env namespace pod key
            wrapping "failed to init ssh client for Gerrit admin user" []
                (Ssh.init_new_ssh_client env user admin url port)
            Configure.create_replication_config env namespace pod
            Configure.update_replication_config env namespace pod path o
            Configure.update_ssh_config env namespace pod path o
            Configure.reload_replication_plugin env)
          (Ran (Stages.Configured env o before))
          (Ran (Stages.Stage env o before))
  unfolding Configure.reload_replication_plugin
  written namespace pod path key user admin url port = bind-Runs _ _ (saved namespace pod key) (λ _.
      bind-Runs _ _
        (keeps-Runs _ (wrapping-Keeps _ _ _ (init_new_ssh_client-Ran env user admin url port))
          (within env (Stages.Stage env o before) _ (Stages.key_saved key)))
        (λ _. bind-Runs _ _ (created namespace pod key) (λ _.
          bind-Runs _ _ (extended namespace pod path key) (λ _. from-Runs _ (λ l (k, config, c, e).
            rw e (
              bind-Runs _ _ (ssh_written namespace pod path k config c) (λ _. wrapping-Runs _ _ _ (
                from-Runs _ (λ l' (k', config', ssh, c', d, e').
                  rw e' (reloading k' config' ssh c' d))))))))))

  configured :
      (g : Gerrit)
      → Runs
          (λ w. Exactly before w × (w.instance_ref ≡ o))
          (Configure.configure_replication env g)
          (Ran (Stages.Configured env o before))
          (Ran (Stages.Stage env o before))
  unfolding Configure.configure_replication
  configured g = this-Runs o _ (
      bind-Runs _ _
        (keeps-Runs _ (search ran_rules)
          (within env (Stages.Stage env o before) _ Stages.untouched))
        (λ executable.
          bind-Runs _ _
            (keeps-Runs _ (wrapping-Keeps _ _ _ (get_configuration_args-Ran env g))
              (within env (Stages.Stage env o before) _ Stages.untouched))
            (λ args. written _ _ _ _ _ _ _ _)))

-- A configuration of a replication runs six commands in this order: the key is saved, the replication file is
-- created, the template filled in with the resource is appended to it, the SSH file is created, the template
-- filled in with the host of the URL is appended to it, and the plugin is reloaded. Where the configuration
-- succeeds, exactly these were run; where it fails or panics, exactly the first ones of them, which may be none.
pub configure_replication_ordered :
    (env : Env GerritReplicationConfig) (g : Gerrit) (w : World GerritReplicationConfig)
    → Settled
        (Ran (Stages.Configured env w.instance_ref (commands w.trace)))
        (Ran (Stages.Stage env w.instance_ref (commands w.trace)))
        (Configure.configure_replication env g w)
configure_replication_ordered env g w =
    (configured env w.instance_ref (commands w.trace) g).at w (record { so_far = refl }, refl)
