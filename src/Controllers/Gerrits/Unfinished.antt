-- ===== src/Controllers/Gerrits/Unfinished.antt =====
-- What the Gerrit controller makes of a configuration that ended early
-- (controllers/gerrit/gerrit_controller.go, pkg/service/gerrit/gerrit.go).
use edp_gerrit_operator.Base.{String, ◌<>◌, ℕ, List, ◌∷◌, ◌≡◌, ◌≢◌, false, length, ◌∙◌}
use edp_gerrit_operator.Errors.{ok}
use edp_gerrit_operator.Api.{Gerrit}
use edp_gerrit_operator.World.{Env, World, Call}
use edp_gerrit_operator.Exec.{M, ◌>>=◌}
use edp_gerrit_operator.Service.Connect
use edp_gerrit_operator.Service.Configure
use edp_gerrit_operator.Service.Configure.Answers.{set_up_access_pods}
use edp_gerrit_operator.Controllers.Common.{done}
use edp_gerrit_operator.Controllers.Gerrits
use edp_gerrit_operator.Controllers.Gerrits.Component.{component_service}

module _ (env : Env Gerrit) (retry : M Gerrit (Unit {0}) → M Gerrit (Unit {0}))
    (w : World Gerrit) where
  configure_ended :
      (w' : World Gerrit)
      → Configure.configure env w.instance_ref w ≡ (ok false, w')
      → Gerrits.configure env (component_service env retry) w
        ≡ Gerrits.after_configuration env (component_service env retry) done w'
  unfolding Gerrits.configure component_service Configure.configured ◌>>=◌
  configure_ended w' e = rw e

  -- The controller goes on as after a configuration that was done, to the readiness of the deployment and the next
  -- statuses, where the configuration got to the pods and there is none, or more than one, so that no administrator, no
  -- password and no group was looked at.
  pub configure_without_pod :
      (ssh_url scripts url password : String) (port : ℕ) (pods : List String)
      (prepared with_url with_password : World Gerrit)
      → Configure.configure env w.instance_ref w
        ≡ Configure.set_up_access env w.instance_ref ssh_url scripts port prepared
      → Connect.get_gerrit_rest_api_url env w.instance_ref prepared ≡ (ok url, with_url)
      → Connect.get_gerrit_admin_password env w.instance_ref with_url ≡ (ok password, with_password)
      → env.list_pods with_password.trace w.instance_ref.meta.namespace
          ("app=" <> w.instance_ref.meta.name)
        ≡ ok pods
      → length pods ≢ 1
      → Gerrits.configure env (component_service env retry) w
        ≡ Gerrits.after_configuration env (component_service env retry) done (record with_password {
          trace =
              Call.list_pods w.instance_ref.meta.namespace ("app=" <> w.instance_ref.meta.name)
              ∷ with_password.trace;
        })
  configure_without_pod ssh_url scripts url password port pods prepared with_url with_password h h'
        h'' answered many =
      configure_ended _ (
        h
        ∙ set_up_access_pods env w.instance_ref prepared ssh_url scripts url password port pods
            with_url with_password h' h'' answered many)
