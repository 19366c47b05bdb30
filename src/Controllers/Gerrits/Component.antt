-- ===== src/Controllers/Gerrits/Component.antt =====
-- The service that the Gerrit controller is started with (`NewReconcileGerrit`
-- of controllers/gerrit/gerrit_controller.go), from the parts of pkg/service/gerrit/gerrit.go.
use edp_gerrit_operator.Api.{Gerrit}
use edp_gerrit_operator.World.{Env}
use edp_gerrit_operator.Exec.{M, ◌>>=◌, this}
use edp_gerrit_operator.Service.Configure
use edp_gerrit_operator.Service.Expose
use edp_gerrit_operator.Controllers.Gerrits.{GerritService}

-- `retry` is `retry.RetryOnConflict(retry.DefaultRetry, ...)`.
unfoldable pub component_service :
    Env Gerrit → (M Gerrit (Unit {0}) → M Gerrit (Unit {0})) → GerritService
component_service env retry = record {
  is_deployment_ready = this >>= Configure.is_deployment_ready env;
  configure = this >>= λ g. Configure.configured env (Configure.configure env g);
  expose_configuration = Expose.expose_configuration env;
  retry_on_conflict = retry;
}
