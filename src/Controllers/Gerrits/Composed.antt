-- ===== src/Controllers/Gerrits/Composed.antt =====
-- The Gerrit controller with the service that it is started with
-- (controllers/gerrit/gerrit_controller.go, pkg/service/gerrit/gerrit.go).
use edp_gerrit_operator.World.{World}
use edp_gerrit_operator.Exec.Keeps.{Keeps}
use edp_gerrit_operator.Service.Connect
use edp_gerrit_operator.Service.Expose
use edp_gerrit_operator.Controllers.Gerrits
