-- ===== src/Controllers/Gerrits/Twice.antt =====
-- From a new instance to a ready one (controllers/gerrit/gerrit_controller.go).
use edp_gerrit_operator.Base.{String, true, ◌≡◌, subst, sym}
use edp_gerrit_operator.Errors.{ok}
use edp_gerrit_operator.Api.{Gerrit}
use edp_gerrit_operator.World.{Env, World}
use edp_gerrit_operator.Controllers.Common.{done}
use edp_gerrit_operator.Controllers.Gerrits
use edp_gerrit_operator.Controllers.Gerrits.Healthy.{IsHealthy}
use edp_gerrit_operator.Controllers.Gerrits.Progress.{
  IsUnderWay, IsNotInstalled, reconcile_under_way, reconcile_not_installed,
}

created_under_way : (s : String) → s ≡ "created" → IsUnderWay s
created_under_way s e = subst (λ x. IsUnderWay x) (sym e) IsUnderWay.created

module _ (env : Env Gerrit) (service : Gerrits.GerritService) (healthy : IsHealthy env service)
    (namespace name : String) (w : World Gerrit) (g : Gerrit) where
  -- The world after one reconciliation.
  abbrev pub once_more : World Gerrit
  once_more = (Gerrits.reconcile env service namespace name w).1

  -- Two reconciliations are enough: where the deployment is ready, the service succeeds without a patch and leaves the
  -- status, status updates succeed at once, and the second reconciliation reads what the first one left, a new instance,
  -- a failed one and one that is being installed is ready and available, and nothing more is asked for.
  pub reconcile_twice :
      env.get w.trace namespace name ≡ ok g
      → IsNotInstalled g.status.status
      → env.get once_more.trace namespace name ≡ ok once_more.instance_ref
      → (let (r, w') = Gerrits.reconcile env service namespace name once_more in
          (r ≡ ok done)
          × (w'.instance_ref.status.status ≡ "ready")
          × (w'.instance_ref.status.available ≡ true))
  reconcile_twice found u again =
      reconcile_under_way env service healthy namespace name once_more once_more.instance_ref again
        (created_under_way _
          (reconcile_not_installed env service healthy namespace name w g found u).1)
