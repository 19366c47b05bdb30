-- ===== src/Controllers/Gerrits/Secrets.antt =====
-- The secrets that a reconciliation of an instance creates (controllers/gerrit/gerrit_controller.go,
-- pkg/service/gerrit/gerrit.go, pkg/service/platform/k8s/k8s.go).
use edp_gerrit_operator.Base.{String}
use edp_gerrit_operator.Errors.{Outcome}
use edp_gerrit_operator.Api.{Gerrit}
use edp_gerrit_operator.World.{Env, World, Call, Trace}
use edp_gerrit_operator.Exec.{M, ◌>>=◌, call, assign}
use edp_gerrit_operator.Exec.Keeps.{Keeps, keeps_rules, bind-Keeps, this-Keeps}
use edp_gerrit_operator.Helper.Client.{get_instance, update_instance, update_instance_status}
use edp_gerrit_operator.Service.Expose
use edp_gerrit_operator.Service.Apart.Whole.{
  is_deployment_ready-Keeps, configured-Keeps, configure-Keeps, expose_configuration-Keeps,
}
use edp_gerrit_operator.Service.Secrets.{Careful, Careful-IsApart, Guarded}
use edp_gerrit_operator.Controllers.Gerrits
use edp_gerrit_operator.Controllers.Gerrits.Component.{component_service}
use edp_gerrit_operator.Controllers.Gerrits.Kept.{reconcile-Keeps}

module _ (env : Env Gerrit) where
  get-Careful :
      {A : Type 0} (namespace name : String) (f : Trace Gerrit → Outcome A)
      → Keeps (Careful env) (call (Call.get namespace name) f)
  unfolding ◌>>=◌
  get-Careful namespace name f = record { at = λ w k. record { guarded = k.guarded } }

  update-Careful :
      {A : Type 0} (g : Gerrit) (f : Trace Gerrit → Outcome A)
      → Keeps (Careful env) (call (Call.update g) f)
  unfolding ◌>>=◌
  update-Careful g f = record { at = λ w k. record { guarded = k.guarded } }

  update_status-Careful :
      {A : Type 0} (g : Gerrit) (f : Trace Gerrit → Outcome A)
      → Keeps (Careful env) (call (Call.update_status g) f)
  unfolding ◌>>=◌
  update_status-Careful g f = record { at = λ w k. record { guarded = k.guarded } }

  assign-Careful : (g : Gerrit) → Keeps (Careful env) (assign g)
  unfolding ◌>>=◌
  assign-Careful g = record { at = λ w k. record { guarded = k.guarded } }

  ruleset careful =
      (keeps_rules, get-Careful, update-Careful, update_status-Careful, assign-Careful)

  got : (namespace name : String) → Keeps (Careful env) (get_instance env namespace name)
  unfolding get_instance
  got namespace name = search careful

  updated : Keeps (Careful env) (update_instance env)
  unfolding update_instance
  updated = search careful

  wrote : Keeps (Careful env) (update_instance_status env)
  unfolding update_instance_status
  wrote = search careful

  noted : (suffix value : String) → Keeps (Careful env) (Expose.annotate env suffix value)
  unfolding Expose.annotate
  noted suffix value = search careful

  -- Where `RetryOnConflict` does nothing but call the function that it is given, a reconciliation of an instance
  -- creates a secret only where the call just before asked for this secret and found none, whatever the cluster and
  -- Gerrit answer and however the reconciliation ends. The calls made before it are taken to be so too.
  pub reconcile-Guarded :
      (retry : M Gerrit (Unit {0}) → M Gerrit (Unit {0}))
      → ((m : M Gerrit (Unit {0})) → Keeps (Careful env) m → Keeps (Careful env) (retry m))
      → (namespace name : String) (w : World Gerrit) → Guarded env w.trace
      → Guarded env (Gerrits.reconcile env (component_service env retry) namespace name w).1.trace
  unfolding component_service
  reconcile-Guarded retry retried namespace name w guarded =
      ((reconcile-Keeps env (component_service env retry) got wrote assign-Careful
          (bind-Keeps _ _ this-Keeps (λ g. is_deployment_ready-Keeps env (Careful-IsApart env) g))
          (bind-Keeps _ _ this-Keeps (λ g.
            configured-Keeps env (Careful-IsApart env) _
              (configure-Keeps env (Careful-IsApart env) g)))
          (expose_configuration-Keeps env (Careful-IsApart env) noted updated) retried namespace
          name).at
        w (record { guarded = guarded })).guarded
