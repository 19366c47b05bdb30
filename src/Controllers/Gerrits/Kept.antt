-- ===== src/Controllers/Gerrits/Kept.antt =====
-- What the service and the calls at the instance keep, the Gerrit controller keeps
-- (controllers/gerrit/gerrit_controller.go).
use edp_gerrit_operator.Base.{ℕ, String, Bool, inl, inr, ◌⊎◌, if◌then◌else◌}
use edp_gerrit_operator.Errors.{Error}
use edp_gerrit_operator.Api.{Gerrit}
use edp_gerrit_operator.World.{Env, World}
use edp_gerrit_operator.Exec.{M, ◌>>◌, pure, raise, skip, assign}
use edp_gerrit_operator.Exec.Keeps.{
  Keeps, keeps_rules, bind-Keeps, attempt-Keeps, this-Keeps, traced-Keeps,
}
use edp_gerrit_operator.Helper.Client.{get_instance, update_instance_status}
use edp_gerrit_operator.Controllers.Common.{Result}
use edp_gerrit_operator.Controllers.Gerrits
use edp_gerrit_operator.Controllers.Gerrits.{GerritService}

module _ (env : Env Gerrit) (service : GerritService) {P : World Gerrit → Type 0}
    (got : (namespace name : String) → Keeps P (get_instance env namespace name))
    (wrote : Keeps P (update_instance_status env)) (assigned : (g : Gerrit) → Keeps P (assign g))
    (ready : Keeps P service.is_deployment_ready) (configured : Keeps P service.configure)
    (exposed : Keeps P service.expose_configuration)
    (retried : (m : M Gerrit (Unit {0})) → Keeps P m → Keeps P (service.retry_on_conflict m)) where
  again-Keeps :
      (o : Gerrit) (r : Error ⊎ Unit {0})
      → Keeps P (elim r as (λ _. M Gerrit (Unit {0})) [
        | inr _ ↦ skip
        | inl e ↦
            if env.is_conflict e
            then get_instance env o.meta.namespace o.meta.name >> raise e
            else raise e
      ])
  again-Keeps o (inl e) = search (keeps_rules, got)
  again-Keeps o (inr _) = search keeps_rules

  try_update-Keeps : (f : ℕ → Gerrit → Gerrit) → Keeps P (Gerrits.try_update env service f)
  unfolding Gerrits.try_update
  try_update-Keeps f = bind-Keeps _ _ this-Keeps λ o. bind-Keeps _ _ traced-Keeps λ t.
      bind-Keeps _ _ (assigned (f (env.now t) o))
        λ _. bind-Keeps _ _ this-Keeps λ o'. bind-Keeps _ _ (attempt-Keeps _ wrote) (again-Keeps o')

  write-Keeps : (f : ℕ → Gerrit → Gerrit) → Keeps P (Gerrits.update_status_with_retry env service f)
  unfolding Gerrits.update_status_with_retry
  write-Keeps f = search (keeps_rules, retried, try_update-Keeps)

  update_status-Keeps : (s : String) → Keeps P (Gerrits.update_status env service s)
  unfolding Gerrits.update_status
  update_status-Keeps s = write-Keeps _

  update_available_status-Keeps :
      (b : Bool) → Keeps P (Gerrits.update_available_status env service b)
  unfolding Gerrits.update_available_status
  update_available_status-Keeps b = search (keeps_rules, write-Keeps)

  advance-Keeps :
      (from : String → Bool) (to : String) (rest : M Gerrit Result)
      → Keeps P rest
      → Keeps P (Gerrits.advance env service from to rest)
  unfolding Gerrits.advance
  advance-Keeps from to rest k = search (keeps_rules, update_status-Keeps) depth 14

  ruleset kept = (keeps_rules, advance-Keeps, update_status-Keeps, update_available_status-Keeps)

  finish-Keeps : (final : Result) → Keeps P (Gerrits.finish env service final)
  unfolding Gerrits.finish
  finish-Keeps final = search kept

  expose-Keeps : (final : Result) → Keeps P (Gerrits.expose env service final)
  unfolding Gerrits.expose
  expose-Keeps final = search (kept, finish-Keeps) depth 14

  after_configuration-Keeps :
      (final : Result) → Keeps P (Gerrits.after_configuration env service final)
  unfolding Gerrits.after_configuration
  after_configuration-Keeps final = search (kept, expose-Keeps) depth 14

  after_error-Keeps : (b : Bool) (e : Error) → Keeps P (Gerrits.after_error env service b e)
  unfolding Gerrits.after_error
  after_error-Keeps b e = search (kept, after_configuration-Keeps) depth 14

  after_configure-Keeps :
      (b : Bool) (r : Error ⊎ Unit {0})
      → Keeps P (elim r as (λ _. M Gerrit Result) [
        | inl e ↦ Gerrits.after_error env service b e
        | inr _ ↦
            if b
            then pure Gerrits.after_10
            else Gerrits.after_configuration env service (record { requeue_after = 0 })
      ])
  after_configure-Keeps b (inl e) = after_error-Keeps b e
  after_configure-Keeps b (inr _) = search (kept, after_configuration-Keeps)

  configure-Keeps : Keeps P (Gerrits.configure env service)
  unfolding Gerrits.configure
  configure-Keeps = bind-Keeps _ _ configured (λ p. after_configure-Keeps p.0 p.1)

  run-Keeps : Keeps P (Gerrits.run env service)
  unfolding Gerrits.run
  run-Keeps = search (kept, configure-Keeps) depth 14

  install-Keeps : Keeps P (Gerrits.install env service)
  unfolding Gerrits.install
  install-Keeps = search (kept, run-Keeps) depth 14

  pub reconcile-Keeps :
      (namespace name : String) → Keeps P (Gerrits.reconcile env service namespace name)
  unfolding Gerrits.reconcile
  reconcile-Keeps namespace name = search (kept, got, install-Keeps) depth 14
