-- ===== src/Controllers/Gerrits.antt =====
-- The Gerrit controller (controllers/gerrit/gerrit_controller.go), over the service that it is given.
pub mod Healthy
pub mod Runs
pub mod Progress
pub mod Steps
pub mod Writes
pub mod Moves
pub mod Walks
pub mod Twice
pub mod Component
pub mod Composed
pub mod Unfinished
pub mod Secrets
pub mod Kept
use mathlib.Core.Bool.{xor}
use edp_gerrit_operator.Base.{◌∷◌, ℕ, ◌*◌, String, Bool, true, inl, inr, ◌⊎◌, ◌||◌, not, ◌==◌}
use edp_gerrit_operator.Base.{string_eq, if◌then◌else◌, []}
use edp_gerrit_operator.Errors.{Error, wrap, wrapf, is_err_user_not_found}
use edp_gerrit_operator.Api.{Gerrit}
use edp_gerrit_operator.World.{Env}
use edp_gerrit_operator.Exec.{M, ◌>>=◌, ◌>>◌, pure, raise, wrapping, attempt, this, assign, traced}
use edp_gerrit_operator.Exec.{skip}
use edp_gerrit_operator.Helper.Client.{get_instance, update_instance_status}
use edp_gerrit_operator.Controllers.Common.{Result, done, second}

-- The statuses, in the order in which an instance passes through them.
abbrev pub status_install : String
status_install = "installing"

abbrev pub status_failed : String
status_failed = "failed"

abbrev pub status_created : String
status_created = "created"

abbrev pub status_configuring : String
status_configuring = "configuring"

abbrev pub status_configured : String
status_configured = "configured"

abbrev pub status_expose_start : String
status_expose_start = "exposing config"

abbrev pub status_expose_finish : String
status_expose_finish = "config exposed"

abbrev pub status_integration_start : String
status_integration_start = "integration started"

abbrev pub status_ready : String
status_ready = "ready"

-- `RequeueTime10`, `requeueTime30`; `requeueTime60` is written where it is used.
abbrev pub after_10 : Result
after_10 = record { requeue_after = 10 * second }

abbrev pub after_30 : Result
after_30 = record { requeue_after = 30 * second }

-- What the controller uses of `gerrit.Interface`. The service holds the instance by its pointer;
-- `configure` returns whether the deployment was patched and the error that came with it.
pub record GerritService : Type 0 where
  pub is_deployment_ready : M Gerrit Bool
  pub configure : M Gerrit (Bool × (Error ⊎ Unit {0}))
  pub expose_configuration : M Gerrit (Unit {0})
  -- `retry.RetryOnConflict(retry.DefaultRetry, fn)`
  pub retry_on_conflict : M Gerrit (Unit {0}) → M Gerrit (Unit {0})

abbrev pub with_status : String → ℕ → Gerrit → Gerrit
with_status s t g = record g { status = record g.status { status = s; last_time_updated = t } }

abbrev pub with_available : Bool → ℕ → Gerrit → Gerrit
with_available b t g = record g {
  status = record g.status { available = b; last_time_updated = t };
}

module _ (env : Env Gerrit) (service : GerritService) where
  -- The function that `updateStatusWithRetry` retries: on a conflict the instance is read again.
  unfoldable pub try_update : (ℕ → Gerrit → Gerrit) → M Gerrit (Unit {0})
  unfolding ◌>>=◌
  try_update mutate = do
    o ← this
    t ← traced
    assign (mutate (env.now t) o)
    o' ← this
    r ← attempt (update_instance_status env)
    elim r [
      | inr _ ↦ skip
      | inl e ↦
          if env.is_conflict e
          then get_instance env o'.meta.namespace o'.meta.name >> raise e
          else raise e
    ]

  unfoldable pub update_status_with_retry : (ℕ → Gerrit → Gerrit) → M Gerrit (Unit {0})
  unfolding ◌>>=◌
  update_status_with_retry mutate =
      wrapping "failed to update Gerrit resource" [] (service.retry_on_conflict (try_update mutate))

  unfoldable pub update_status : String → M Gerrit (Unit {0})
  unfolding update_status_with_retry
  update_status s = update_status_with_retry (with_status s)

  unfoldable pub update_available_status : Bool → M Gerrit (Unit {0})
  unfolding ◌>>=◌ update_status_with_retry
  update_available_status value = do
    o ← this
    if not (xor o.status.available value)
        then skip
        else update_status_with_retry (with_available value)

  -- `if instance.Status.Status == from { err = updateStatus(to); if err != nil { requeue } }`, and
  -- the rest of the method.
  unfoldable pub advance : (String → Bool) → String → M Gerrit Result → M Gerrit Result
  unfolding ◌>>=◌
  advance from to rest = do
    o ← this
    if from o.status.status
        then (do r ← attempt (update_status to); elim r [ inl _ ↦ pure after_10 | inr _ ↦ rest ])
        else rest

  -- The end of the method, from the exposed configuration on; the argument is the final requeue time.
  unfoldable pub finish : Result → M Gerrit Result
  unfolding ◌>>=◌
  finish final = do
    r ← attempt (update_available_status true)
    elim r [ inl _ ↦ pure after_30 | inr _ ↦ pure final ]

  unfoldable pub expose : Result → M Gerrit Result
  unfolding ◌>>=◌
  expose final = do
    r ← attempt service.expose_configuration
    elim r [
      | inl _ ↦ pure after_10
      | inr _ ↦
          advance (λ s. s == status_expose_start) status_expose_finish
            (advance (λ s. s == status_expose_finish || s == status_integration_start) status_ready
              (finish final))
    ]

  -- What follows a configuration that did not patch the deployment.
  unfoldable pub after_configuration : Result → M Gerrit Result
  unfolding ◌>>=◌
  after_configuration final = do
    o ← this
    ready ←
        wrapping "Failed to check Deployment config for %s/%s Gerrit!"
          (o.meta.namespace ∷ o.meta.name ∷ []) service.is_deployment_ready
    if not ready
        then pure after_10
        else advance (λ s. s == status_configuring) status_configured
            (advance (λ s. s == status_configured) status_expose_start (expose final))

  -- An error of the configuration ends the method, but for a missing user, which only delays the
  -- next reconciliation.
  unfoldable pub after_error : Bool → Error → M Gerrit Result
  unfolding ◌>>=◌
  after_error patched e =
      if not (is_err_user_not_found e)
      then raise (wrap "failed to configure Gerrit" e)
      else if patched
      then pure after_10
      else after_configuration (record { requeue_after = 60 * second })

  unfoldable pub configure : M Gerrit Result
  unfolding ◌>>=◌
  configure = do
    (patched, r) ← service.configure
    elim r [
      | inl e ↦ after_error patched e
      | inr _ ↦ if patched then pure after_10 else after_configuration done
    ]

  -- From the first check of the deployment on.
  unfoldable pub run : M Gerrit Result
  unfolding ◌>>=◌
  run = do
    r ← attempt service.is_deployment_ready
    elim r [
      | inl _ ↦ pure after_10
      | inr ready ↦
          if not ready
          then pure after_10
          else advance (λ s. s == status_created || s == "") status_configuring configure
    ]

  -- `if instance.Status.Status == StatusInstall`: here an error is returned.
  unfoldable pub install : M Gerrit Result
  unfolding ◌>>=◌
  install = do
    o ← this
    if o.status.status == status_install then update_status status_created >> pure after_10 else run

  unfoldable pub reconcile : String → String → M Gerrit Result
  unfolding ◌>>=◌
  reconcile namespace name = do
    r ← attempt (get_instance env namespace name)
    elim r [
      | inl e ↦
          if env.is_not_found e then pure done else raise (wrapf "failed Get Gerrit CR %q" name e)
      | inr _ ↦ advance (λ s. s == "" || s == status_failed) status_install install
    ]
