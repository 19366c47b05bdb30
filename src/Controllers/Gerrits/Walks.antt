-- ===== src/Controllers/Gerrits/Walks.antt =====
-- One reconciliation is a walk along the life of an instance (controllers/gerrit/gerrit_controller.go).
use edp_gerrit_operator.Base.{
  String, Bool, true, false, ◌∷◌, ◌≡◌, refl, ◌==◌, ◌||◌, not, string_eq, if◌then◌else◌, inl, inr,
  ◌⊎◌, Bool-cases,
}
use edp_gerrit_operator.Errors.{Error, ok}
use edp_gerrit_operator.Api.{Gerrit}
use edp_gerrit_operator.World.{Env, World, Trace, Call}
use edp_gerrit_operator.Exec.{M, ◌>>=◌, pure}
use edp_gerrit_operator.Exec.Keeps.{
  Keeps, keeps_rules, attempt_from, bind-Keeps, pure-Keeps, wrapping-Keeps, attempt_bind-Keeps,
  this-Keeps, if-Keeps, bind_from,
}
use edp_gerrit_operator.Helper.Client.{get_instance}
use edp_gerrit_operator.Controllers.Common.{Result}
use edp_gerrit_operator.Controllers.Gerrits
use edp_gerrit_operator.Controllers.Gerrits.Steps.{Step, Walk, Walked, Walked-weaken}
use edp_gerrit_operator.Controllers.Gerrits.Writes.{IsCalm}
use edp_gerrit_operator.Controllers.Gerrits.Moves.{
  Any, NotNew, UnderWay, from_created, from_test, from_tests, IsModest, advance-Walked,
  advance-Keeps, update_status-Updated, update_available_status-Walked,
}

module _ (env : Env Gerrit) (service : Gerrits.GerritService)
    (calm : IsCalm env service.retry_on_conflict) (modest : IsModest env service)
    {base : Trace Gerrit} {s : String} where
  finish-Walked :
      (final : Result) → Keeps (Walked env base s Any) (Gerrits.finish env service final)
  unfolding Gerrits.finish
  finish-Walked final = search (keeps_rules, update_available_status-Walked env service calm)

  expose-Walked :
      (final : Result) → Keeps (Walked env base s Any) (Gerrits.expose env service final)
  unfolding Gerrits.expose
  expose-Walked final =
      attempt_bind-Keeps _ _ modest.exposed (λ _. pure-Keeps _)
        (λ _.
          advance-Keeps env service calm (λ s. s == Gerrits.status_expose_start) _ _
            (λ x. from_test x _ _ Step.exposed)
            (advance-Keeps env service calm
              (λ s. s == Gerrits.status_expose_finish || s == Gerrits.status_integration_start) _ _
              (λ x. from_tests x _ _ _ Step.finish Step.integrate) (finish-Walked final)))

  configured-Walked :
      (final : Result)
      → Keeps (Walked env base s Any) (
          Gerrits.advance env service
            (λ s. s == Gerrits.status_configuring)
            Gerrits.status_configured
            (Gerrits.advance env service
              (λ s. s == Gerrits.status_configured)
              Gerrits.status_expose_start
              (Gerrits.expose env service final)))
  configured-Walked final =
      advance-Keeps env service calm (λ s. s == Gerrits.status_configuring) _ _
        (λ x. from_test x _ _ Step.configured)
        (advance-Keeps env service calm (λ s. s == Gerrits.status_configured) _ _
          (λ x. from_test x _ _ Step.expose) (expose-Walked final))

  after_configuration-Walked :
      (final : Result)
      → Keeps (Walked env base s Any) (Gerrits.after_configuration env service final)
  unfolding Gerrits.after_configuration
  after_configuration-Walked final = bind-Keeps _ _ this-Keeps (λ o.
      bind-Keeps _ _ (wrapping-Keeps _ _ _ modest.ready)
        (λ ready. if-Keeps (not ready) _ _ (λ _. pure-Keeps _) (λ _. configured-Walked final)))

  after_error-Walked :
      (b : Bool) (e : Error) → Keeps (Walked env base s Any) (Gerrits.after_error env service b e)
  unfolding Gerrits.after_error
  after_error-Walked b e = search (keeps_rules, after_configuration-Walked) depth 14

  after_configure-Walked :
      (b : Bool) (r : Error ⊎ Unit {0})
      → Keeps (Walked env base s Any) (elim r as (λ _. M Gerrit Result) [
        | inl e ↦ Gerrits.after_error env service b e
        | inr _ ↦
            if b
            then pure Gerrits.after_10
            else Gerrits.after_configuration env service (record { requeue_after = 0 })
      ])
  after_configure-Walked b (inl e) = search (keeps_rules, after_error-Walked)
  after_configure-Walked b (inr _) = search (keeps_rules, after_configuration-Walked)

  configure-Walked : Keeps (Walked env base s Any) (Gerrits.configure env service)
  unfolding Gerrits.configure
  configure-Walked = bind-Keeps _ _ modest.configured (λ p. after_configure-Walked p.0 p.1)

  -- The instance is ready to be configured.
  begin_configuration :
      (w : World Gerrit)
      → Walked env base s UnderWay w
      → Walked env base s Any
          (Gerrits.advance env service
            (λ s. s == Gerrits.status_created || s == "")
            Gerrits.status_configuring
            (Gerrits.configure env service)
            w).1
  begin_configuration =
      advance-Walked env service calm {C = UnderWay} {D = Any} _ _ _ from_created tt (λ _ _ _. tt)
        configure-Walked.at

  run_ready-Walked :
      (ready : Bool) (w : World Gerrit)
      → Walked env base s UnderWay w
      → Walked env base s Any
          ((if not ready
              then pure Gerrits.after_10
              else Gerrits.advance env service
                  (λ s. s == Gerrits.status_created || s == "")
                  Gerrits.status_configuring
                  (Gerrits.configure env service))
            w).1
  unfolding ◌>>=◌
  run_ready-Walked true w k = begin_configuration w k
  run_ready-Walked false w k = Walked-weaken w (λ _ _. tt) k

  run-Walked :
      (w : World Gerrit)
      → Walked env base s UnderWay w
      → Walked env base s Any (Gerrits.run env service w).1
  unfolding Gerrits.run ◌>>=◌
  run-Walked w k =
      attempt_from {P = Walked env base s UnderWay} service.is_deployment_ready _
        (λ v h. Walked-weaken v (λ _ _. tt) h) (λ _ v h. Walked-weaken v (λ _ _. tt) h)
        run_ready-Walked w (modest.ready.at w k)

  install-Walked :
      (w : World Gerrit)
      → Walked env base s NotNew w
      → Walked env base s Any (Gerrits.install env service w).1
  unfolding Gerrits.install ◌>>=◌
  install-Walked w k = elim (Bool-cases (w.instance_ref.status.status == "installing")) [
    | inl e ↦ rw e (
        bind_from {P = Walked env base s Any} (Gerrits.update_status env service "created")
          (λ _. pure Gerrits.after_10) w
          (let left =
              update_status-Updated env service calm {D = Any} w k "created"
                (from_test _ _ _ Step.create e) tt in
            record { walk = left.walks; side = tt })
          (λ _. pure-Keeps _))
    | inr e ↦ rw e (run-Walked w (record { walk = k.walk; side = (k.side, e) }))
  ]

  begin_installation :
      (w : World Gerrit)
      → Walked env base s Any w
      → Walked env base s Any
          (Gerrits.advance env service
            (λ s. s == "" || s == Gerrits.status_failed)
            Gerrits.status_install
            (Gerrits.install env service)
            w).1
  unfolding string_eq
  begin_installation =
      advance-Walked env service calm {C = Any} {D = NotNew} _ _ _
        (λ x h _. from_tests x "" "failed" _ Step.install Step.reinstall h) refl (λ _ e _. e)
        install-Walked

-- One reconciliation, seen from the calls before it and the instance that it read.
module _ (env : Env Gerrit) (service : Gerrits.GerritService)
    (calm : IsCalm env service.retry_on_conflict) (modest : IsModest env service)
    (namespace name : String) (w : World Gerrit) (g : Gerrit)
    (found : env.get w.trace namespace name ≡ ok g) where
  pub reconcile_walks :
      (let w' = (Gerrits.reconcile env service namespace name w).1 in
        Walk env
          (Call.get namespace name ∷ w.trace)
          g.status.status
          w'.trace
          w'.instance_ref.status.status)
  unfolding Gerrits.reconcile get_instance ◌>>=◌
  reconcile_walks =
      let read : World Gerrit = record w {
        trace = Call.get namespace name ∷ w.trace;
        instance_ref = g;
      } in
      rw found
        (begin_installation env service calm modest read
          (record { walk = Walk.begin; side = tt })).walk
