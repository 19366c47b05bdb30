-- ===== src/Controllers/Gerrits/Runs.antt =====
-- A reconciliation of an instance that is installed, from the check of the deployment on
-- (controllers/gerrit/gerrit_controller.go).
use edp_gerrit_operator.Base.{
  ◌∷◌, [], String, Bool, true, false, ◌≡◌, refl, ◌==◌, ◌||◌, string_eq, if◌then◌else◌, arith, inl,
  inr, ◌⊎◌, Bool-cases,
}
use edp_gerrit_operator.Errors.{Error}
use edp_gerrit_operator.Api.{Gerrit}
use edp_gerrit_operator.World.{Env, World}
use edp_gerrit_operator.Exec.{this, wrapping, M, attempt, ◌>>=◌}
use edp_gerrit_operator.Exec.Total.{Total}
use edp_gerrit_operator.Controllers.Common.{Result, done}
use edp_gerrit_operator.Controllers.Gerrits
use edp_gerrit_operator.Controllers.Gerrits.Healthy.{
  Returns-wrapping, written, update_available_status_echo, advance_taken, advance_passed, Returns,
  IsHealthy, At,
}

-- The status after a step that leads from some statuses to another.
abbrev pub step : (String → Bool) → String → String → String
step from to s = if from s then to else s

module _ (env : Env Gerrit) (service : Gerrits.GerritService)
    (healthy : IsHealthy env service) where
  module _ {Q : Result → Gerrit → Type 0} where
    advance-Total :
        (from : String → Bool) (to s : String) (rest : M Gerrit Result)
        → Total (At (step from to s)) rest Q
        → Total (At s) (Gerrits.advance env service from to rest) Q
    advance-Total from to s rest t = record {
      run = λ w p. elim (Bool-cases (from s)) [
        | inl e ↦
            rw (advance_taken env service healthy from to rest w (rw (p, e)))
              (t.run (written env (Gerrits.with_status to) w) (rw e))
        | inr e ↦
            rw (advance_passed env service healthy from to rest w (rw (p, e))) (t.run w (rw (p, e)))
      ];
    }

    this-Total :
        (s : String) (f : Gerrit → M Gerrit Result)
        → ((o : Gerrit) → Total (At s) (f o) Q)
        → Total (At s) (this >>= f) Q
    unfolding ◌>>=◌
    this-Total s f t = record { run = λ w p. (t w.instance_ref).run w p }

    -- Code that asks the service goes on with what the service returns.
    service-Total :
        {A : Type 0} (m : M Gerrit A) (a : A) (s : String) (f : A → M Gerrit Result)
        → Returns m a
        → Total (At s) (f a) Q
        → Total (At s) (m >>= f) Q
    unfolding ◌>>=◌
    service-Total m a s f h t = record {
      run = λ w p. let (e, same) = h w in rw e (t.run (m w).1 (rw (same, p)));
    }

    attempt-Total :
        {A : Type 0} (m : M Gerrit A) (a : A) (s : String) (f : Error ⊎ A → M Gerrit Result)
        → Returns m a
        → Total (At s) (f (inr a)) Q
        → Total (At s) (attempt m >>= f) Q
    unfolding ◌>>=◌
    attempt-Total m a s f h t = record {
      run = λ w p. let (e, same) = h w in rw e (t.run (m w).1 (rw (same, p)));
    }

  abbrev pub Finished : Result → String → Result → Gerrit → Type 0
  Finished final s r g = (r ≡ final) × (g.status.status ≡ s) × (g.status.available ≡ true)

  after_available :
      (s : String) (w : World Gerrit)
      → At s w.instance_ref
      → (let w' =
            if w.instance_ref.status.available
            then w
            else written env (Gerrits.with_available true) w in
          (w'.instance_ref.status.status ≡ s) × (w'.instance_ref.status.available ≡ true))
  after_available s w p = ground arith

  finish-Total :
      (final : Result) (s : String)
      → Total (At s) (Gerrits.finish env service final) (Finished final s)
  unfolding Gerrits.finish ◌>>=◌
  finish-Total final s = record {
    run = λ w p. (
      final,
      rw (update_available_status_echo env service healthy),
      rw (update_available_status_echo env service healthy)
          (let (a, b) = after_available s w p in (refl, a, b)),
    );
  }

  -- The status in which a configured instance ends.
  abbrev pub last_status : String → String
  last_status s =
      step (λ t. t == "config exposed" || t == "integration started") "ready"
        (step (λ t. t == "exposing config") "config exposed"
          (step (λ t. t == "configured") "exposing config"
            (step (λ t. t == "configuring") "configured"
              (step (λ t. t == "created" || t == "") "configuring" s))))

  pub run-Total :
      (s : String) → Total (At s) (Gerrits.run env service) (Finished done (last_status s))
  unfolding Gerrits.run Gerrits.configure Gerrits.after_configuration Gerrits.expose
  run-Total s = attempt-Total _ true s _ healthy.ready (
      advance-Total _ _ _ _ (
        service-Total _ (false, inr tt) _ _ healthy.configured
          (this-Total _ _ (λ o.
            service-Total
              (wrapping "Failed to check Deployment config for %s/%s Gerrit!"
                (o.meta.namespace ∷ o.meta.name ∷ []) service.is_deployment_ready)
              true _ _ (Returns-wrapping _ _ service.is_deployment_ready true healthy.ready)
              (advance-Total _ _ _ _ (
                advance-Total _ _ _ _ (
                  attempt-Total _ tt _ _ healthy.exposed
                    (advance-Total _ _ _ _ (advance-Total _ _ _ _ (finish-Total done _))))))))))
