-- ===== src/Controllers/Gerrits/Healthy.antt =====
-- The Gerrit controller where nothing goes wrong: what its status updates and its steps leave
-- (controllers/gerrit/gerrit_controller.go).
use mathlib.Core.Bool.{xor}
use edp_gerrit_operator.Base.{
  List, ℕ, String, Bool, true, false, ◌≡◌, string_eq, if◌then◌else◌, inl, inr, ◌∷◌, Bool-cases,
}
use edp_gerrit_operator.Errors.{ok}
use edp_gerrit_operator.Api.{Gerrit}
use edp_gerrit_operator.World.{Env, World, Trace, Call}
use edp_gerrit_operator.Exec.{M, wrapping, ◌>>=◌}
use edp_gerrit_operator.Helper.Client.{update_instance_status}
use edp_gerrit_operator.Controllers.Common.{Result}
use edp_gerrit_operator.Controllers.Gerrits

-- The code returns `a` and leaves the status of the instance, whatever else it writes into it.
abbrev pub Returns : {A : Type 0} → M Gerrit A → A → Type 0
Returns m a =
    (w : World Gerrit) → ((m w).0 ≡ ok a) × ((m w).1.instance_ref.status ≡ w.instance_ref.status)

-- Nothing goes wrong: status updates are taken as they are sent, a retried function that succeeds is not
-- run again, the deployment is ready, and the service configures and exposes the instance without patching it.
pub record IsHealthy (env : Env Gerrit) (service : Gerrits.GerritService) : Type 0 where
  pub echo : (t : Trace Gerrit) (g : Gerrit) → env.update_status t g ≡ ok g
  pub once :
      (m : M Gerrit (Unit {0})) (w : World Gerrit)
      → (m w).0 ≡ ok tt
      → service.retry_on_conflict m w ≡ m w
  pub ready : Returns service.is_deployment_ready true
  pub configured : Returns service.configure (false, inr tt)
  pub exposed : Returns service.expose_configuration tt

abbrev pub At : String → Gerrit → Type 0
At s g = g.status.status ≡ s

pub Returns-wrapping :
    {A : Type 0} (text : String) (args : List String) (m : M Gerrit A) (a : A)
    → Returns m a
    → Returns (wrapping text args m) a
unfolding ◌>>=◌
Returns-wrapping text args m a h = λ w. let (e, same) = h w in (rw e, same)

-- The world after a status update that changes the instance by `mutate`.
abbrev pub written : Env Gerrit → (ℕ → Gerrit → Gerrit) → World Gerrit → World Gerrit
written env mutate w =
    let g = mutate (env.now w.trace) w.instance_ref in
    record w { trace = Call.update_status g ∷ w.trace; instance_ref = g }

module _ (env : Env Gerrit) (service : Gerrits.GerritService)
    (healthy : IsHealthy env service) where
  pub try_update_echo :
      (mutate : ℕ → Gerrit → Gerrit) (w : World Gerrit)
      → Gerrits.try_update env service mutate w ≡ (
          let g = mutate (env.now w.trace) w.instance_ref in
          (ok tt, record w { trace = Call.update_status g ∷ w.trace; instance_ref = g }))
  unfolding Gerrits.try_update update_instance_status ◌>>=◌
  try_update_echo mutate w = rw healthy.echo

  pub update_status_with_retry_echo :
      (mutate : ℕ → Gerrit → Gerrit) (w : World Gerrit)
      → Gerrits.update_status_with_retry env service mutate w ≡ (ok tt, written env mutate w)
  unfolding Gerrits.update_status_with_retry ◌>>=◌
  update_status_with_retry_echo mutate w =
      rw (
        healthy.once (Gerrits.try_update env service mutate) w (rw try_update_echo),
        try_update_echo,
      )

  pub update_status_echo :
      (to : String) (w : World Gerrit)
      → Gerrits.update_status env service to w ≡ (ok tt, written env (Gerrits.with_status to) w)
  unfolding Gerrits.update_status
  update_status_echo to w = update_status_with_retry_echo (Gerrits.with_status to) w

  pub update_available_status_echo :
      (w : World Gerrit)
      → Gerrits.update_available_status env service true w ≡ (
        ok tt,
        if w.instance_ref.status.available then w else written env (Gerrits.with_available true) w,
      )
  unfolding Gerrits.update_available_status ◌>>=◌ xor
  update_available_status_echo w = elim (Bool-cases w.instance_ref.status.available) [
    | inl e ↦ rw e
    | inr e ↦ rw (e, update_status_with_retry_echo (Gerrits.with_available true))
  ]

  module _ (from : String → Bool) (to : String) (rest : M Gerrit Result) (w : World Gerrit) where
    pub advance_taken :
        from w.instance_ref.status.status ≡ true
        → Gerrits.advance env service from to rest w ≡ rest (written env (Gerrits.with_status to) w)
    unfolding Gerrits.advance ◌>>=◌
    advance_taken e = rw (e, update_status_echo to w)

    pub advance_passed :
        from w.instance_ref.status.status ≡ false
        → Gerrits.advance env service from to rest w ≡ rest w
    unfolding Gerrits.advance ◌>>=◌
    advance_passed e = rw e
