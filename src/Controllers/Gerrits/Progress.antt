-- ===== src/Controllers/Gerrits/Progress.antt =====
-- How an instance passes through its statuses (controllers/gerrit/gerrit_controller.go).
use edp_gerrit_operator.Base.{
  ◌∙◌, String, true, false, ◌≡◌, refl, ◌==◌, ◌||◌, string_eq, inl, inr, ◌⊎◌, ◌∷◌,
}
use edp_gerrit_operator.Errors.{ok}
use edp_gerrit_operator.Api.{Gerrit}
use edp_gerrit_operator.World.{Env, World, Call}
use edp_gerrit_operator.Exec.{◌>>=◌}
use edp_gerrit_operator.Helper.Client.{get_instance}
use edp_gerrit_operator.Controllers.Common.{done}
use edp_gerrit_operator.Controllers.Gerrits
use edp_gerrit_operator.Controllers.Gerrits.Healthy.{
  written, update_status_echo, advance_taken, advance_passed, IsHealthy,
}
use edp_gerrit_operator.Controllers.Gerrits.Runs.{run-Total, last_status}

-- The statuses of an instance that is neither new nor failed nor being installed.
pub data IsUnderWay : String → Type 0 where
  created : IsUnderWay "created"
  configuring : IsUnderWay "configuring"
  configured : IsUnderWay "configured"
  exposing : IsUnderWay "exposing config"
  exposed : IsUnderWay "config exposed"
  integrating : IsUnderWay "integration started"
  ready : IsUnderWay "ready"

-- The statuses of an instance whose installation has not begun or is to be repeated.
pub data IsNotInstalled : String → Type 0 where
  fresh : IsNotInstalled ""
  failed : IsNotInstalled "failed"
  installing : IsNotInstalled "installing"

module _ (env : Env Gerrit) (service : Gerrits.GerritService)
    (healthy : IsHealthy env service) where
  last_status_ready : (s : String) → IsUnderWay s → last_status env service healthy s ≡ "ready"
  unfolding string_eq
  last_status_ready _ created = refl
  last_status_ready _ configuring = refl
  last_status_ready _ configured = refl
  last_status_ready _ exposing = refl
  last_status_ready _ exposed = refl
  last_status_ready _ integrating = refl
  last_status_ready _ ready = refl

  install_taken :
      (w : World Gerrit)
      → (w.instance_ref.status.status == "installing") ≡ true
      → Gerrits.install env service w
        ≡ (ok Gerrits.after_10, written env (Gerrits.with_status "created") w)
  unfolding Gerrits.install ◌>>=◌
  install_taken w e = rw (e, update_status_echo env service healthy "created" w)

  install_passed :
      (w : World Gerrit)
      → (w.instance_ref.status.status == "installing") ≡ false
      → Gerrits.install env service w ≡ Gerrits.run env service w
  unfolding Gerrits.install ◌>>=◌
  install_passed w e = rw e

  -- Only a status that is not under way leads to an installation.
  under_way_passed :
      (s : String)
      → IsUnderWay s
      → ((s == "" || s == "failed") ≡ false) × ((s == "installing") ≡ false)
  unfolding string_eq
  under_way_passed _ created = (refl, refl)
  under_way_passed _ configuring = (refl, refl)
  under_way_passed _ configured = (refl, refl)
  under_way_passed _ exposing = (refl, refl)
  under_way_passed _ exposed = (refl, refl)
  under_way_passed _ integrating = (refl, refl)
  under_way_passed _ ready = (refl, refl)

  not_installed_cases :
      (s : String)
      → IsNotInstalled s
      → ((s == "" || s == "failed") ≡ true)
        ⊎ (((s == "" || s == "failed") ≡ false) × ((s == "installing") ≡ true))
  unfolding string_eq
  not_installed_cases _ fresh = inl refl
  not_installed_cases _ failed = inl refl
  not_installed_cases _ installing = inr (refl, refl)

  run_ready :
      (w : World Gerrit)
      → IsUnderWay w.instance_ref.status.status
      → (let (r, w') = Gerrits.run env service w in
          (r ≡ ok done)
          × (w'.instance_ref.status.status ≡ "ready")
          × (w'.instance_ref.status.available ≡ true))
  run_ready w u =
      let (r, e, (final, last, available)) =
        (run-Total env service healthy w.instance_ref.status.status).run w refl in
      (rw (e, final), last ∙ last_status_ready w.instance_ref.status.status u, available)

  module _ (namespace name : String) (w : World Gerrit) (g : Gerrit)
      (found : env.get w.trace namespace name ≡ ok g) where
    abbrev read : World Gerrit
    read = record w { trace = Call.get namespace name ∷ w.trace; instance_ref = g }

    reconcile_found :
        Gerrits.reconcile env service namespace name w
        ≡ Gerrits.advance env service
            (λ s. s == "" || s == "failed")
            "installing"
            (Gerrits.install env service)
            read
    unfolding Gerrits.reconcile get_instance ◌>>=◌
    reconcile_found = rw found

    -- Where the deployment is ready, the service configures and exposes the instance without an error, a patch or a
    -- change of its status, and status updates succeed at once, an instance on its way is ready and available after
    -- one reconciliation, from whichever status it had reached, and nothing more is asked for.
    pub reconcile_under_way :
        IsUnderWay g.status.status
        → (let (r, w') = Gerrits.reconcile env service namespace name w in
            (r ≡ ok done)
            × (w'.instance_ref.status.status ≡ "ready")
            × (w'.instance_ref.status.available ≡ true))
    reconcile_under_way u =
        let (a, b) = under_way_passed g.status.status u in
        rw
          (
            reconcile_found,
            advance_passed env service healthy (λ s. s == "" || s == "failed") "installing"
                (Gerrits.install env service) read a,
            install_passed read b,
          )
          (run_ready read u)

    -- A new instance, a failed one and one that is being installed is created after one reconciliation,
    -- which asks for another in ten seconds.
    pub reconcile_not_installed :
        IsNotInstalled g.status.status
        → (let (r, w') = Gerrits.reconcile env service namespace name w in
            (r ≡ ok Gerrits.after_10) × (w'.instance_ref.status.status ≡ "created"))
    unfolding string_eq
    reconcile_not_installed u = elim (not_installed_cases g.status.status u) [
      | inl e ↦
          rw
            (
              reconcile_found,
              advance_taken env service healthy (λ s. s == "" || s == "failed") "installing"
                  (Gerrits.install env service) read e,
              install_taken (written env (Gerrits.with_status "installing") read) refl,
            )
            (refl, refl)
      | inr (e, e') ↦
          rw
            (
              reconcile_found,
              advance_passed env service healthy (λ s. s == "" || s == "failed") "installing"
                  (Gerrits.install env service) read e,
              install_taken read e',
            )
            (refl, refl)
    ]
