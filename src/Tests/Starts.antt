-- ===== src/Tests/Starts.antt =====
-- The theorems on the life of an instance, with the service that the Gerrit controller is started with.
use edp_gerrit_operator.Base.{if◌then◌else◌}
use edp_gerrit_operator.Base.{String, Bool, true, false, [], ◌∷◌, ◌≡◌, refl, string_eq}
use edp_gerrit_operator.Errors.{Outcome, ok, err}
use edp_gerrit_operator.Api.{Gerrit}
use edp_gerrit_operator.World.{Env, World, Trace, Call}
use edp_gerrit_operator.Exec
use edp_gerrit_operator.Exec.{M}
use edp_gerrit_operator.Helper.Client
use edp_gerrit_operator.Controllers.Common.{done}
use edp_gerrit_operator.Controllers.Gerrits
use edp_gerrit_operator.Controllers.Gerrits.Progress
use edp_gerrit_operator.Controllers.Gerrits.Progress.{IsUnderWay, IsNotInstalled}
use edp_gerrit_operator.Controllers.Gerrits.Twice
use edp_gerrit_operator.Controllers.Gerrits.Composed
use edp_gerrit_operator.Tests.Samples.{gerrit, connected, unreachable}
use edp_gerrit_operator.Controllers.Gerrits.Component.{component_service}
use edp_gerrit_operator.Tests.Lives.{once}
use edp_gerrit_operator.Tests.Whole.{served, healthy}

reconcile_under_way_example :
    (let env = served (λ _. gerrit "configured") in
      let (r, w') =
        Gerrits.reconcile env (component_service env once) "edp" "gerrit" (connected (gerrit "")) in
      (r ≡ ok done)
      × (w'.instance_ref.status.status ≡ "ready")
      × (w'.instance_ref.status.available ≡ true))
reconcile_under_way_example =
    Progress.reconcile_under_way (served (λ _. gerrit "configured"))
      (component_service (served (λ _. gerrit "configured")) once)
      (healthy (λ _. gerrit "configured")) "edp" "gerrit" (connected (gerrit ""))
      (gerrit "configured") refl IsUnderWay.configured

-- A Gerrit that is read as it was written last.
abbrev last_written : String → Trace Gerrit → Gerrit
last_written status (Call.update_status g ∷ t) = g
last_written status _ = gerrit status

abbrev remembering : Env Gerrit
remembering = served (last_written "failed")

reconcile_twice_example :
    (let service = component_service remembering once in
      let w = (Gerrits.reconcile remembering service "edp" "gerrit" (connected (gerrit ""))).1 in
      let (r, w') = Gerrits.reconcile remembering service "edp" "gerrit" w in
      (r ≡ ok done)
      × (w'.instance_ref.status.status ≡ "ready")
      × (w'.instance_ref.status.available ≡ true))
unfolding component_service Gerrits.reconcile Gerrits.advance Gerrits.install Gerrits.update_status
    Gerrits.update_status_with_retry Gerrits.try_update Client.get_instance
    Client.update_instance_status Exec.◌>>=◌ string_eq
reconcile_twice_example =
    Twice.reconcile_twice remembering (component_service remembering once)
      (healthy (last_written "failed")) "edp" "gerrit" (connected (gerrit "")) (gerrit "failed")
      refl IsNotInstalled.failed refl

-- A cluster that refuses the first update of a status by a conflict, and a retry that runs the function once more.
abbrev is_first : Trace Gerrit → Bool
is_first (Call.get _ _ ∷ []) = true
is_first _ = false

abbrev contended : Env Gerrit
contended = record (served (λ _. gerrit "failed")) {
  update_status = λ t g. if is_first t then err unreachable else ok g;
  is_conflict = λ _. true;
}

abbrev run_again :
    M Gerrit (Unit {0}) → Outcome (Unit {0}) × World Gerrit → Outcome (Unit {0}) × World Gerrit
run_again m (err _, w) = m w
run_again m (r, w) = (r, w)

abbrev twice : M Gerrit (Unit {0}) → M Gerrit (Unit {0})
twice m w = run_again m (m w)
