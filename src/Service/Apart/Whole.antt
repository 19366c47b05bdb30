-- ===== src/Service/Apart/Whole.antt =====
-- `Configure` leaves the instance alone, and `ExposeConfiguration` but for its annotations and its updates
-- (pkg/service/gerrit/gerrit.go).
use edp_gerrit_operator.Base.{ℕ, String, Bool, List, [], ◌∷◌}
use edp_gerrit_operator.Api.{Gerrit}
use edp_gerrit_operator.World.{Env, World}
use edp_gerrit_operator.Exec.{M, wrapping}
use edp_gerrit_operator.Exec.Keeps.{Keeps, wrapping-Keeps}
use edp_gerrit_operator.Exec.Apart.{IsApart}
use edp_gerrit_operator.Helper.Client.{update_instance}
use edp_gerrit_operator.Service.Configure
use edp_gerrit_operator.Service.Configure.{Site}
use edp_gerrit_operator.Service.Expose
use edp_gerrit_operator.Service.Apart.Access.{access_rules}

module _ {O : Type 0} (env : Env O) {P : World O → Type 0} (apart : IsApart env P) where
  pub is_deployment_ready-Keeps : (g : Gerrit) → Keeps P (Configure.is_deployment_ready env g)
  unfolding Configure.is_deployment_ready
  is_deployment_ready-Keeps g = search access_rules

  create_groups-Keeps : (g : Gerrit) (site : Site) → Keeps P (Configure.create_groups env g site)
  unfolding Configure.create_groups
  create_groups-Keeps g site = search access_rules depth 20

  ensure_groups-Keeps :
      (g : Gerrit) (site : Site) (key : String) → Keeps P (Configure.ensure_groups env g site key)
  unfolding Configure.ensure_groups
  ensure_groups-Keeps g site key = search (access_rules, create_groups-Keeps) depth 20

  set_up-Keeps : (g : Gerrit) (site : Site) → Keeps P (Configure.set_up env g site)
  unfolding Configure.set_up
  set_up-Keeps g site = search (access_rules, ensure_groups-Keeps) depth 20

  try_password-Keeps :
      (g : Gerrit) (site : Site) (failure password : String)
      → Keeps P (Configure.try_password env g site failure password)
  unfolding Configure.try_password
  try_password-Keeps g site failure password = search access_rules depth 14

  reset_password-Keeps : (g : Gerrit) (site : Site) → Keeps P (Configure.reset_password env g site)
  unfolding Configure.reset_password
  reset_password-Keeps g site = search (access_rules, set_up-Keeps, try_password-Keeps) depth 20

  log_in-Keeps : (g : Gerrit) (site : Site) → Keeps P (Configure.log_in env g site)
  unfolding Configure.log_in
  log_in-Keeps g site =
      search (access_rules, set_up-Keeps, try_password-Keeps, reset_password-Keeps) depth 20

  with_pod-Keeps :
      (pods : List String) (f : String → M O Bool)
      → ((pod : String) → Keeps P (f pod))
      → Keeps P (Configure.with_pod env pods f)
  unfolding Configure.with_pod
  with_pod-Keeps [] f k = search access_rules
  with_pod-Keeps (pod ∷ []) f k = k pod
  with_pod-Keeps (_ ∷ _ ∷ _) f k = search access_rules

  set_up_access-Keeps :
      (g : Gerrit) (url scripts : String) (port : ℕ)
      → Keeps P (Configure.set_up_access env g url scripts port)
  unfolding Configure.set_up_access
  set_up_access-Keeps g url scripts port =
      search (access_rules, with_pod-Keeps, log_in-Keeps) depth 20

  pub configure-Keeps : (g : Gerrit) → Keeps P (Configure.configure env g)
  unfolding Configure.configure
  configure-Keeps g = search (access_rules, set_up_access-Keeps) depth 24

  pub configured-Keeps : (m : M O Bool) → Keeps P m → Keeps P (Configure.configured env m)
  unfolding Configure.configured
  configured-Keeps m k = search access_rules

module _ (env : Env Gerrit) {P : World Gerrit → Type 0} (apart : IsApart env P)
    (noted : (suffix value : String) → Keeps P (Expose.annotate env suffix value))
    (kept : Keeps P (update_instance env)) where
  updating-Keeps :
      (text : String) (args : List String) → Keeps P (wrapping text args (update_instance env))
  updating-Keeps text args = wrapping-Keeps text args (update_instance env) kept

  expose_ci_user-Keeps : Keeps P (Expose.expose_ci_user env)
  unfolding Expose.expose_ci_user
  expose_ci_user-Keeps = search (access_rules, noted) depth 24

  expose_argo_user-Keeps : Keeps P (Expose.expose_argo_user env)
  unfolding Expose.expose_argo_user
  expose_argo_user-Keeps = search (access_rules, noted) depth 24

  expose_argo_cd_configuration-Keeps : Keeps P (Expose.expose_argo_cd_configuration env)
  unfolding Expose.expose_argo_cd_configuration
  expose_argo_cd_configuration-Keeps = search (access_rules, expose_argo_user-Keeps) depth 24

  expose_identity-Keeps : Keeps P (Expose.expose_identity env)
  unfolding Expose.expose_identity
  expose_identity-Keeps = search (access_rules, noted, updating-Keeps) depth 24

  pub expose_configuration-Keeps : Keeps P (Expose.expose_configuration env)
  unfolding Expose.expose_configuration
  expose_configuration-Keeps =
      search
        (
          access_rules, updating-Keeps, expose_ci_user-Keeps, expose_argo_cd_configuration-Keeps,
          expose_identity-Keeps,
        )
        depth 24
