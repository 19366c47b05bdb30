-- ===== src/Platform/Openshift.antt =====
-- `OpenshiftService` (pkg/service/platform/openshift/openshift.go): what it does in another way than the
-- Kubernetes service, which it holds.
pub mod Ports
pub mod Routes
use edp_gerrit_operator.Base.{ℕ, String, Bool, Option, none, some, List, [], ◌∷◌, ◌++◌}
use edp_gerrit_operator.Base.{◌==◌, ◌=?◌, ◌&&◌, string_eq, if◌then◌else◌, inl, inr, first_digits}
use edp_gerrit_operator.Errors.{Outcome, ok, wrapped}
use edp_gerrit_operator.Api.{Gerrit}
use edp_gerrit_operator.World.{Env, Call}
use edp_gerrit_operator.World.Objects.{EnvVar, Deployment, Route}
use edp_gerrit_operator.Exec.{
  M, ◌>>=◌, pure, raise, crash, lift, call, wrapping, attempt, skip, wrap_outcome,
}
use edp_gerrit_operator.Platform.Env.{select_container, update_env}
use edp_gerrit_operator.Platform.K8s
use edp_gerrit_operator.Platform.K8s.{ssh_listener_env_name, parse_port}

-- A value with no digit is the port 0.
unfoldable pub get_port : String → Outcome ℕ
get_port value =
    let digits = first_digits value in
    if digits == ""
    then ok 0
    else wrap_outcome "failed to parse port value %q" (digits ∷ []) (parse_port digits)

-- The loop of `GetDeploymentSSHPort`: the first variable of the name decides.
unfoldable pub find_ssh_port : List EnvVar → Outcome ℕ
find_ssh_port [] = ok 0
find_ssh_port (e ∷ env) =
    let rest = find_ssh_port env in
    if e.name == ssh_listener_env_name then get_port e.value else rest

module _ {O : Type 0} (env : Env O) where
  -- `os.Getenv(deploymentTypeEnvName) == deploymentConfigsDeploymentType`
  abbrev pub has_deployment_configs : Bool
  has_deployment_configs = env.getenv "DEPLOYMENT_TYPE" == "deploymentConfigs"

  abbrev get_deployment_config : String → Gerrit → M O Deployment
  get_deployment_config text g = wrapping text (g.meta.name ∷ []) (
      call (Call.get_deployment_config g.meta.namespace g.meta.name)
        (λ t. env.get_deployment_config t g.meta.namespace g.meta.name))

  -- `route.Spec.TLS.Termination` panics where there is no TLS part.
  unfoldable pub endpoint_of : Route → M O (String × String)
  endpoint_of r = elim r.termination [
    | none ↦ crash
    | some termination ↦ pure (r.host, if termination == "" then "http" else "https")
  ]

  unfoldable pub get_external_endpoint : String → String → M O (String × String)
  get_external_endpoint namespace name = do
    r ← attempt (call (Call.get_route namespace name) (λ t. env.get_route t namespace name))
    elim r [
      | inl e ↦
          if env.is_not_found e
          then raise (wrapped "failed to find route %q in namespace %q" (name ∷ namespace ∷ []) e)
          else raise (wrapped "failed to Get OpenShift route %q" (name ∷ []) e)
      | inr route ↦ endpoint_of route
    ]

  -- `dc.Spec.Template.Spec.Containers[0]` panics where there are no containers.
  unfoldable pub first_container_port : Deployment → M O ℕ
  first_container_port d = elim d.containers [ [] ↦ crash | c ∷ _ ↦ lift (find_ssh_port c.env) ]

  unfoldable pub get_deployment_ssh_port : Gerrit → M O ℕ
  get_deployment_ssh_port g =
      if has_deployment_configs
      then (do
        d ← get_deployment_config "failed to GET OpenShift Deployment %q" g
        first_container_port d)
      else wrapping "failed to Get gerrit ssh port in k8s deployment" []
          (K8s.get_deployment_ssh_port env g)

  unfoldable pub is_deployment_ready : Gerrit → M O Bool
  is_deployment_ready g =
      if has_deployment_configs
      then (do
        d ← get_deployment_config "failed to Get Gerrit Deployment Config %q" g
        pure (d.updated_replicas =? 1 && d.available_replicas =? 1))
      else wrapping "failed to check  if deployment %q is ready" (g.meta.name ∷ [])
          (K8s.is_deployment_ready env g)

  -- From the deployment configuration on.
  unfoldable pub patch_config : Gerrit → List EnvVar → Deployment → M O (Unit {0})
  patch_config g [] d = skip
  patch_config g (v ∷ vs) d = do
    container ←
        wrapping "didn't found container %q" (g.meta.name ∷ [])
          (lift (select_container d.containers g.meta.name))
    let patched = record container { env = update_env container.env (v ∷ vs) }
    let d' = record d { containers = d.containers ++ patched ∷ [] }
    wrapping "failed to patch OpenShift Deployment Config %q" (d.name ∷ [])
        (call (Call.patch_deployment_config d') (λ t. env.patch_deployment_config t d'))

  unfoldable pub patch_deployment_env : Gerrit → List EnvVar → M O (Unit {0})
  patch_deployment_env g vars =
      if has_deployment_configs
      then (do
        d ← get_deployment_config "failed to Get Gerrit Deployment Config %q" g
        patch_config g vars d)
      else wrapping "fail to update k8s deployment env" [] (K8s.patch_deployment_env env g vars)
