-- ===== src/Platform/K8s.antt =====
-- `K8SService` (pkg/service/platform/k8s/k8s.go). A method that takes the Gerrit resource takes its
-- namespace and name.
pub mod Ports
use edp_gerrit_operator.Base.{ℕ, String, Bool, Option, none, some, List, [], ◌∷◌, ◌++◌}
use edp_gerrit_operator.Base.{
  not, ◌==◌, ◌=?◌, ◌&&◌, ltb, string_eq, if◌then◌else◌, inl, inr, Dict, insert,
}
use edp_gerrit_operator.Base.{codes, first_digits, decimal_from}
use edp_gerrit_operator.Errors.{Outcome, ok, err, message, wrapf, external}
use edp_gerrit_operator.Api.{Gerrit}
use edp_gerrit_operator.World.{Env, Call}
use edp_gerrit_operator.World.Objects.{EnvVar, Deployment, Pod, ConfigMap, Secret, Service}
use edp_gerrit_operator.Exec
use edp_gerrit_operator.Exec.{
  M, ◌>>=◌, ◌>>◌, pure, raise, crash, lift, call, wrapping, attempt, skip, wrap_outcome,
}
use edp_gerrit_operator.Platform.Env.{select_container, update_env, update_port}

-- `spec.SSHListnerEnvName`
abbrev pub ssh_listener_env_name : String
ssh_listener_env_name = "LISTEN_ADDR"

abbrev pub max_int32 : ℕ
max_int32 = 2147483647

-- `strconv.ParseInt(port, 10, 32)` on a run of digits
unfoldable pub parse_port : String → Outcome ℕ
parse_port digits =
    let n = decimal_from 0 (codes digits) in
    if ltb max_int32 n then err (external "strconv.ParseInt: value out of range") else ok n

-- The loop of `GetDeploymentSSHPort` over the variables of the first container. A value with no
-- digit does not end the loop.
unfoldable pub find_ssh_port : List EnvVar → Outcome ℕ
unfolding parse_port
find_ssh_port [] = ok 0
find_ssh_port (e ∷ env) =
    let rest = find_ssh_port env in
    let digits = first_digits e.value in
    let parsed = wrap_outcome "failed to parse port value %q" (digits ∷ []) (parse_port digits) in
    if e.name == ssh_listener_env_name && not (digits == "") then parsed else rest

-- `GenerateLabels`
abbrev pub generate_labels : String → Dict String
generate_labels name = ("app", name) ∷ []

-- `maps.Copy(dst, src)`
abbrev pub copy_into : Dict String → Dict String → Dict String
copy_into dst [] = dst
copy_into dst ((k, v) ∷ src) = copy_into (insert k v dst) src

abbrev pub new_gerrit_secret : String → String → String → Dict String → Secret
new_gerrit_secret name gerrit_name namespace values = record {
  namespace = namespace;
  name = name;
  labels = generate_labels gerrit_name;
  values = values;
}

module _ {O : Type 0} (env : Env O) where
  -- `ingress.Spec.Rules[0].Host` panics where there are no rules.
  unfoldable pub first_host : List String → M O (String × String)
  first_host [] = crash
  first_host (host ∷ _) = pure (host, "https")

  unfoldable pub get_external_endpoint : String → String → M O (String × String)
  get_external_endpoint namespace name = do
    r ← attempt (call (Call.get_ingress namespace name) (λ t. env.get_ingress t namespace name))
    elim r [
      | inl e ↦
          if env.is_not_found e
          then raise (message "ingress %v in namespace %v not found" (name ∷ namespace ∷ []))
          else raise (wrapf "failed to Get Ingress %q" name e)
      | inr hosts ↦ first_host hosts
    ]

  abbrev get_deployment : String → String → M O Deployment
  get_deployment namespace name =
      wrapping "failed to Get Deployment %q" (name ∷ [])
        (call (Call.get_deployment namespace name) (λ t. env.get_deployment t namespace name))

  unfoldable pub is_deployment_ready : Gerrit → M O Bool
  is_deployment_ready g = do
    d ← get_deployment g.meta.namespace g.meta.name
    pure (d.updated_replicas =? 1 && d.available_replicas =? 1)

  unfoldable pub patch_deployment_env : Gerrit → List EnvVar → M O (Unit {0})
  patch_deployment_env g vars = do
    d ← get_deployment g.meta.namespace g.meta.name
    elim vars [
      | [] ↦ skip
      | v ∷ vs ↦ do
        container ←
            wrapping "not containers found for gerrit resource %q" (g.meta.name ∷ [])
              (lift (select_container d.containers g.meta.name))
        let patched = record container { env = update_env container.env (v ∷ vs) }
        let d' = record d { containers = d.containers ++ patched ∷ [] }
        wrapping "failed to Patch Deployment %q" (d.name ∷ [])
            (call (Call.patch_deployment d') (λ t. env.patch_deployment t d'))
    ]

  -- `d.Spec.Template.Spec.Containers[0]` panics where there are no containers.
  unfoldable pub first_container_port : Deployment → M O ℕ
  first_container_port d = elim d.containers [ [] ↦ crash | c ∷ _ ↦ lift (find_ssh_port c.env) ]

  unfoldable pub get_deployment_ssh_port : Gerrit → M O ℕ
  get_deployment_ssh_port g = do
    d ← get_deployment g.meta.namespace g.meta.name
    first_container_port d

  -- `none` is a nil map.
  unfoldable pub get_secret : String → String → M O (Option (Dict String))
  get_secret namespace name = do
    r ← attempt (call (Call.get_secret namespace name) (λ t. env.get_secret t namespace name))
    elim r [
      | inr values ↦ pure (some values)
      | inl e ↦
          if env.is_not_found e then pure none else raise (wrapf "failed to GET %q secret" name e)
    ]

  -- As `get_secret`, with another message.
  unfoldable pub get_secret_data : String → String → M O (Option (Dict String))
  get_secret_data namespace name = do
    r ← attempt (call (Call.get_secret namespace name) (λ t. env.get_secret t namespace name))
    elim r [
      | inr values ↦ pure (some values)
      | inl e ↦
          if env.is_not_found e
          then pure none
          else raise (wrapf "failed to GET secret resorce %q" name e)
    ]

  unfoldable pub create_new_secret : Gerrit → String → Dict String → Dict String → M O (Unit {0})
  create_new_secret g name values labels = do
    let base = new_gerrit_secret name g.meta.name g.meta.namespace values
    let secret = record base { labels = copy_into base.labels labels }
    t ← Exec.traced
    wrapping "failed to set owner %q (Gerrit resource) as a controller OwnerReference on %q"
        (g.meta.name ∷ name ∷ []) (lift (env.set_controller_reference t g name))
    wrapping "failed to create gerrit Secret resource %q" (name ∷ [])
        (call (Call.create_secret secret) (λ t. env.create_secret t secret))

  unfoldable pub create_secret : Gerrit → String → Dict String → Dict String → M O (Unit {0})
  create_secret g name values labels = do
    let namespace = g.meta.namespace
    r ← attempt (call (Call.get_secret namespace name) (λ t. env.get_secret t namespace name))
    elim r [
      | inr existing ↦ skip
      | inl e ↦
          if env.is_not_found e
          then create_new_secret g name values labels
          else raise (wrapf "failed to GET secret resorce %q" name e)
    ]

  unfoldable pub get_pods : String → String → M O (List String)
  get_pods namespace selector =
      wrapping "failed to GET list of Pods" []
        (call (Call.list_pods namespace selector) (λ t. env.list_pods t namespace selector))

  -- A missing service is no error: `none` is a nil pointer.
  unfoldable pub get_service : String → String → M O (Option Service)
  get_service namespace name = do
    r ← attempt (call (Call.get_service namespace name) (λ t. env.get_service t namespace name))
    elim r [
      | inr service ↦ pure (some service)
      | inl e ↦
          if env.is_not_found e then pure none else raise (wrapf "failed to GET %q service" name e)
    ]

  -- The service is a pointer that the code reads before it tests anything.
  unfoldable pub update_service : Option Service → ℕ → M O (Unit {0})
  update_service none node_port = crash
  update_service (some svc) node_port =
      let svc' = record svc { ports = update_port svc.ports "ssh" node_port } in
      wrapping "faile to update %q service" (svc.name ∷ [])
        (call (Call.update_service svc') (λ t. env.update_service t svc'))

  -- The stream of a command in the first container of a pod; `Containers[0]` panics where there is none.
  unfoldable pub stream_in : Pod → String → List String → M O (Unit {0})
  stream_in pod command [] = crash
  stream_in pod command (container ∷ _) = do
    let url = env.exec_url pod.namespace pod.name container command
    wrapping "failed to retrieve config" [] (lift env.rest_config)
    wrapping "failed to connect to the %q server" (url ∷ []) (lift (env.spdy_executor url))
    wrapping "failed to execute shell-style stream" [] (
        call (Call.exec_in_pod pod.namespace pod.name container command)
          (λ t. env.exec_in_pod t pod.namespace pod.name container command))

  unfoldable pub exec_in_pod : String → String → String → M O (Unit {0})
  exec_in_pod namespace pod_name command = do
    pod ←
        wrapping "failed to GET Pod %q" (pod_name ∷ [])
          (call (Call.get_pod namespace pod_name) (λ t. env.get_pod t namespace pod_name))
    stream_in pod command pod.containers

  -- The error of a creation names the object that came back, which is empty.
  unfoldable pub create_config_map : Gerrit → String → Dict String → M O (Unit {0})
  create_config_map g config_map_name config_map_data = do
    let namespace = g.meta.namespace
    let cm : ConfigMap = record {
      namespace = namespace;
      name = config_map_name;
      labels = generate_labels g.meta.name;
      values = config_map_data;
    }
    t ← Exec.traced
    wrapping "Couldn't set reference for Config Map %v object" (config_map_name ∷ [])
        (lift (env.set_controller_reference t g config_map_name))
    r ← attempt (
        call (Call.get_config_map namespace config_map_name)
          (λ t'. env.get_config_map t' namespace config_map_name))
    elim r [
      | inr existing ↦ skip
      | inl e ↦
          if env.is_not_found e
          then wrapping "Couldn't create Config Map %v object" ("" ∷ [])
              (call (Call.create_config_map cm) (λ t'. env.create_config_map t' cm))
          else raise (wrapf "Couldn't get ConfigMap %v object" config_map_name e)
    ]
