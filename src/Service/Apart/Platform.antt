-- ===== src/Service/Apart/Platform.antt =====
-- The platform service makes no call at the controller's resource (pkg/service/platform/k8s/k8s.go).
use edp_gerrit_operator.Base.{ℕ, String, List, [], ◌∷◌, Option, none, some, Dict, ◌≡◌, refl}
use edp_gerrit_operator.Api.{Gerrit}
use edp_gerrit_operator.World.{Env, World}
use edp_gerrit_operator.World.Objects.{Pod, Container, EnvVar, Service, Deployment}
use edp_gerrit_operator.Exec.{M, crash, lift}
use edp_gerrit_operator.Exec.Keeps.{Keeps}
use edp_gerrit_operator.Exec.Apart.{IsApart, apart_rules}
use edp_gerrit_operator.Platform.K8s

module _ {O : Type 0} (env : Env O) {P : World O → Type 0} (apart : IsApart env P) where
  first_host-Keeps : (hosts : List String) → Keeps P (K8s.first_host env hosts)
  unfolding K8s.first_host
  first_host-Keeps [] = search apart_rules
  first_host-Keeps (h ∷ _) = search apart_rules

  pub get_external_endpoint-Keeps :
      (namespace name : String) → Keeps P (K8s.get_external_endpoint env namespace name)
  unfolding K8s.get_external_endpoint
  get_external_endpoint-Keeps namespace name = search (apart_rules, first_host-Keeps, tt) depth 14

  pub is_deployment_ready-Keeps : (g : Gerrit) → Keeps P (K8s.is_deployment_ready env g)
  unfolding K8s.is_deployment_ready
  is_deployment_ready-Keeps g = search (apart_rules, tt) depth 14

  pub patch_deployment_env-Keeps :
      (g : Gerrit) (vars : List EnvVar) → Keeps P (K8s.patch_deployment_env env g vars)
  unfolding K8s.patch_deployment_env
  patch_deployment_env-Keeps g [] = search (apart_rules, tt) depth 14
  patch_deployment_env-Keeps g (v ∷ vs) = search (apart_rules, tt) depth 14

  first_container_port-Keeps : (d : Deployment) → Keeps P (K8s.first_container_port env d)
  unfolding K8s.first_container_port
  first_container_port-Keeps d = by_containers d.containers refl
    where
      by_containers :
          (cs : List Container)
          → d.containers ≡ cs
          → Keeps P (elim d.containers as (λ _. M O ℕ) [
            | [] ↦ crash
            | c ∷ _ ↦ lift (K8s.find_ssh_port c.env)
          ])
      by_containers [] e = rw e (search apart_rules)
      by_containers (c ∷ cs) e = rw e (search apart_rules)

  pub get_deployment_ssh_port-Keeps : (g : Gerrit) → Keeps P (K8s.get_deployment_ssh_port env g)
  unfolding K8s.get_deployment_ssh_port
  get_deployment_ssh_port-Keeps g = search (apart_rules, first_container_port-Keeps, tt) depth 14

  pub get_secret-Keeps : (namespace name : String) → Keeps P (K8s.get_secret env namespace name)
  unfolding K8s.get_secret
  get_secret-Keeps namespace name = search (apart_rules, tt) depth 14

  pub get_secret_data-Keeps :
      (namespace name : String) → Keeps P (K8s.get_secret_data env namespace name)
  unfolding K8s.get_secret_data
  get_secret_data-Keeps namespace name = search (apart_rules, tt) depth 14

  pub create_secret-Keeps :
      (g : Gerrit) (name : String) (values labels : Dict String)
      → Keeps P (K8s.create_secret env g name values labels)
  create_secret-Keeps g name values labels = apart.secret g name values labels

  pub get_pods-Keeps : (namespace selector : String) → Keeps P (K8s.get_pods env namespace selector)
  unfolding K8s.get_pods
  get_pods-Keeps namespace selector = search (apart_rules, tt) depth 14

  pub get_service-Keeps : (namespace name : String) → Keeps P (K8s.get_service env namespace name)
  unfolding K8s.get_service
  get_service-Keeps namespace name = search (apart_rules, tt) depth 14

  pub update_service-Keeps :
      (s : Option Service) (port : ℕ) → Keeps P (K8s.update_service env s port)
  unfolding K8s.update_service
  update_service-Keeps none port = search apart_rules
  update_service-Keeps (some s) port = search (apart_rules, tt) depth 14

  stream_in-Keeps :
      (pod : Pod) (command : String) (containers : List String)
      → Keeps P (K8s.stream_in env pod command containers)
  unfolding K8s.stream_in
  stream_in-Keeps pod command [] = search apart_rules
  stream_in-Keeps pod command (c ∷ cs) = search apart_rules depth 14

  pub exec_in_pod-Keeps :
      (namespace pod command : String) → Keeps P (K8s.exec_in_pod env namespace pod command)
  unfolding K8s.exec_in_pod
  exec_in_pod-Keeps namespace pod command = search (apart_rules, stream_in-Keeps, tt) depth 14

pub ruleset platform_rules = (
  get_external_endpoint-Keeps, is_deployment_ready-Keeps, patch_deployment_env-Keeps,
  get_deployment_ssh_port-Keeps, get_secret-Keeps, get_secret_data-Keeps, create_secret-Keeps,
  get_pods-Keeps, get_service-Keeps, update_service-Keeps, exec_in_pod-Keeps, apart_rules, tt,
)
