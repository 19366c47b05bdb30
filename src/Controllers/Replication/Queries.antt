-- ===== src/Controllers/Replication/Queries.antt =====
-- What a replication's configuration reads before it runs a command
-- (controllers/gerritreplicationconfig/gerritreplicationconfig_controller.go).
use edp_gerrit_operator.Base.{ℕ, String, Option, Option-cases, none, some, List, [], ◌∷◌, inl, inr}
use edp_gerrit_operator.World.Objects.{Service}
use edp_gerrit_operator.Api.{Gerrit}
use edp_gerrit_operator.World.{Env}
use edp_gerrit_operator.Exec.Keeps.{Keeps}
use edp_gerrit_operator.Platform.K8s
use edp_gerrit_operator.Client.Shell
use edp_gerrit_operator.Client.Ssh
use edp_gerrit_operator.Service.Connect
use edp_gerrit_operator.Controllers.Replication.Configure.{GerritReplicationConfig}
use edp_gerrit_operator.Controllers.Replication.Configure
use edp_gerrit_operator.Controllers.Replication.Commands.{Command, Ran, ran_rules}

module _ (env : Env GerritReplicationConfig) {R : List Command → Type 0} where
  get_pods-Ran : (namespace selector : String) → Keeps (Ran R) (K8s.get_pods env namespace selector)
  unfolding K8s.get_pods
  get_pods-Ran namespace selector = search ran_rules depth 14

  single_pod-Ran : (pods : List String) → Keeps (Ran R) (Configure.single_pod env pods)
  unfolding Configure.single_pod
  single_pod-Ran [] = search ran_rules
  single_pod-Ran (p ∷ []) = search ran_rules
  single_pod-Ran (p ∷ q ∷ pods) = search ran_rules

  get_secret-Ran : (namespace name : String) → Keeps (Ran R) (K8s.get_secret env namespace name)
  unfolding K8s.get_secret
  get_secret-Ran namespace name = search ran_rules depth 14

  get_service-Ran : (namespace name : String) → Keeps (Ran R) (K8s.get_service env namespace name)
  unfolding K8s.get_service
  get_service-Ran namespace name = search ran_rules depth 14

  first_host-Ran : (hosts : List String) → Keeps (Ran R) (K8s.first_host env hosts)
  unfolding K8s.first_host
  first_host-Ran [] = search ran_rules
  first_host-Ran (h ∷ _) = search ran_rules

  get_external_endpoint-Ran :
      (namespace name : String) → Keeps (Ran R) (K8s.get_external_endpoint env namespace name)
  unfolding K8s.get_external_endpoint
  get_external_endpoint-Ran namespace name = search (ran_rules, first_host-Ran) depth 14

  get_gerrit_ssh_url-Ran : (g : Gerrit) → Keeps (Ran R) (Connect.get_gerrit_ssh_url env g)
  unfolding Connect.get_gerrit_ssh_url
  get_gerrit_ssh_url-Ran g = search (ran_rules, get_external_endpoint-Ran) depth 14

  service_port-Ran : (s : Option Service) → Keeps (Ran R) (Connect.service_port env s)
  unfolding Connect.service_port
  service_port-Ran none = search ran_rules
  service_port-Ran (some s) = elim (Option-cases (Connect.find_node_port s.ports)) [
    | inl e ↦ rw (e, Connect.service_port) (search ran_rules)
    | inr (port, e) ↦ rw (e, Connect.service_port) (search ran_rules)
  ]

  get_service_port-Ran : (g : Gerrit) → Keeps (Ran R) (Connect.get_service_port env g)
  unfolding Connect.get_service_port
  get_service_port-Ran g = search (ran_rules, get_service-Ran, service_port-Ran) depth 14

  pub get_configuration_args-Ran :
      (g : Gerrit) → Keeps (Ran R) (Configure.get_configuration_args env g)
  unfolding Configure.get_configuration_args
  get_configuration_args-Ran g =
      search
        (
          ran_rules, get_pods-Ran, single_pod-Ran, get_gerrit_ssh_url-Ran, get_service_port-Ran,
          get_secret-Ran,
        )
        depth 20

  pub init_new_ssh_client-Ran :
      (user key host : String) (port : ℕ)
      → Keeps (Ran R) (Ssh.init_new_ssh_client env user key host port)
  unfolding Ssh.init_new_ssh_client Shell.ssh_init
  init_new_ssh_client-Ran user key host port = search ran_rules depth 14
