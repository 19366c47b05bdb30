-- ===== src/Tests/Rules.antt =====
-- The theorems on access rules, container environments, ports and statuses at concrete inputs.
use edp_gerrit_operator.Base.{
  ◌≤◌, ◌<◌, pos, negsuc, String, true, false, some, [], ◌∷◌, ◌≡◌, refl, string_eq, first_digits,
  leading_digits, decimal_from,
}
use edp_gerrit_operator.Errors.{err, ok}
use edp_gerrit_operator.Api.{Gerrit, Object}
use edp_gerrit_operator.World.{Env, Call}
use edp_gerrit_operator.World.Objects.{EnvVar}
use edp_gerrit_operator.World.Requests.{AccessInfo}
use edp_gerrit_operator.Client.Access.Request
use edp_gerrit_operator.Client.Access.Rules as AccessRules
use edp_gerrit_operator.Platform.Env.{update_env, find_env}
use edp_gerrit_operator.Platform.Env.Laws
use edp_gerrit_operator.Platform.K8s
use edp_gerrit_operator.Service.Connect
use edp_gerrit_operator.Service.Connect.Ports as ServicePorts
use edp_gerrit_operator.Helper.Status
use edp_gerrit_operator.Tests.Samples.{unreachable, no_env, gerrit, meta, connected}

-- The right to push to the main branch, for one group and for another.
abbrev push_right : String → AccessInfo
push_right group = record {
  ref_pattern = "refs/heads/main";
  permission_name = "push";
  permission_label = "";
  group_name = group;
  action = "ALLOW";
  force = false;
  min = pos 0;
  max = pos 1;
}

rule_at-generate_example :
    AccessRules.rule_at
      (Request.generate_set_access_request (push_right "dev" ∷ push_right "ops" ∷ []) true false)
      "refs/heads/main"
      "push"
      "ops"
    ≡ some (Request.group_permissions (push_right "ops") true false)
unfolding string_eq
rule_at-generate_example =
    AccessRules.rule_at-generate true false "refs/heads/main" "push" "ops"
      (push_right "dev" ∷ push_right "ops" ∷ [])

abbrev listen : String → EnvVar
listen address = record { name = "LISTEN_ADDR"; value = address }

abbrev home : EnvVar
home = record { name = "HOME"; value = "/var" }

find_env-update_env_example :
    find_env (update_env (home ∷ listen "*:22" ∷ []) (listen "*:30022" ∷ [])) "LISTEN_ADDR"
    ≡ some (listen "*:30022")
unfolding find_env string_eq
find_env-update_env_example =
    Laws.find_env-update_env (home ∷ listen "*:22" ∷ []) (listen "*:30022" ∷ []) "LISTEN_ADDR"

-- A cluster without services.
abbrev empty_cluster : Env Gerrit
empty_cluster = record no_env { is_not_found = λ _. true }

get_service_port_answers_example :
    ServicePorts.Answered empty_cluster "gerrit"
      (err unreachable)
      (Connect.get_service_port empty_cluster (gerrit "") (connected (gerrit ""))).0
    × ((Connect.get_service_port empty_cluster (gerrit "") (connected (gerrit ""))).1
        ≡ record (connected (gerrit "")) { trace = Call.get_service "edp" "gerrit" ∷ [] })
get_service_port_answers_example =
    ServicePorts.get_service_port_answers empty_cluster (gerrit "") (connected (gerrit ""))

find_ssh_port_lem : K8s.find_ssh_port (home ∷ listen "*:22" ∷ []) ≡ ok 22
unfolding K8s.find_ssh_port K8s.parse_port first_digits leading_digits decimal_from string_eq
find_ssh_port_lem = refl

abbrev note : String → Object String (Unit {0})
note spec = record { meta = meta "note"; spec = spec; status = tt }

get_timeout_bounds_example :
    (0 < Status.get_timeout (λ _. negsuc 4) (pos 60))
    × (Status.get_timeout (λ _. negsuc 4) (pos 60) ≤ Status.max_time_out)
get_timeout_bounds_example = Status.get_timeout_bounds (λ _. negsuc 4) (pos 60)
