-- ===== src/Tests/Lives.antt =====
-- The theorems on the life of an instance at concrete inputs.
use edp_gerrit_operator.Base.{[], ◌∷◌, ◌≡◌, refl, arith, string_eq, lookup}
use edp_gerrit_operator.Errors.{ok}
use edp_gerrit_operator.Api.{Gerrit}
use edp_gerrit_operator.World.{Env, World, Call}
use edp_gerrit_operator.World.Objects.{Deployment, Service}
use edp_gerrit_operator.Exec.{M}
use edp_gerrit_operator.Exec
use edp_gerrit_operator.Platform.K8s
use edp_gerrit_operator.Service.Connect
use edp_gerrit_operator.Service.Configure
use edp_gerrit_operator.Service.Configure.{Site}
use edp_gerrit_operator.Controllers.Common.{done}
use edp_gerrit_operator.Controllers.Gerrits
use edp_gerrit_operator.Controllers.Gerrits.Component.{component_service}
use edp_gerrit_operator.Controllers.Gerrits.Unfinished
use edp_gerrit_operator.Platform.Env.{update_port}
use edp_gerrit_operator.Base.{first_digits, leading_digits, decimal_from}
use edp_gerrit_operator.Tests.Samples.{no_env, gerrit, connected}

abbrev pub once : M Gerrit (Unit {0}) → M Gerrit (Unit {0})
once m = m

-- A cluster with a deployment that is as it should be, and with no pod.
abbrev pub listening : Deployment
listening = record {
  namespace = "edp";
  name = "gerrit";
  containers =
      record { name = "gerrit"; env = record { name = "LISTEN_ADDR"; value = "*:29" } ∷ [] } ∷ [];
  updated_replicas = 1;
  available_replicas = 1;
}

abbrev scaled_down : Env Gerrit
scaled_down = record no_env {
  executable_path = ok "/usr/bin";
  get_secret = λ _ _ _. ok (("password", "pwd") ∷ []);
  get_service = λ _ namespace name. ok (record {
    namespace = namespace;
    name = name;
    ports = record { name = "ssh"; port = 29; target_port = 29; node_port = 29 } ∷ [];
  });
  update_service = λ _ _. ok tt;
  get_deployment = λ _ _ _. ok listening;
  list_pods = λ _ _ _. ok [];
}

-- The world in which the configuration comes to the REST interface, and the one after the password.
abbrev svc : Service
svc = record {
  namespace = "edp";
  name = "gerrit";
  ports = record { name = "ssh"; port = 29; target_port = 29; node_port = 29 } ∷ [];
}

abbrev prepared : World Gerrit
prepared = record (connected (gerrit "configuring")) {
  trace =
      Call.update_service svc
      ∷ Call.get_service "edp" "gerrit"
      ∷ Call.get_deployment "edp" "gerrit"
      ∷ Call.get_service "edp" "gerrit"
      ∷ Call.get_secret "edp" "gerrit-admin-password"
      ∷ [];
}

abbrev with_password : World Gerrit
with_password = record prepared {
  trace = Call.get_secret "edp" "gerrit-admin-password" ∷ prepared.trace;
}

configure_is_prepared :
    Configure.configure scaled_down (gerrit "configuring") (connected (gerrit "configuring"))
    ≡ Configure.set_up_access scaled_down
        (gerrit "configuring")
        "gerrit"
        "/usr/local/configs/scripts"
        29
        prepared
unfolding Configure.configure Connect.get_gerrit_ssh_url K8s.create_secret Connect.get_service_port
    Connect.service_port Connect.find_node_port K8s.get_service K8s.get_deployment_ssh_port
    K8s.first_container_port K8s.find_ssh_port K8s.parse_port K8s.update_service update_port
    Connect.update_deployment_config_port string_eq first_digits leading_digits decimal_from
    Exec.◌>>=◌
configure_is_prepared = refl

configure_without_pod_example :
    Gerrits.configure scaled_down
      (component_service scaled_down once)
      (connected (gerrit "configuring"))
    ≡ Gerrits.after_configuration scaled_down
        (component_service scaled_down once)
        done
        (record with_password { trace = Call.list_pods "edp" "app=gerrit" ∷ with_password.trace })
unfolding Connect.get_gerrit_rest_api_url Connect.get_gerrit_admin_password K8s.get_secret_data
    string_eq lookup Exec.◌>>=◌
configure_without_pod_example =
    Unfinished.configure_without_pod scaled_down once (connected (gerrit "configuring")) "gerrit"
      "/usr/local/configs/scripts" "http://gerrit" "pwd" 29 [] prepared prepared with_password
      configure_is_prepared refl refl refl (λ e. absurd (omega arith))
