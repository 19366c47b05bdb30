-- ===== src/Tests/Orders.antt =====
-- The theorems on the order of commands at concrete inputs.
use edp_gerrit_operator.Base.{◌<>◌, some, [], ◌∷◌, true}
use edp_gerrit_operator.Errors.{ok}
use edp_gerrit_operator.World.{Env}
use edp_gerrit_operator.Exec.Settled.{Settled}
use edp_gerrit_operator.Controllers.Replication.Commands.{Ran}
use edp_gerrit_operator.Controllers.Replication.Configure
use edp_gerrit_operator.Controllers.Replication.Configure.{GerritReplicationConfig}
use edp_gerrit_operator.Controllers.Replication.Stages
use edp_gerrit_operator.Controllers.Replication.Order
use edp_gerrit_operator.Tests.Samples.{no_env, no_shells, gerrit, meta, connected}

abbrev replication : GerritReplicationConfig
replication = record {
  meta = meta "replica";
  spec = record { ssh_url = "git@host:22"; owner_name = "gerrit" };
  status = record { available = true; last_time_updated = 0; status = "" };
}

-- A cluster with one pod for the Gerrit, in which every command succeeds.
abbrev cluster : Env GerritReplicationConfig
cluster = record no_env {
  executable_path = ok "/op";
  list_pods = λ _ _ _. ok ("gerrit-1" ∷ []);
  get_pod = λ _ namespace name.
      ok (record { namespace = namespace; name = name; containers = "gerrit" ∷ [] });
  get_service = λ _ namespace name. ok (record {
    namespace = namespace;
    name = name;
    ports = record { name = "ssh"; port = 22; target_port = 22; node_port = 30022 } ∷ [];
  });
  spdy_executor = λ _. ok tt;
  exec_in_pod = λ _ _ _ _ _. ok tt;
  get_secret = λ _ _ _. ok (("ssh-privatekey", "k") ∷ ("id_rsa", "k") ∷ []);
  parse_template = λ path. ok path;
  render_resource = λ path o. ok (path <> o.meta.name);
  render = λ path args. ok path;
  find_group = λ _ _. some "host";
  shells = record no_shells { act = λ _ _. ok tt; output = λ _ _. ok "" };
}

configure_replication_ordered_example :
    Settled
      (Ran (Stages.Configured cluster replication []))
      (Ran (Stages.Stage cluster replication []))
      (Configure.configure_replication cluster (gerrit "ready") (connected replication))
configure_replication_ordered_example =
    Order.configure_replication_ordered cluster (gerrit "ready") (connected replication)
