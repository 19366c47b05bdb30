-- ===== src/Tests/Replicas.antt =====
-- The theorems on replication configurations at concrete inputs.
use edp_gerrit_operator.Base.{String, true, false, ◌≡◌, refl, string_eq, ap, ◌==◌, arith}
use edp_gerrit_operator.Errors.{ok}
use edp_gerrit_operator.World.{Env}
use edp_gerrit_operator.Exec.Keeps.{Calls}
use edp_gerrit_operator.Helper.Owner
use edp_gerrit_operator.Controllers.Common.{done}
use edp_gerrit_operator.Controllers.Replication
use edp_gerrit_operator.Controllers.Replication.Configure.{GerritReplicationConfig}
use edp_gerrit_operator.Controllers.Replication.Quiet.{IsQuiet}
use edp_gerrit_operator.Controllers.Replication.Progress as Replicating
use edp_gerrit_operator.Tests.Samples.{no_env, gerrit, meta, owner, connected}

-- A configuration with this status.
abbrev configuration : String → GerritReplicationConfig
configuration status = record {
  meta = meta "replica";
  spec = record { ssh_url = "git@host:22"; owner_name = "gerrit" };
  status = record { available = false; last_time_updated = 0; status = status };
}

-- A cluster whose Gerrit has this status.
abbrev cluster : String → Env GerritReplicationConfig
cluster status = record no_env {
  get_gerrit = λ _ _ _. ok (gerrit status);
  update_status = λ _ o. ok o;
}

reconcile_owned_configuring_example :
    (let (r, w') =
        Replication.reconcile_owned (cluster "ready") (connected (configuration "configuring")) in
      (r ≡ ok done)
      × (w'.instance_ref.status.status ≡ "configured")
      × (w'.instance_ref.status.available ≡ true)
      × Calls IsQuiet w')
unfolding string_eq Owner.get_gerrit_owner
reconcile_owned_configuring_example =
    Replicating.reconcile_owned_configuring (cluster "ready") (λ t o. refl)
      (connected (configuration "configuring")) owner (gerrit "ready") refl refl refl
      (record { all = tt })

reconcile_owned_unready_example :
    (let (r, w') =
        Replication.reconcile_owned (cluster "installing") (connected (configuration "")) in
      (r ≡ ok done)
      × (w'.instance_ref.status.status ≡ "")
      × (w'.instance_ref.status.available ≡ true))
unfolding string_eq Owner.get_gerrit_owner
reconcile_owned_unready_example =
    Replicating.reconcile_owned_unready (cluster "installing") (λ t o. refl)
      (connected (configuration "")) owner (gerrit "installing") refl refl
      (λ e. let p : false ≡ true = ap (λ (s : String). s == "ready") e in ground arith)
      (λ e. let p : false ≡ true = ap (λ (s : String). s == "configuring") e in ground arith)
