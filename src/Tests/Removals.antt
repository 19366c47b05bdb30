-- ===== src/Tests/Removals.antt =====
-- The theorems on whole reconciliations, removals, secrets, the synchronisation and the files of a merge request, at
-- concrete inputs.
use edp_gerrit_operator.Base.{
  String, true, false, some, none, [], ◌∷◌, ◌≡◌, refl, string_eq, lookup, arith, pos, if◌then◌else◌,
}
use mathlib.Core.Bool.{xor}
use edp_gerrit_operator.Errors.{ok, err, wrap, bad_response}
use edp_gerrit_operator.Api.{Gerrit}
use edp_gerrit_operator.World.{Env, World, Call}
use edp_gerrit_operator.World.Requests.{Project}
use edp_gerrit_operator.Exec.{M, catch, raise, ◌>>=◌}
use edp_gerrit_operator.Exec.Keeps.{Calls, catch-Keeps, if-Keeps, raise-Keeps}
use edp_gerrit_operator.Client.Git as GitTool
use edp_gerrit_operator.Client.Git.{GitClient}
use edp_gerrit_operator.Client.Rest.{send, send_by, decode_gerrit_response}
use edp_gerrit_operator.Client.Projects.{list_project_branches}
use edp_gerrit_operator.Helper.Client.{get_instance, update_instance_status}
use edp_gerrit_operator.Client.Rest.Answers.{sent}
use edp_gerrit_operator.Service.Connect
use edp_gerrit_operator.Service.Secrets.{Guarded}
use edp_gerrit_operator.Helper.Owner
use edp_gerrit_operator.Controllers.Common
use edp_gerrit_operator.Controllers.Common.{done}
use edp_gerrit_operator.Controllers.Common.Reports
use edp_gerrit_operator.Controllers.Gerrits
use edp_gerrit_operator.Controllers.Gerrits.Component.{component_service}
use edp_gerrit_operator.Controllers.Gerrits.Secrets
use edp_gerrit_operator.Controllers.Members
use edp_gerrit_operator.Controllers.Members.{GerritGroupMember}
use edp_gerrit_operator.Controllers.Members.Removal
use edp_gerrit_operator.Controllers.MergeRequests.Files
use edp_gerrit_operator.Controllers.MergeRequests.Git
use edp_gerrit_operator.Controllers.MergeRequests.Git.{GerritMergeRequest}
use edp_gerrit_operator.Controllers.Projects.{GerritProject}
use edp_gerrit_operator.Controllers.Replication
use edp_gerrit_operator.Controllers.Replication.Configure.{GerritReplicationConfig}
use edp_gerrit_operator.Controllers.Replication.Quiet.{IsQuiet}
use edp_gerrit_operator.Controllers.Replication.Updates
use edp_gerrit_operator.Controllers.Syncer
use edp_gerrit_operator.Controllers.Syncer.Missing
use edp_gerrit_operator.Tests.Samples.{
  no_env, no_repos, gerrit, meta, connected, connection, response, unreachable,
}

-- A member that is being deleted.
abbrev member : GerritGroupMember
member = record {
  meta = record (meta "tools-joe") { deleted = true; finalizers = Members.finalizer_name ∷ [] };
  spec = record { owner_name = "gerrit"; group_id = "tools"; account_id = "joe" };
  status = record { value = "OK"; failure_count = pos 0 };
}

-- A Gerrit that no longer has the group.
abbrev groupless : Env GerritGroupMember
groupless = record no_env {
  get_gerrit = λ _ _ _. ok (gerrit "ready");
  http = λ _ _ _. ok (response 404);
  is_error = λ _. true;
  update_status = λ _ o. ok o;
  get = λ _ _ _. ok member;
}

abbrev after_owner : World GerritGroupMember
after_owner = record (connected member) { trace = Call.get_gerrit "edp" "gerrit" ∷ [] }

client_ready : Owner.get_gerrit_client groupless "gerrit" (connected member) ≡ (ok tt, after_owner)
unfolding string_eq Owner.get_gerrit_client Owner.ensure_owner Owner.get_instance_owner
    Owner.owner_of Owner.get_gerrit_owner Connect.get_rest_client Connect.reuse ◌>>=◌
client_ready = refl

try_to_reconcile_deleted_example : Members.try_to_reconcile groupless none (connected member) ≡ (
  err (wrap "unable to add user to group" (bad_response "status: %s, body: %s" (response 404))),
  sent connection (Removal.addition groupless member) after_owner,
)
try_to_reconcile_deleted_example =
    Removal.try_to_reconcile_deleted groupless none (connected member) after_owner client_ready
      connection refl (response 404) (response 404) refl refl refl

-- An attempt that fails at once.
reconcile_with_reports_example :
    Common.reconcile_with groupless "unable to get GerritGroupMember instance"
      (λ w. (err unreachable, w))
      (Members.on_error groupless none)
      (λ o. o)
      "edp"
      "tools-joe"
      (connected member)
    ≡ Reports.report groupless "unable to get GerritGroupMember instance"
        (λ w. (err unreachable, w))
        (Members.on_error groupless none)
        (λ o. o)
        "edp"
        "tools-joe"
        (err unreachable, Reports.read "edp" "tools-joe" member (connected member))
reconcile_with_reports_example =
    Reports.reconcile_with_reports groupless "unable to get GerritGroupMember instance"
      (λ w. (err unreachable, w)) (Members.on_error groupless none) (λ o. o) "edp" "tools-joe"
      member (connected member) refl

-- A cluster that refuses everything but to give the instance.
abbrev mute : Env Gerrit
mute = record no_env { get = λ _ _ _. ok (gerrit "ready"); is_not_found = λ _. true }

-- A retry that calls the function once more after a conflict.
abbrev twice : M Gerrit (Unit {0}) → M Gerrit (Unit {0})
twice m = catch m (λ e. if mute.is_conflict e then m else raise e)

reconcile-Guarded_example :
    Guarded mute
      (Gerrits.reconcile mute
        (component_service mute twice)
        "edp"
        "gerrit"
        (connected (gerrit ""))).1.trace
reconcile-Guarded_example =
    Secrets.reconcile-Guarded mute twice
      (λ m k.
        catch-Keeps m _ k
          (λ e. if-Keeps (mute.is_conflict e) m (raise e) (λ _. k) (λ _. raise-Keeps e)))
      "edp" "gerrit" (connected (gerrit "")) tt

-- A configured replication, with this URL.
abbrev replication : String → GerritReplicationConfig
replication url = record {
  meta = meta "replica";
  spec = record { ssh_url = url; owner_name = "gerrit" };
  status = record { available = true; last_time_updated = 0; status = "configured" };
}

abbrev replicas : Env GerritReplicationConfig
replicas = record no_env { get = λ _ _ _. ok (replication "git@new:22") }

update_ignored_example :
    ((replication "git@new:22").status ≡ (replication "git@old:22").status)
    × Calls IsQuiet
        (Replication.reconcile replicas "edp" "replica" (connected (replication "git@new:22"))).1
unfolding string_eq Replication.is_spec_updated Replication.same_status xor
update_ignored_example =
    Updates.update_ignored replicas (λ t o o' h. absurd (ground arith)) (replication "git@old:22")
      (replication "git@new:22") "edp" "replica" (connected (replication "git@new:22")) refl refl
      refl (record { all = tt })

-- A project of Gerrit, and a cluster that takes the resource that is created for it.
abbrev listed : Project
listed = record {
  name = "tools";
  parent = "";
  description = "";
  permissions_only = false;
  create_empty_commit = false;
  submit_type = "";
  branches = "";
  owners = "";
  reject_empty_commit = "";
}

abbrev empty_cluster : Env GerritProject
empty_cluster = record no_env {
  create = λ _ o. ok o;
  get = λ _ _ _. ok (Syncer.new_project no_env (gerrit "ready") listed);
  update_status = λ _ o. ok o;
  http = λ _ _ _. ok (response 200);
  decode_branches = λ _. ok [];
}

abbrev syncing : World GerritProject
syncing = connected (Syncer.new_project empty_cluster (gerrit "ready") listed)

sync_projects_done :
    (Syncer.sync_projects empty_cluster (gerrit "ready") [] (listed ∷ []) syncing).0 ≡ ok tt
unfolding lookup Syncer.sync_projects Syncer.found_or_created Syncer.create_gerrit_project string_eq
    Syncer.sync_project_branches list_project_branches send send_by decode_gerrit_response
    get_instance update_instance_status ◌>>=◌
sync_projects_done = refl

sync_projects_creates_example :
    Missing.creations
      (Syncer.sync_projects empty_cluster (gerrit "ready") [] (listed ∷ []) syncing).1.trace
    ≡ Syncer.new_project empty_cluster (gerrit "ready") listed ∷ []
unfolding lookup
sync_projects_creates_example =
    Missing.sync_projects_creates empty_cluster (gerrit "ready") [] (listed ∷ []) syncing
      sync_projects_done

-- A config map with one file that is to be written, and a disk that takes it.
abbrev writing : Env GerritMergeRequest
writing = record no_env {
  decode_mr_file = λ _. ok (record { path = "a.txt"; contents = some "a" });
  repos = record no_repos { act = λ _ _. ok tt };
}

abbrev git_client : GitClient
git_client = record {
  username = "admin";
  password = "pwd";
  working_dir = "/tmp";
  gerrit_base_url = "http://gerrit";
}

abbrev request : GerritMergeRequest
request = record {
  meta = meta "change";
  spec = record {
    project_name = "tools";
    owner_name = "gerrit";
    author_name = "a";
    author_email = "a@b";
    target_branch = "main";
    source_branch = "";
    commit_message = "";
    additional_arguments = [];
    changes_config_map = "files";
  };
  status = record { value = ""; change_url = ""; change_id = "" };
}

write_files_done :
    (Git.write_files writing git_client "tools" (("a", "{}") ∷ []) [] (connected request)).0
    ≡ ok ("a.txt" ∷ [])
unfolding Git.write_files Git.write_file GitTool.set_file_contents ◌>>=◌
write_files_done = refl

write_files_selects_example :
    Files.Selects writing git_client "tools" [] (("a", "{}") ∷ []) ("a.txt" ∷ [])
write_files_selects_example =
    Files.write_files_selects writing git_client "tools" (("a", "{}") ∷ []) (connected request)
      ("a.txt" ∷ []) write_files_done
