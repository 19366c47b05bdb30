-- ===== src/Tests/Syncs.antt =====
-- The theorems on the synchronisation, on lists of projects and on finalizers at concrete inputs.
use edp_gerrit_operator.Base.{
  String, Bool, true, false, some, List, [], ◌∷◌, ◌≡◌, refl, string_eq, All, lookup, erase,
}
use edp_gerrit_operator.Errors.{ok}
use edp_gerrit_operator.World.{Env}
use edp_gerrit_operator.World.Requests.{Project}
use edp_gerrit_operator.Exec.{skip, ◌>>=◌}
use edp_gerrit_operator.Client.Rest.{send, send_by, decode_gerrit_response}
use edp_gerrit_operator.Client.Projects.{list_projects, with_names}
use edp_gerrit_operator.Client.Projects.Listing
use edp_gerrit_operator.Helper.Owner
use edp_gerrit_operator.Helper.Owner.Delete
use edp_gerrit_operator.Controllers.Projects.{GerritProject}
use edp_gerrit_operator.Controllers.Syncer
use edp_gerrit_operator.Controllers.Syncer.Filter
use edp_gerrit_operator.Controllers.Syncer.Through
use edp_gerrit_operator.Tests.Samples.{no_env, gerrit, meta, owner, connected, response}

abbrev backend : Project
backend = record {
  name = "";
  parent = "";
  description = "";
  permissions_only = false;
  create_empty_commit = false;
  submit_type = "";
  branches = "";
  owners = "";
  reject_empty_commit = "";
}

-- A project of the cluster, with these finalizers, deleted or not.
abbrev project : Bool → List String → GerritProject
project deleted finalizers = record {
  meta = record (meta "tools") {
    deleted = deleted;
    finalizers = finalizers;
    owner_references = record owner { uid = "2" } ∷ [];
  };
  spec = record {
    name = "tools";
    owner_name = "gerrit";
    parent = "";
    description = "";
    permissions_only = false;
    create_empty_commit = false;
    submit_type = "";
    branches = "";
    owners = "";
    reject_empty_commit = "";
  };
  status = record { value = ""; branches = [] };
}

lookup-filter_gerrit_projects_by_gerrit_example :
    lookup "tools" (Syncer.filter_gerrit_projects_by_gerrit (gerrit "") (project false [] ∷ []))
    ≡ some (project false [])
unfolding string_eq
lookup-filter_gerrit_projects_by_gerrit_example =
    Filter.lookup-filter_gerrit_projects_by_gerrit (gerrit "") (project false [] ∷ []) "tools"

-- A server with the projects `All-Users` and `tools`.
abbrev server : Env GerritProject
server = record no_env {
  http = λ _ _ _. ok (response 200);
  decode_projects = λ _. ok (("All-Users", backend) ∷ ("tools", backend) ∷ []);
}

list_projects_lem :
    (list_projects server "CODE" (connected (project false []))).0
    ≡ ok (record backend { name = "tools" } ∷ [])
unfolding string_eq list_projects send send_by decode_gerrit_response with_names erase ◌>>=◌
list_projects_lem = refl

list_projects-IsOrdinary_example : All Listing.IsOrdinary (record backend { name = "tools" } ∷ [])
list_projects-IsOrdinary_example =
    Listing.list_projects-IsOrdinary server "CODE" (connected (project false []))
      (record backend { name = "tools" } ∷ []) list_projects_lem

-- A server that has built-in projects only, so that the synchronisation of a Gerrit is complete at once.
abbrev bare : Env GerritProject
bare = record server { decode_projects = λ _. ok (("All-Users", backend) ∷ []) }

-- A cluster that takes updates as they are sent.
abbrev cluster : Env GerritProject
cluster = record no_env { update = λ _ o. ok o }

abbrev finalizer : String
finalizer = "gerritproject.gerrit.finalizer.name"

try_to_delete_settles_example :
    Delete.Course cluster finalizer
      (connected (project true (finalizer ∷ [])))
      (ok tt, connected (project true (finalizer ∷ [])))
      (Owner.try_to_delete cluster finalizer skip (connected (project true (finalizer ∷ []))))
unfolding ◌>>=◌
try_to_delete_settles_example =
    Delete.try_to_delete_settles cluster finalizer skip (connected (project true (finalizer ∷ [])))
