-- ===== src/Tests/Resources.antt =====
-- The theorems on projects and groups at concrete inputs.
use edp_gerrit_operator.Base.{ℕ, arith, String, true, false, [], ◌∷◌, ◌≡◌, refl, string_eq}
use edp_gerrit_operator.Errors.{ok}
use edp_gerrit_operator.Api.Specs.{GerritProjectSpec}
use edp_gerrit_operator.World.{Env, World, Call}
use edp_gerrit_operator.Exec.{◌>>=◌}
use edp_gerrit_operator.Client.Rest.Answers.{sent}
use edp_gerrit_operator.Service.Connect
use edp_gerrit_operator.Helper.Owner
use edp_gerrit_operator.Controllers.Projects.Removal as ProjectRemoval
use edp_gerrit_operator.Controllers.Projects.Upsert.{asked, creation}
use edp_gerrit_operator.World.Requests.{Group, get}
use edp_gerrit_operator.Controllers.Projects
use edp_gerrit_operator.Controllers.Projects.{GerritProject}
use edp_gerrit_operator.Controllers.Groups
use edp_gerrit_operator.Controllers.Groups.{GerritGroup}
use edp_gerrit_operator.Controllers.Projects.Courses as ProjectCourses
use edp_gerrit_operator.Controllers.Groups.Courses as GroupCourses
use edp_gerrit_operator.Tests.Samples.{no_env, gerrit, meta, connected, connection, response}

abbrev project_spec : GerritProjectSpec
project_spec = record {
  name = "tools";
  owner_name = "gerrit";
  parent = "All-Projects";
  description = "the tools";
  permissions_only = false;
  create_empty_commit = true;
  submit_type = "INHERIT";
  branches = "";
  owners = "";
  reject_empty_commit = "";
}

abbrev project : GerritProject
project = record {
  meta = meta "tools";
  spec = project_spec;
  status = record { value = ""; branches = [] };
}

-- A server that answers a question with this code and a request to write with 200.
abbrev server : ℕ → Env GerritProject
server status = record no_env {
  http = λ _ _ r. elim r.method [ get ↦ ok (response status) | _ ↦ ok (response 200) ];
  decode_project = λ _. ok (Projects.wanted project_spec);
}

create_or_update-ProjectCourse_example :
    ProjectCourses.ProjectCourse
      (server 404)
      project_spec
      (connected project)
      connection
      (Projects.create_or_update (server 404) project_spec (connected project))
create_or_update-ProjectCourse_example =
    ProjectCourses.create_or_update-ProjectCourse (server 404) project_spec (connected project)
      connection refl (λ t r e h. absurd (ground arith)) (λ body e h. absurd (ground arith))

-- A project that is being deleted, and a server that has forgotten it.
abbrev dying : GerritProject
dying = record project {
  meta = record (meta "tools") { deleted = true; finalizers = Projects.finalizer_name ∷ [] };
}

abbrev freed : GerritProject
freed =
    Owner.set_finalizers (Owner.remove_string dying.meta.finalizers Projects.finalizer_name) dying

abbrev forgetful : Env GerritProject
forgetful = record (server 404) { get_gerrit = λ _ _ _. ok (gerrit "ready"); update = λ _ o. ok o }

abbrev after_owner : World GerritProject
after_owner = record (connected dying) { trace = Call.get_gerrit "edp" "gerrit" ∷ [] }

client_ready : Owner.get_gerrit_client forgetful "gerrit" (connected dying) ≡ (ok tt, after_owner)
unfolding string_eq Owner.get_gerrit_client Owner.ensure_owner Owner.get_instance_owner
    Owner.owner_of Owner.get_gerrit_owner Connect.get_rest_client Connect.reuse ◌>>=◌
client_ready = refl

try_to_reconcile_recreates_example :
    (let w = sent connection (ProjectRemoval.removal forgetful dying) (
        sent connection
          (creation forgetful project_spec)
          (sent connection (asked forgetful project_spec) after_owner)) in
      Projects.try_to_reconcile forgetful (connected dying)
      ≡ (ok tt, record w { trace = Call.update freed ∷ w.trace; instance_ref = freed }))
try_to_reconcile_recreates_example =
    ProjectRemoval.try_to_reconcile_recreates forgetful (connected dying) after_owner client_ready
      connection refl (response 404) (response 200) (response 200) refl refl refl refl refl

-- A group that has this identifier.
abbrev group : String → GerritGroup
group id = record {
  meta = meta "developers";
  spec = record {
    name = "developers";
    owner_name = "gerrit";
    description = "those who develop";
    visible_to_all = true;
  };
  status = record { id = id; group_id = ""; value = "" };
}

abbrev made : Group
made = record { id = "abc"; group_id = 7; members = [] }

abbrev accepting : Env GerritGroup
accepting = record no_env { http = λ _ _ _. ok (response 201); decode_group = λ _. ok made }

create_or_update-GroupCourse_example :
    GroupCourses.GroupCourse accepting
      (connected (group ""))
      connection
      (Groups.create_or_update accepting (connected (group "")))
create_or_update-GroupCourse_example =
    GroupCourses.create_or_update-GroupCourse accepting (connected (group "")) connection refl
      (λ t r e h. absurd (ground arith)) (λ body e h. absurd (ground arith))
