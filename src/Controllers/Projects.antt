-- ===== src/Controllers/Projects.antt =====
-- The project controller (controllers/gerritproject/controller.go).
pub mod Upsert
pub mod Courses
pub mod Removal
use edp_gerrit_operator.Base.{Eq, Bool, Option, ◌*◌, String, inl, inr, if◌then◌else◌, []}
use edp_gerrit_operator.Errors.{Error, wrap, is_err_does_not_exist}
use edp_gerrit_operator.Api.{Object}
use edp_gerrit_operator.Api.Specs.{GerritProjectSpec, GerritProjectStatus}
use edp_gerrit_operator.World.{Env}
use edp_gerrit_operator.World.Requests.{Project}
use edp_gerrit_operator.Exec.{M, ◌>>=◌, ◌>>◌, raise, wrapping, attempt, this}
use edp_gerrit_operator.Client.Projects.{
  create_project, get_project, update_project, delete_project,
}
use edp_gerrit_operator.Helper.Status.{status_ok}
use edp_gerrit_operator.Helper.Owner.{get_gerrit_client, try_to_delete}
use edp_gerrit_operator.Controllers.Common
use edp_gerrit_operator.Controllers.Common.{Result, second, reconcile_with}

abbrev pub GerritProject : Type 0
GerritProject = Object GerritProjectSpec GerritProjectStatus

abbrev pub finalizer_name : String
finalizer_name = "gerritproject.gerrit.finalizer.name"

-- The project that the spec asks for.
unfoldable pub wanted : GerritProjectSpec → Project
wanted s = record {
  name = s.name;
  parent = s.parent;
  description = s.description;
  permissions_only = s.permissions_only;
  create_empty_commit = s.create_empty_commit;
  submit_type = s.submit_type;
  branches = s.branches;
  owners = s.owners;
  reject_empty_commit = s.reject_empty_commit;
}

abbrev pub set_value : String → GerritProject → GerritProject
set_value v o = record o { status = record o.status { value = v } }

-- `reflect.DeepEqual` on specs is the instance.
unfoldable pub is_spec_updated :
    ⦃e : Eq GerritProjectSpec⦄ → Option GerritProject → Option GerritProject → Bool
unfolding Common.is_spec_updated Common.asserted
is_spec_updated = Common.asserted Common.is_spec_updated

module _ (env : Env GerritProject) where
  -- `makeDeletionFunc`
  abbrev deletion_func : String → M GerritProject (Unit {0})
  deletion_func name = wrapping "unable to delete project" [] (delete_project env name)

  abbrev create_missing : GerritProjectSpec → M GerritProject (Unit {0})
  create_missing s = wrapping "unable to create gerrit project" [] (create_project env (wanted s))

  -- Whether the project is there decides between creating and updating it.
  unfoldable pub create_or_update : GerritProjectSpec → M GerritProject (Unit {0})
  unfolding ◌>>=◌
  create_or_update s = do
    r ← attempt (get_project env s.name)
    elim r [
      | inl e ↦
          if is_err_does_not_exist e
          then create_missing s
          else raise (wrap "unable to get project" e)
      | inr _ ↦ wrapping "unable to update project" [] (update_project env (wanted s))
    ]

  unfoldable pub try_to_reconcile : M GerritProject (Unit {0})
  unfolding ◌>>=◌
  try_to_reconcile = do
    o ← this
    wrapping "unable to init gerrit client" [] (get_gerrit_client env o.spec.owner_name)
    o' ← this
    create_or_update o'.spec
    wrapping "error during TryToDelete" []
        (try_to_delete env finalizer_name (deletion_func o'.spec.name))

  abbrev on_error : Error → GerritProject → Result × GerritProject
  on_error e o = (record { requeue_after = 10 * second }, set_value (env.error_text e) o)

  unfoldable pub reconcile : String → String → M GerritProject Result
  unfolding reconcile_with
  reconcile =
      reconcile_with env "unable to get GerritProject instance" try_to_reconcile on_error
        (set_value status_ok)
