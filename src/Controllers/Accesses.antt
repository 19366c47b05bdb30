-- ===== src/Controllers/Accesses.antt =====
-- The project access controller (controllers/gerritprojectaccess/controller.go).
pub mod Writing
use edp_gerrit_operator.Base.{
  Eq, Bool, Option, ◌*◌, String, true, if◌then◌else◌, ◌==◌, string_eq, List, [], ◌∷◌, map,
}
use edp_gerrit_operator.Errors.{Error}
use edp_gerrit_operator.Api.{Object}
use edp_gerrit_operator.Api.Specs.{GerritProjectAccessSpec, GerritProjectAccessStatus, Reference}
use edp_gerrit_operator.World.{Env}
use edp_gerrit_operator.World.Requests.{AccessInfo}
use edp_gerrit_operator.Exec.{M, ◌>>=◌, ◌>>◌, wrapping, this, skip}
use edp_gerrit_operator.Client.Access.{add_access_rights, update_access_rights}
use edp_gerrit_operator.Client.Access.{delete_access_rights, set_project_parent}
use edp_gerrit_operator.Helper.Status.{status_ok}
use edp_gerrit_operator.Helper.Owner.{get_gerrit_client, try_to_delete}
use edp_gerrit_operator.Controllers.Common
use edp_gerrit_operator.Controllers.Common.{Result, second, reconcile_with}

abbrev pub GerritProjectAccess : Type 0
GerritProjectAccess = Object GerritProjectAccessSpec GerritProjectAccessStatus

abbrev pub finalizer_name : String
finalizer_name = "gerritprojectaccess.gerrit.finalizer.name"

abbrev pub access_info : Reference → AccessInfo
access_info ref = record {
  ref_pattern = ref.pattern_text;
  permission_name = ref.permission_name;
  permission_label = ref.permission_label;
  group_name = ref.group_name;
  action = ref.action;
  force = ref.force;
  min = ref.min;
  max = ref.max;
}

-- `prepareAccessInfo`
unfoldable pub prepare_access_info : List Reference → List AccessInfo
prepare_access_info = map access_info

-- `reflect.DeepEqual` on specs is the instance.
unfoldable pub is_spec_updated :
    ⦃e : Eq GerritProjectAccessSpec⦄
    → Option GerritProjectAccess
    → Option GerritProjectAccess
    → Bool
unfolding Common.is_spec_updated Common.asserted
is_spec_updated = Common.asserted Common.is_spec_updated

module _ (env : Env GerritProjectAccess) where
  abbrev deletion_func : String → List Reference → M GerritProjectAccess (Unit {0})
  deletion_func project_name refs =
      wrapping "unable to delete access rights" []
        (delete_access_rights env project_name (prepare_access_info refs))

  -- The rights are added until one reconciliation has succeeded, and replaced from then on.
  unfoldable pub write_access : GerritProjectAccess → M GerritProjectAccess (Unit {0})
  unfolding ◌>>=◌
  write_access o = elim o.spec.references [
    | [] ↦ skip
    | ref ∷ refs ↦
        if o.status.created
        then wrapping "unable to update access rights" []
            (update_access_rights env o.spec.project_name (prepare_access_info (ref ∷ refs)))
        else wrapping "unable to add access rights" []
            (add_access_rights env o.spec.project_name (prepare_access_info (ref ∷ refs)))
  ]

  unfoldable pub write_parent : GerritProjectAccess → M GerritProjectAccess (Unit {0})
  unfolding ◌>>=◌
  write_parent o =
      if o.spec.parent == ""
      then skip
      else wrapping "unable to set project parent" []
          (set_project_parent env o.spec.project_name o.spec.parent)

  unfoldable pub try_to_reconcile : M GerritProjectAccess (Unit {0})
  unfolding ◌>>=◌
  try_to_reconcile = do
    o ← this
    wrapping "unable to init gerrit client" [] (get_gerrit_client env o.spec.owner_name)
    o' ← this
    write_access o'
    write_parent o'
    wrapping "error during TryToDelete" []
        (try_to_delete env finalizer_name (deletion_func o'.spec.project_name o'.spec.references))

  abbrev on_error : Error → GerritProjectAccess → Result × GerritProjectAccess
  on_error e o = (
    record { requeue_after = 10 * second },
    record o { status = record o.status { value = env.error_text e } },
  )

  abbrev on_success : GerritProjectAccess → GerritProjectAccess
  on_success o = record o { status = record { created = true; value = status_ok } }

  unfoldable pub reconcile : String → String → M GerritProjectAccess Result
  unfolding reconcile_with
  reconcile =
      reconcile_with env "unable to get GerritProjectAccess instance" try_to_reconcile on_error
        on_success
