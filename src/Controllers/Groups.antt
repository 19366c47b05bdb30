-- ===== src/Controllers/Groups.antt =====
-- The group controller (controllers/gerritgroup/controller.go).
pub mod Upsert
pub mod Courses
use edp_gerrit_operator.Base.{
  Eq, Bool, Option, ◌*◌, String, inl, inr, if◌then◌else◌, ◌==◌, string_eq, [],
}
use edp_gerrit_operator.Errors.{Error, wrap, is_err_already_exists}
use edp_gerrit_operator.Api.{Object}
use edp_gerrit_operator.Api.Specs.{GerritGroupSpec, GerritGroupStatus}
use edp_gerrit_operator.World.{Env}
use edp_gerrit_operator.World.Requests.{Group}
use edp_gerrit_operator.Exec.{M, ◌>>=◌, ◌>>◌, raise, wrapping, attempt, this, assign, skip}
use edp_gerrit_operator.Client.Groups.{create_group, update_group}
use edp_gerrit_operator.Service.Connect.{get_rest_client}
use edp_gerrit_operator.Helper.Status.{status_ok}
use edp_gerrit_operator.Helper.Owner.{ensure_owner, get_instance_owner}
use edp_gerrit_operator.Controllers.Common
use edp_gerrit_operator.Controllers.Common.{Result, second, reconcile_with}

abbrev pub GerritGroup : Type 0
GerritGroup = Object GerritGroupSpec GerritGroupStatus

abbrev pub set_value : String → GerritGroup → GerritGroup
set_value v o = record o { status = record o.status { value = v } }

-- `reflect.DeepEqual` on specs is the instance.
unfoldable pub is_spec_updated :
    ⦃e : Eq GerritGroupSpec⦄ → Option GerritGroup → Option GerritGroup → Bool
unfolding Common.is_spec_updated Common.asserted
is_spec_updated = Common.asserted Common.is_spec_updated

module _ (env : Env GerritGroup) where
  abbrev pub set_ids : Group → GerritGroup → GerritGroup
  set_ids gr o = record o {
    status = record o.status { id = gr.id; group_id = env.itoa gr.group_id };
  }

  -- The group exists: the spec is written to it once its identifier is known.
  unfoldable pub update_existing : GerritGroup → M GerritGroup (Unit {0})
  unfolding ◌>>=◌
  update_existing o =
      if o.status.id == ""
      then skip
      else wrapping "unable to update gerrit group" []
          (update_group env o.status.id o.spec.description o.spec.visible_to_all)

  -- What follows once there is a REST client.
  unfoldable pub create_or_update : M GerritGroup (Unit {0})
  unfolding ◌>>=◌
  create_or_update = do
    o ← this
    r ← attempt (create_group env o.spec.name o.spec.description o.spec.visible_to_all)
    elim r [
      | inr gr ↦ assign (set_ids gr o)
      | inl e ↦
          if is_err_already_exists e
          then update_existing o
          else raise (wrap "unable to create group" e)
    ]

  unfoldable pub try_to_reconcile : M GerritGroup (Unit {0})
  unfolding ◌>>=◌
  try_to_reconcile = do
    o ← this
    ensure_owner env o.spec.owner_name "unable to get gerrit instance"
        "unable to update instance owner refs"
    g ← wrapping "unable to get instance owner" [] (get_instance_owner env)
    wrapping "unable to get rest client" [] (get_rest_client env g)
    create_or_update

  abbrev on_error : Error → GerritGroup → Result × GerritGroup
  on_error e o = (record { requeue_after = 10 * second }, set_value (env.error_text e) o)

  unfoldable pub reconcile : String → String → M GerritGroup Result
  unfolding reconcile_with
  reconcile =
      reconcile_with env "unable to get gerrit group" try_to_reconcile on_error
        (set_value status_ok)
