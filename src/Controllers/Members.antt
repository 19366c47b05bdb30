-- ===== src/Controllers/Members.antt =====
-- The group member controller (controllers/gerritgroupmember/controller.go).
pub mod Requeue
pub mod Removal
use edp_gerrit_operator.Base.{
  Eq, Bool, Option, ℕ, zero, suc, ℤ, pos, negsuc, String, none, some, [],
}
use edp_gerrit_operator.Errors.{Error}
use edp_gerrit_operator.Api.{Object}
use edp_gerrit_operator.Api.Specs.{GerritGroupMemberSpec, GerritGroupMemberStatus}
use edp_gerrit_operator.World.{Env}
use edp_gerrit_operator.Exec.{M, ◌>>=◌, ◌>>◌, wrapping, this}
use edp_gerrit_operator.Client.Groups.{add_user_to_group, delete_user_from_group}
use edp_gerrit_operator.Helper.Status.{set_failure_count, set_success_status}
use edp_gerrit_operator.Helper.Owner.{get_gerrit_client, try_to_delete}
use edp_gerrit_operator.Controllers.Common
use edp_gerrit_operator.Controllers.Common.{Result, reconcile_with}

abbrev pub GerritGroupMember : Type 0
GerritGroupMember = Object GerritGroupMemberSpec GerritGroupMemberStatus

abbrev pub finalizer_name : String
finalizer_name = "gerritgroupmember.gerrit.finalizer.name"

-- `getSyncInterval`, from the value of the environment variable as `time.ParseDuration` reads it:
-- `none` where it is not set or does not parse.
unfoldable pub get_sync_interval : Option ℤ → Option ℕ
get_sync_interval none = none
get_sync_interval (some (pos zero)) = none
get_sync_interval (some (pos (suc n))) = some (suc n)
get_sync_interval (some (negsuc n)) = none

-- `reflect.DeepEqual` on specs is the instance.
unfoldable pub is_spec_updated :
    ⦃e : Eq GerritGroupMemberSpec⦄ → Option GerritGroupMember → Option GerritGroupMember → Bool
unfolding Common.is_spec_updated Common.asserted
is_spec_updated = Common.asserted Common.is_spec_updated

module _ (env : Env GerritGroupMember) (interval : Option ℤ) where
  abbrev deletion_func : GerritGroupMemberSpec → M GerritGroupMember (Unit {0})
  deletion_func s =
      wrapping "unable to delete user from group" []
        (delete_user_from_group env s.group_id s.account_id)

  unfoldable pub try_to_reconcile : M GerritGroupMember (Unit {0})
  unfolding ◌>>=◌
  try_to_reconcile = do
    o ← this
    wrapping "unable to init gerrit client" [] (get_gerrit_client env o.spec.owner_name)
    o' ← this
    wrapping "unable to add user to group" []
        (add_user_to_group env o'.spec.group_id o'.spec.account_id)
    wrapping "unable to delete CR" [] (try_to_delete env finalizer_name (deletion_func o'.spec))

  -- The requeue time is the constant one where it is set, and the exponential one where not.
  unfoldable pub on_error : Error → GerritGroupMember → Result × GerritGroupMember
  unfolding get_sync_interval
  on_error e o =
      let failed = record o.status { value = env.error_text e } in
      let (exp_requeue_time, counted) = set_failure_count env.exp_timeout failed in
      let requeue_time : ℕ = elim (get_sync_interval interval) [
        | none ↦ exp_requeue_time
        | some constant ↦ constant
      ] in
      (record { requeue_after = requeue_time }, record o { status = counted })

  abbrev on_success : GerritGroupMember → GerritGroupMember
  on_success o = record o { status = set_success_status o.status }

  unfoldable pub reconcile : String → String → M GerritGroupMember Result
  unfolding reconcile_with
  reconcile =
      reconcile_with env "unable to get GerritGroupMember instance" try_to_reconcile on_error
        on_success
