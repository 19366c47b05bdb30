-- ===== src/Controllers/MergeRequests.antt =====
-- The merge request controller (controllers/merge_request/controller.go).
pub mod Git
mod Untouched
pub mod Progress
pub mod Cleaning
pub mod Files
pub mod Snapshot
pub mod Following
use edp_gerrit_operator.Base.{
  Eq, Option, ◌*◌, String, ◌<>◌, Bool, true, false, inl, inr, ◌&&◌, ◌==◌, string_eq,
}
use edp_gerrit_operator.Base.{if◌then◌else◌, []}
use edp_gerrit_operator.Errors.{wrap, new}
use edp_gerrit_operator.Api.Specs.{GerritMergeRequestSpec, GerritMergeRequestStatus}
use edp_gerrit_operator.World.{Env, World}
use edp_gerrit_operator.Exec.{M, ◌>>=◌, ◌>>◌, pure, raise, wrapping, attempt, this, assign, skip}
use edp_gerrit_operator.Client.Changes.{change_abandon, change_get}
use edp_gerrit_operator.Helper.Client.{get_instance, update_instance_status}
use edp_gerrit_operator.Helper.Owner.{get_gerrit_client, try_to_delete}
use edp_gerrit_operator.Controllers.Common
use edp_gerrit_operator.Controllers.Common.{Result, done, second}
use edp_gerrit_operator.Controllers.MergeRequests.Git

abbrev pub finalizer_name : String
finalizer_name = "merge_request.gerrit.finalizer.name"

abbrev pub status_new : String
status_new = "NEW"

-- `time.Second * helper.DefaultRequeueTime`
abbrev pub come_back : Result
come_back = record { requeue_after = 30 * second }

abbrev pub set_status : GerritMergeRequestStatus → Git.GerritMergeRequest → Git.GerritMergeRequest
set_status s o = record o { status = s }

abbrev pub set_value : String → Git.GerritMergeRequest → Git.GerritMergeRequest
set_value v o = set_status (record o.status { value = v }) o

-- `reflect.DeepEqual` on specs is the instance.
unfoldable pub is_spec_updated :
    ⦃e : Eq GerritMergeRequestSpec⦄
    → Option Git.GerritMergeRequest
    → Option Git.GerritMergeRequest
    → Bool
unfolding Common.is_spec_updated Common.asserted
is_spec_updated = Common.asserted Common.is_spec_updated

module _ (env : Env Git.GerritMergeRequest) (work_dir : String) where
  -- `getGerritClient` of `PrepareGerritServiceOption`
  abbrev gerrit_client : M Git.GerritMergeRequest (Unit {0})
  gerrit_client = do
    o ← this
    wrapping "failed to create gerrit client" [] (get_gerrit_client env o.spec.owner_name)

  unfoldable pub get_change_status : M Git.GerritMergeRequest String
  unfolding ◌>>=◌
  get_change_status = do
    wrapping "unable to get gerrit client" [] gerrit_client
    o ← this
    change ← wrapping "unable to get change id" [] (change_get env o.status.change_id)
    pure change.status

  -- `makeDeletionFunc`: only a change that is still new is abandoned.
  unfoldable pub deletion_func : M Git.GerritMergeRequest (Unit {0})
  unfolding ◌>>=◌
  deletion_func = do
    wrapping "unable to get gerrit client" [] gerrit_client
    o ← this
    change ← wrapping "unable to get change id" [] (change_get env o.status.change_id)
    if change.status == status_new
        then (do
          o' ← this
          wrapping "unable to abandon change" [] (change_abandon env o'.status.change_id))
        else skip

  -- The first half of `tryReconcile`: the status of the change, and whether to come back.
  unfoldable pub advance : M Git.GerritMergeRequest Bool
  unfolding ◌>>=◌
  advance = do
    o ← this
    if o.status.change_id == ""
        then (if o.spec.source_branch == "" && o.spec.changes_config_map == ""
            then raise (new "sourceBranch or changesConfigMap must be specified")
            else do
              status ← wrapping "unable to create change" [] (Git.create_change env work_dir)
              o' ← this
              assign (set_status status o')
              pure true)
        else do
          status ← wrapping "unable to get change status" [] get_change_status
          o' ← this
          assign (set_value status o')
          pure (status == status_new)

  unfoldable pub try_reconcile : M Git.GerritMergeRequest Bool
  unfolding ◌>>=◌
  try_reconcile = do
    requeue ← advance
    snapshot ← this
    wrapping "unable to delete resource" [] (try_to_delete env finalizer_name deletion_func)
    o ← this
    assign (set_status snapshot.status o)
    pure requeue

  unfoldable pub reconcile : String → String → M Git.GerritMergeRequest Result
  unfolding ◌>>=◌
  reconcile namespace name = do
    r ← attempt (get_instance env namespace name)
    elim r [
      | inl e ↦
          if env.is_not_found e
          then pure done
          else raise (wrap "unable to get GerritMergeRequest instance" e)
      | inr _ ↦ do
        t ← attempt try_reconcile
        o ← this
        result ← elim t [
          | inl e ↦ assign (set_value (env.error_text e) o) >> pure come_back
          | inr requeue ↦ pure (if requeue then come_back else done)
        ]
        update_instance_status env
        pure result
    ]
