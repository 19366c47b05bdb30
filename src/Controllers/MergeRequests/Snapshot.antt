-- ===== src/Controllers/MergeRequests/Snapshot.antt =====
-- The status that a merge request has after the update of its finalizers (`tryReconcile` of
-- controllers/merge_request/controller.go).
use edp_gerrit_operator.Base.{String, Bool, ◌≡◌, ◌∷◌, arith}
use edp_gerrit_operator.Errors.{ok}
use edp_gerrit_operator.World.{Env, World, Call}
use edp_gerrit_operator.Exec.{◌>>=◌}
use edp_gerrit_operator.Helper.Client.{get_instance, update_instance_status}
use edp_gerrit_operator.Helper.Owner
use edp_gerrit_operator.Controllers.MergeRequests
use edp_gerrit_operator.Controllers.MergeRequests.Git.{GerritMergeRequest}

module _ (env : Env GerritMergeRequest) (work_dir namespace name : String)
    (w : World GerritMergeRequest) (o : GerritMergeRequest)
    (found : env.get w.trace namespace name ≡ ok o) where
  abbrev pub read : World GerritMergeRequest
  read = record w { trace = Call.get namespace name ∷ w.trace; instance_ref = o }

  module _ (requeue : Bool) (u v : World GerritMergeRequest) where
    -- The world after the update of the finalizers, with the status of before.
    abbrev pub restored : World GerritMergeRequest
    restored = record v {
      instance_ref = MergeRequests.set_status u.instance_ref.status v.instance_ref;
    }

    try_reconcile_restores :
        MergeRequests.advance env work_dir read ≡ (ok requeue, u)
        → Owner.try_to_delete env MergeRequests.finalizer_name
            (MergeRequests.deletion_func env work_dir)
            u
          ≡ (ok tt, v)
        → MergeRequests.try_reconcile env work_dir read ≡ (ok requeue, restored)
    unfolding MergeRequests.try_reconcile ◌>>=◌
    try_reconcile_restores advanced freed = rw (advanced, freed)

    -- A change was made or looked at, and then the finalizers were brought up to date or the resource let go of.
    -- The last call of the reconciliation sends to the cluster the status that the change has given the resource,
    -- whatever the status of the resource was in the reply to the update of its finalizers.
    pub reconcile_reports_change :
        MergeRequests.advance env work_dir read ≡ (ok requeue, u)
        → Owner.try_to_delete env MergeRequests.finalizer_name
            (MergeRequests.deletion_func env work_dir)
            u
          ≡ (ok tt, v)
        → (MergeRequests.reconcile env work_dir namespace name w).1.trace
          ≡ Call.update_status restored.instance_ref ∷ v.trace
    unfolding MergeRequests.reconcile get_instance update_instance_status ◌>>=◌
    reconcile_reports_change advanced freed =
        rw (found, try_reconcile_restores advanced freed) (ground arith)
