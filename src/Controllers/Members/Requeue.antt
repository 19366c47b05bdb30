-- ===== src/Controllers/Members/Requeue.antt =====
-- When a group member that failed is looked at again (controllers/gerritgroupmember/controller.go).
use edp_gerrit_operator.Base.{refl, ℕ, ℤ, pos, zero, suc, some, none, Option, ◌≡◌, ◌<◌, ◌≤◌, arith}
use edp_gerrit_operator.Errors.{Error}
use edp_gerrit_operator.World.{Env}
use edp_gerrit_operator.Helper.Status.{get_timeout_bounds, max_time_out, set_failure_count}
use edp_gerrit_operator.Controllers.Members
use edp_gerrit_operator.Controllers.Members.{GerritGroupMember}

module _ (env : Env GerritGroupMember) (e : Error) (o : GerritGroupMember) where
  -- A failure is always followed by another reconciliation. Without an interval that parses to a positive
  -- time it comes after an hour at most.
  pub on_error_bounds :
      (interval : Option ℤ)
      → Members.get_sync_interval interval ≡ none
      → (0 < (Members.on_error env interval e o).0.requeue_after)
        × ((Members.on_error env interval e o).0.requeue_after ≤ max_time_out)
  unfolding Members.on_error set_failure_count
  on_error_bounds interval unset =
      rw (unset, Members.on_error) (get_timeout_bounds env.exp_timeout o.status.failure_count)

  -- With an interval that is positive it comes after that interval, however often it failed.
  pub on_error_constant :
      (n : ℕ) → 0 < n → (Members.on_error env (some (pos n)) e o).0.requeue_after ≡ n
  unfolding Members.on_error Members.get_sync_interval
  on_error_constant zero positive = ground arith
  on_error_constant (suc n) positive = refl
