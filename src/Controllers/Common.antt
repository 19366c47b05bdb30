-- ===== src/Controllers/Common.antt =====
-- The frame of a reconciliation: the `Reconcile` methods of the project, group, group member and
-- project access controllers have one shape, and so have their `isSpecUpdated`.
pub mod Updates
pub mod Reports
use edp_gerrit_operator.Base.{
  ℕ, String, Bool, false, Option, none, some, inl, inr, ◌&&◌, ◌||◌, not, ◌==◌, Eq,
}
use edp_gerrit_operator.Base.{if◌then◌else◌}
use edp_gerrit_operator.Errors.{Error, wrap}
use edp_gerrit_operator.Api.{Object}
use edp_gerrit_operator.World.{Env}
use edp_gerrit_operator.Exec.{M, ◌>>=◌, ◌>>◌, pure, raise, attempt, deferring, this, assign}
use edp_gerrit_operator.Helper.Client.{get_instance, update_instance_status}

-- `reconcile.Result`; 0 is no request to come back.
pub record Result : Type 0 where
  pub requeue_after : ℕ

abbrev pub done : Result
done = record { requeue_after = 0 }

-- `time.Second`
abbrev pub second : ℕ
second = 1000000000

module _ {Spec Status : Type 0} ⦃e : Eq Spec⦄ where
  -- `isSpecUpdated` of the project, group, group member, project access and merge request controllers.
  unfoldable pub is_spec_updated : Object Spec Status → Object Spec Status → Bool
  is_spec_updated old new = not (old.spec == new.spec) || (not old.meta.deleted && new.meta.deleted)

-- The type assertions before the comparison of an `event.UpdateEvent`: `none` is an object of another kind.
unfoldable pub asserted : {O : Type 0} → (O → O → Bool) → Option O → Option O → Bool
asserted compare none new = false
asserted compare (some old) none = false
asserted compare (some old) (some new) = compare old new

module _ {O : Type 0} (env : Env O) where
  -- After the resource was read: what a failure and a success leave in its status is given.
  unfoldable pub reconcile_found : M O (Unit {0}) → (Error → O → Result × O) → (O → O) → M O Result
  unfolding ◌>>=◌
  reconcile_found try_to_reconcile on_error on_success = do
    r ← attempt try_to_reconcile
    o ← this
    elim r [
      | inl e ↦ assign (on_error e o).1 >> pure (on_error e o).0
      | inr _ ↦ assign (on_success o) >> pure done
    ]

  -- A missing resource ends the reconciliation, and the status is written at the end of any other.
  unfoldable pub reconcile_with :
      String → M O (Unit {0}) → (Error → O → Result × O) → (O → O) → String → String → M O Result
  unfolding reconcile_found
  reconcile_with failure try_to_reconcile on_error on_success namespace name = do
    r ← attempt (get_instance env namespace name)
    elim r [
      | inl e ↦ if env.is_not_found e then pure done else raise (wrap failure e)
      | inr _ ↦
          deferring (update_instance_status env)
            (reconcile_found try_to_reconcile on_error on_success)
    ]
