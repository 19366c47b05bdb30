-- ===== src/Controllers/Replication.antt =====
-- The replication controller (controllers/gerritreplicationconfig).
pub mod Configure
pub mod Quiet
pub mod Commands
pub mod Queries
pub mod Stages
pub mod Order
pub mod Updates
pub mod Progress
use mathlib.Core.Bool.{xor}
use edp_gerrit_operator.Base.{
  ◌*◌, String, Bool, true, inl, inr, ◌&&◌, ◌||◌, not, ◌==◌, ◌=?◌, Option, string_eq,
}
use edp_gerrit_operator.Base.{if◌then◌else◌, [], ◌∷◌}
use edp_gerrit_operator.Errors.{Error, wrap}
use edp_gerrit_operator.Api.{Gerrit}
use edp_gerrit_operator.World.{Env}
use edp_gerrit_operator.Exec.{M, ◌>>=◌, ◌>>◌, pure, raise, wrapping, attempt, this, assign, skip}
use edp_gerrit_operator.Exec.{traced}
use edp_gerrit_operator.Helper.Client.{get_instance, update_instance, update_instance_status}
use edp_gerrit_operator.Helper.Owner.{ensure_owner, get_instance_owner}
use edp_gerrit_operator.Controllers.Common.{Result, done, second, asserted}
use edp_gerrit_operator.Controllers.Replication.Configure.{GerritReplicationConfig}
use edp_gerrit_operator.Controllers.Replication.Configure.{configure_replication}

-- The statuses of controllers/gerrit and pkg/service/gerrit/spec that are compared here.
abbrev pub status_ready : String
status_ready = "ready"

abbrev pub status_failed : String
status_failed = "failed"

abbrev pub status_configuring : String
status_configuring = "configuring"

abbrev pub status_configured : String
status_configured = "configured"

-- `requeueTime`, `requeueTime30`
abbrev pub come_back : Result
come_back = record { requeue_after = 10 * second }

abbrev pub come_back_later : Result
come_back_later = record { requeue_after = 30 * second }

-- `==` on statuses; the times are compared as points in time.
unfoldable pub same_status : GerritReplicationConfig → GerritReplicationConfig → Bool
same_status old new =
    not (xor old.status.available new.status.available)
    && (old.status.last_time_updated =? new.status.last_time_updated)
    && (old.status.status == new.status.status)

-- `isSpecUpdated`: the updates that the controller looks at.
unfoldable pub is_spec_updated :
    Option GerritReplicationConfig → Option GerritReplicationConfig → Bool
unfolding asserted same_status
is_spec_updated = asserted same_status

module _ (env : Env GerritReplicationConfig) where
  -- The status is written by `Status().Update`, and by `Update` where that fails.
  unfoldable pub write_status : M GerritReplicationConfig (Unit {0})
  unfolding ◌>>=◌
  write_status = do
    o ← this
    r ← attempt (update_instance_status env)
    elim r [
      | inr _ ↦ skip
      | inl _ ↦
          wrapping "failed to update GerritReplicationConfig CR %q" (o.meta.name ∷ [])
            (update_instance env)
    ]

  unfoldable pub update_status : String → M GerritReplicationConfig (Unit {0})
  unfolding write_status
  update_status status = do
    o ← this
    t ← traced
    assign
        (record o { status = record o.status { status = status; last_time_updated = env.now t } })
    write_status

  unfoldable pub update_available_status : Bool → M GerritReplicationConfig (Unit {0})
  unfolding write_status
  update_available_status value = do
    o ← this
    if not (xor o.status.available value) then skip else do
      t ← traced
      assign (record o {
        status = record o.status { available = value; last_time_updated = env.now t };
      })
      write_status

  -- The step that configures a fresh resource of a ready Gerrit.
  unfoldable pub start :
      Gerrit → M GerritReplicationConfig Result → M GerritReplicationConfig Result
  unfolding ◌>>=◌
  start g rest = do
    o ← this
    if g.status.status == status_ready
          && (o.status.status == "" || o.status.status == status_failed)
        then (do
          r ← attempt (update_status status_configuring)
          elim r [ inl _ ↦ pure come_back | inr _ ↦ configure_replication env g >> rest ])
        else rest

  -- The step that ends the configuration.
  unfoldable pub finish : M GerritReplicationConfig Result → M GerritReplicationConfig Result
  unfolding ◌>>=◌
  finish rest = do
    o ← this
    if o.status.status == status_configuring
        then (do
          r ← attempt (update_status status_configured)
          elim r [ inl _ ↦ pure come_back | inr _ ↦ rest ])
        else rest

  unfoldable pub make_available : M GerritReplicationConfig Result
  unfolding ◌>>=◌
  make_available = do
    r ← attempt (update_available_status true)
    elim r [ inl _ ↦ pure come_back_later | inr _ ↦ pure done ]

  -- The Gerrit that owns the resource was not read.
  unfoldable pub lost : Error → M GerritReplicationConfig Result
  lost e = if env.is_not_found e then pure done else raise (wrap "failed to get instance owner" e)

  -- What follows once the owner is set.
  unfoldable pub reconcile_owned : M GerritReplicationConfig Result
  unfolding ◌>>=◌
  reconcile_owned = do
    r ← attempt (get_instance_owner env)
    elim r [ inl e ↦ lost e | inr g ↦ start g (finish make_available) ]

  unfoldable pub reconcile : String → String → M GerritReplicationConfig Result
  unfolding ◌>>=◌
  reconcile namespace name = do
    r ← attempt (get_instance env namespace name)
    elim r [
      | inl e ↦ if env.is_not_found e then pure done else raise (wrap "failed to get instance" e)
      | inr _ ↦ do
        o ← this
        ensure_owner env o.spec.owner_name "failed to get gerrit instance"
            "failed to update instance owner refs"
        reconcile_owned
    ]
