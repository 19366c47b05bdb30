-- ===== src/Controllers/Replication/Progress.antt =====
-- How the status of a replication configuration moves
-- (controllers/gerritreplicationconfig/gerritreplicationconfig_controller.go).
use mathlib.Core.Bool.{xor}
use edp_gerrit_operator.Api.Specs.{GerritReplicationConfigStatus}
use edp_gerrit_operator.Base.{
  Bool-cases, inl, inr, ◌≢◌, ◌∷◌, if◌then◌else◌, String, true, false, some, ◌≡◌, ◌==◌,
}
use edp_gerrit_operator.Base.{string_eq, arith, ◌&&◌}
use edp_gerrit_operator.Api.{Gerrit, OwnerReference}
use edp_gerrit_operator.World.{Env, World, Call, Trace}
use edp_gerrit_operator.Exec.{M, ◌>>=◌}
use edp_gerrit_operator.Errors.{ok}
use edp_gerrit_operator.Exec.Keeps.{Calls}
use edp_gerrit_operator.Helper.Client.{update_instance_status}
use edp_gerrit_operator.Helper.Owner
use edp_gerrit_operator.Controllers.Common.{Result, done}
use edp_gerrit_operator.Controllers.Replication.Configure.{GerritReplicationConfig}
use edp_gerrit_operator.Controllers.Replication
use edp_gerrit_operator.Controllers.Replication.Quiet.{
  IsQuiet, is_fresh, start_passed, reconcile_owned_quiet,
}

module _ (env : Env GerritReplicationConfig) where
  finish_passed :
      (rest : M GerritReplicationConfig Result) (w : World GerritReplicationConfig)
      → w.instance_ref.status.status ≢ "configuring"
      → Replication.finish env rest w ≡ rest w
  unfolding Replication.finish
  finish_passed rest w h = ground arith

  module _
      (echo : (t : Trace GerritReplicationConfig) (o : GerritReplicationConfig)
        → env.update_status t o ≡ ok o) where
    abbrev stamped :
        (GerritReplicationConfigStatus → GerritReplicationConfigStatus)
        → World GerritReplicationConfig
        → World GerritReplicationConfig
    stamped f w =
        let o = record w.instance_ref {
          status = record (f w.instance_ref.status) { last_time_updated = env.now w.trace };
        } in
        record w { trace = Call.update_status o ∷ w.trace; instance_ref = o }

    update_status_echo :
        (s : String) (w : World GerritReplicationConfig)
        → Replication.update_status env s w ≡ (ok tt, stamped (λ st. record st { status = s }) w)
    unfolding Replication.update_status Replication.write_status update_instance_status ◌>>=◌
    update_status_echo s w = rw echo

    update_available_status_echo :
        (w : World GerritReplicationConfig)
        → Replication.update_available_status env true w ≡ (
          ok tt,
          if w.instance_ref.status.available
              then w
              else stamped (λ st. record st { available = true }) w,
        )
    unfolding Replication.update_available_status Replication.write_status update_instance_status
        ◌>>=◌ xor
    update_available_status_echo w = elim (Bool-cases w.instance_ref.status.available) [
      | inl e ↦ rw e
      | inr e ↦ rw (e, echo)
    ]

    -- The last step leaves a resource that is available.
    make_available_echo :
        (w : World GerritReplicationConfig)
        → ((Replication.make_available env w).0 ≡ ok done)
          × ((Replication.make_available env w).1.instance_ref.status.status
              ≡ w.instance_ref.status.status)
          × ((Replication.make_available env w).1.instance_ref.status.available ≡ true)
    unfolding Replication.make_available ◌>>=◌
    make_available_echo w = rw update_available_status_echo (ground arith)

    finish_echo :
        (w : World GerritReplicationConfig)
        → w.instance_ref.status.status ≡ "configuring"
        → ((Replication.finish env (Replication.make_available env) w).0 ≡ ok done)
          × ((Replication.finish env
                (Replication.make_available env)
                w).1.instance_ref.status.status
              ≡ "configured")
          × ((Replication.finish env
                (Replication.make_available env)
                w).1.instance_ref.status.available
              ≡ true)
    unfolding Replication.finish ◌>>=◌ string_eq
    finish_echo w h = rw (h, update_status_echo) (make_available_echo _)

    module _ (w : World GerritReplicationConfig) (ref : OwnerReference) (g : Gerrit)
        (owned : Owner.get_gerrit_owner w.instance_ref.meta.owner_references ≡ some ref)
        (found : env.get_gerrit w.trace w.instance_ref.meta.namespace ref.name ≡ ok g) where
      get_instance_owner_found : Owner.get_instance_owner env w ≡ (
        ok g,
        record w { trace = Call.get_gerrit w.instance_ref.meta.namespace ref.name ∷ w.trace },
      )
      unfolding Owner.get_instance_owner Owner.owner_of ◌>>=◌
      get_instance_owner_found = rw (owned, found)

      reconcile_owned_passed :
          (g.status.status == "ready" && is_fresh env w.instance_ref) ≡ false
          → Replication.reconcile_owned env w
            ≡ Replication.finish env (Replication.make_available env) (record w {
              trace = Call.get_gerrit w.instance_ref.meta.namespace ref.name ∷ w.trace;
            })
      unfolding Replication.reconcile_owned ◌>>=◌
      reconcile_owned_passed h = rw get_instance_owner_found (start_passed env g _ _ h)

      -- The environment takes status updates as they are sent, and the owner of the resource is read. A resource
      -- left in "configuring" by a configuration that failed is then called configured and
      -- available, and the reconciliation is over; where no call so far configured, none has configured then.
      pub reconcile_owned_configuring :
          w.instance_ref.status.status ≡ "configuring"
          → Calls IsQuiet w
          → ((Replication.reconcile_owned env w).0 ≡ ok done)
            × ((Replication.reconcile_owned env w).1.instance_ref.status.status ≡ "configured")
            × ((Replication.reconcile_owned env w).1.instance_ref.status.available ≡ true)
            × Calls IsQuiet (Replication.reconcile_owned env w).1
      unfolding string_eq
      reconcile_owned_configuring status k =
          let fresh : is_fresh env w.instance_ref ≡ false = rw status in
          let passed = reconcile_owned_passed (ground arith) in
          let (a, b, c) = finish_echo _ status in
          (rw passed a, rw passed b, rw passed c, reconcile_owned_quiet env w fresh k)

      -- A resource whose Gerrit is not ready is called available, whatever its status was, unless it is
      -- being configured; the status stays.
      pub reconcile_owned_unready :
          g.status.status ≢ "ready"
          → w.instance_ref.status.status ≢ "configuring"
          → ((Replication.reconcile_owned env w).0 ≡ ok done)
            × ((Replication.reconcile_owned env w).1.instance_ref.status.status
                ≡ w.instance_ref.status.status)
            × ((Replication.reconcile_owned env w).1.instance_ref.status.available ≡ true)
      reconcile_owned_unready unready other =
          let w' : World GerritReplicationConfig = record w {
            trace = Call.get_gerrit w.instance_ref.meta.namespace ref.name ∷ w.trace;
          } in
          rw
            (
              reconcile_owned_passed (ground arith),
              finish_passed (Replication.make_available env) w' other,
            )
            (make_available_echo w')
