-- ===== src/Controllers/Replication/Quiet.antt =====
-- What a replication configuration that is not fresh never does
-- (controllers/gerritreplicationconfig/gerritreplicationconfig_controller.go).
use edp_gerrit_operator.Base.{String, Bool, false, Option, none, some, ◌≡◌, ◌==◌}
use edp_gerrit_operator.Base.{string_eq, arith, ◌&&◌, ◌||◌}
use edp_gerrit_operator.Api.{Gerrit, OwnerReference}
use edp_gerrit_operator.World.{Env, World, Call}
use edp_gerrit_operator.Exec.{M, ◌>>=◌}
use edp_gerrit_operator.Errors.{Error}
use edp_gerrit_operator.Exec.Keeps.{
  Keeps, Calls, calls_rules, bind-Keeps, this-Keeps, after_attempt,
}
use edp_gerrit_operator.Helper.Client.{update_instance, update_instance_status}
use edp_gerrit_operator.Helper.Owner
use edp_gerrit_operator.Controllers.Common.{Result}
use edp_gerrit_operator.Controllers.Replication.Configure.{GerritReplicationConfig}
use edp_gerrit_operator.Controllers.Replication

-- A call that configures nothing: it runs no command in a pod, and none over SSH.
abbrev pub IsQuiet : {O : Type 0} → Call O → Type 0
IsQuiet (Call.exec_in_pod _ _ _ _) = ⊥
IsQuiet (Call.shell _) = ⊥
IsQuiet _ = Unit

module _ (env : Env GerritReplicationConfig) where
  update_instance-Keeps : Keeps (Calls IsQuiet) (update_instance env)
  unfolding update_instance
  update_instance-Keeps = search (calls_rules, tt)

  update_instance_status-Keeps : Keeps (Calls IsQuiet) (update_instance_status env)
  unfolding update_instance_status
  update_instance_status-Keeps = search (calls_rules, tt)

  owner_of-Keeps :
      (namespace : String) (r : Option OwnerReference)
      → Keeps (Calls IsQuiet) (Owner.owner_of env namespace r)
  unfolding Owner.owner_of
  owner_of-Keeps namespace none = search calls_rules
  owner_of-Keeps namespace (some r) = search (calls_rules, tt)

  ruleset quiet =
      (calls_rules, update_instance-Keeps, update_instance_status-Keeps, owner_of-Keeps, tt)

  write_status-Keeps : Keeps (Calls IsQuiet) (Replication.write_status env)
  unfolding Replication.write_status
  write_status-Keeps = search quiet depth 14

  update_status-Keeps : (s : String) → Keeps (Calls IsQuiet) (Replication.update_status env s)
  unfolding Replication.update_status
  update_status-Keeps s = search (quiet, write_status-Keeps) depth 14

  update_available_status-Keeps :
      (b : Bool) → Keeps (Calls IsQuiet) (Replication.update_available_status env b)
  unfolding Replication.update_available_status
  update_available_status-Keeps b = search (quiet, write_status-Keeps) depth 14

  get_instance_owner-Keeps : Keeps (Calls IsQuiet) (Owner.get_instance_owner env)
  unfolding Owner.get_instance_owner
  get_instance_owner-Keeps = search quiet depth 14

  make_available-Keeps : Keeps (Calls IsQuiet) (Replication.make_available env)
  unfolding Replication.make_available
  make_available-Keeps = search (quiet, update_available_status-Keeps) depth 14

  finish-Keeps :
      (rest : M GerritReplicationConfig Result)
      → Keeps (Calls IsQuiet) rest
      → Keeps (Calls IsQuiet) (Replication.finish env rest)
  unfolding Replication.finish
  finish-Keeps rest k = search (quiet, update_status-Keeps) depth 14

  -- A resource that is not fresh, or whose Gerrit is not ready, passes over the configuration.
  pub start_passed :
      (g : Gerrit) (rest : M GerritReplicationConfig Result) (w : World GerritReplicationConfig)
      → (g.status.status == "ready"
          && (w.instance_ref.status.status == "" || w.instance_ref.status.status == "failed"))
        ≡ false
      → Replication.start env g rest w ≡ rest w
  unfolding Replication.start
  start_passed g rest w h = ground arith

  finish_available-Keeps :
      Keeps (Calls IsQuiet) (Replication.finish env (Replication.make_available env))
  finish_available-Keeps = finish-Keeps _ make_available-Keeps

  -- The status is one in which a reconciliation configures.
  abbrev pub is_fresh : GerritReplicationConfig → Bool
  is_fresh o = o.status.status == "" || o.status.status == "failed"

  abbrev pub Waiting : World GerritReplicationConfig → Type 0
  Waiting w = Calls IsQuiet w × (is_fresh w.instance_ref ≡ false)

  owner_of-Waiting :
      (namespace : String) (r : Option OwnerReference)
      → Keeps Waiting (Owner.owner_of env namespace r)
  unfolding Owner.owner_of ◌>>=◌
  owner_of-Waiting namespace none = record { at = λ w h. h }
  owner_of-Waiting namespace (some r) = record {
    at = λ w (h, k). (record { all = (tt, h.all) }, k);
  }

  get_instance_owner-Waiting : Keeps Waiting (Owner.get_instance_owner env)
  unfolding Owner.get_instance_owner
  get_instance_owner-Waiting =
      bind-Keeps _ _ this-Keeps
        (λ o. owner_of-Waiting _ (Owner.get_gerrit_owner o.meta.owner_references))

  lost : (e : Error) → Keeps (Calls IsQuiet) (Replication.lost env e)
  unfolding Replication.lost
  lost e = search quiet

  start_quiet :
      (g : Gerrit) (w : World GerritReplicationConfig)
      → Waiting w
      → Calls IsQuiet
          (Replication.start env g (Replication.finish env (Replication.make_available env)) w).1
  start_quiet g w (h, k) =
      rw (start_passed g (Replication.finish env (Replication.make_available env)) w (ground arith))
        (finish_available-Keeps.at w h)

  -- A resource that is not fresh makes no call that configures, whatever the environment answers: it runs no
  -- command in a pod and none over SSH.
  pub reconcile_owned_quiet :
      (w : World GerritReplicationConfig)
      → is_fresh w.instance_ref ≡ false
      → Calls IsQuiet w
      → Calls IsQuiet (Replication.reconcile_owned env w).1
  unfolding Replication.reconcile_owned
  reconcile_owned_quiet w h k =
      after_attempt _ _ get_instance_owner-Waiting (λ w p. p.0) (λ e w p. (lost e).at w p.0)
        start_quiet w (k, h)
