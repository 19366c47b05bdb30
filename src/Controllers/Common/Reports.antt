-- ===== src/Controllers/Common/Reports.antt =====
-- What a reconciliation leaves in the status (`Reconcile` of the project, group, group member and project
-- access controllers).
use edp_gerrit_operator.Base.{String, ◌∷◌, ◌≡◌, refl, arith}
use edp_gerrit_operator.Errors.{Error, Outcome, ok, err, panic}
use edp_gerrit_operator.World.{Env, World, Call}
use edp_gerrit_operator.Exec.{M, deferring, ◌>>=◌}
use edp_gerrit_operator.Helper.Client.{get_instance, update_instance_status}
use edp_gerrit_operator.Controllers.Common
use edp_gerrit_operator.Controllers.Common.{Result, done}

-- The world after the resource was read.
abbrev pub read : {O : Type 0} → String → String → O → World O → World O
read namespace name o w = record w { trace = Call.get namespace name ∷ w.trace; instance_ref = o }

module _ {O : Type 0} (env : Env O) where
  -- What one update of the status to that of `o` leaves of a result.
  abbrev pub reported : Outcome Result → O → World O → Outcome Result × World O
  reported r o w =
      let w' : World O = record w { trace = Call.update_status o ∷ w.trace; instance_ref = o } in
      elim (env.update_status w.trace o) [
        | ok reply ↦ (r, record w' { instance_ref = reply })
        | err e ↦ (r, w')
        | Outcome.panic ↦ (Outcome.panic, w')
      ]

  module _ (failure : String) (try_to_reconcile : M O (Unit {0}))
      (on_error : Error → O → Result × O) (on_success : O → O) (namespace name : String) where
    -- The last call and the result, by what the attempt came to.
    abbrev pub report : Outcome (Unit {0}) × World O → Outcome Result × World O
    report (ok _, w) = reported (ok done) (on_success w.instance_ref) w
    report (err e, w) = reported (ok (on_error e w.instance_ref).0) (on_error e w.instance_ref).1 w
    report (panic, w) = reported panic w.instance_ref w

    found_by :
        (r : Outcome (Unit {0})) (u v : World O)
        → try_to_reconcile u ≡ (r, v)
        → deferring
            (update_instance_status env)
            (Common.reconcile_found env try_to_reconcile on_error on_success)
            u
          ≡ report (r, v)
    unfolding Common.reconcile_found update_instance_status ◌>>=◌
    found_by (ok _) u v h = rw h (ground arith)
    found_by (err e) u v h = rw h (ground arith)
    found_by panic u v h = rw h (ground arith)

    -- A reconciliation of a resource that is there ends with one update of its status, whatever the attempt came
    -- to, a panic too: after a success the status is that of a success and no further reconciliation is asked for,
    -- after a failure it is that of this failure and the next reconciliation is asked for at its time. An update
    -- that fails is not reported.
    pub reconcile_with_reports :
        (o : O) (w : World O)
        → env.get w.trace namespace name ≡ ok o
        → Common.reconcile_with env failure try_to_reconcile on_error on_success namespace name w
          ≡ report (try_to_reconcile (read namespace name o w))
    unfolding Common.reconcile_with get_instance ◌>>=◌
    reconcile_with_reports o w found =
        let (r, v) = try_to_reconcile (read namespace name o w) in
        rw found (found_by r (read namespace name o w) v refl)
