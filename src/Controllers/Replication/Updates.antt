-- ===== src/Controllers/Replication/Updates.antt =====
-- What becomes of an update of a replication configuration
-- (controllers/gerritreplicationconfig/gerritreplicationconfig_controller.go).
use mathlib.Core.Bool.{xor}
use edp_gerrit_operator.Base.{
  List, Bool, not, ◌&&◌, Bool-cases, String, true, false, Option, none, some, [], ◌∷◌, ◌≡◌, refl,
  arith, ◌==◌, ◌=?◌, string_eq, inl, inr,
}
use edp_gerrit_operator.Errors.{Outcome, ok, err, panic}
use edp_gerrit_operator.Api.{Gerrit}
use edp_gerrit_operator.World.{Env, World, Call, Trace}
use edp_gerrit_operator.Exec.{◌>>=◌, call, assign, wrapping}
use edp_gerrit_operator.Exec.Keeps.{Keeps, Calls, keeps_rules, bind_to, wrapping-Keeps}
use edp_gerrit_operator.Helper.Client.{get_instance, update_instance}
use edp_gerrit_operator.Helper.Owner
use edp_gerrit_operator.Controllers.Replication.Configure.{GerritReplicationConfig}
use edp_gerrit_operator.Controllers.Replication
use edp_gerrit_operator.Controllers.Replication.Quiet.{
  IsQuiet, is_fresh, Waiting, reconcile_owned_quiet,
}

same_bits : (a b : Bool) → not (xor a b) ≡ true → b ≡ a
unfolding xor
same_bits true true h = refl
same_bits true false h = absurd (ground arith)
same_bits false true h = absurd (ground arith)
same_bits false false h = refl

both : (a b : Bool) → (a && b) ≡ true → (a ≡ true) × (b ≡ true)
both a b h = (ground arith, ground arith)

-- An update that the controller looks at leaves all of the status as it was.
same_status-≡ :
    (old new : GerritReplicationConfig)
    → Replication.is_spec_updated (some old) (some new) ≡ true
    → new.status ≡ old.status
unfolding Replication.is_spec_updated Replication.same_status xor
same_status-≡ old new h =
    let same_available = not (xor old.status.available new.status.available) in
    let same_time = old.status.last_time_updated =? new.status.last_time_updated in
    let same_text = old.status.status == new.status.status in
    let (front, text) = both (same_available && same_time) same_text h in
    let (first, time) = both same_available same_time front in
    let a = same_bits old.status.available new.status.available first in
    let b : new.status.last_time_updated ≡ old.status.last_time_updated = ground (arith, time) in
    let c : new.status.status ≡ old.status.status = ground (arith, text) in rw (a, b, c) refl

module _ (env : Env GerritReplicationConfig)
    (stored : (t : Trace GerritReplicationConfig) (o o' : GerritReplicationConfig)
      → env.update t o ≡ ok o'
      → is_fresh env o' ≡ false) where
  saved :
      (w : World GerritReplicationConfig) (r : Outcome GerritReplicationConfig)
      → env.update w.trace w.instance_ref ≡ r
      → Waiting env w
      → Waiting env (update_instance env w).1
  unfolding update_instance ◌>>=◌
  saved w (ok o') h (k, l) = rw h (record { all = (tt, k.all) }, stored w.trace w.instance_ref o' h)
  saved w (err e) h (k, l) = rw h (record { all = (tt, k.all) }, l)
  saved w panic h (k, l) = rw h (record { all = (tt, k.all) }, l)

  module _ (o : GerritReplicationConfig) (stale : is_fresh env o ≡ false) where
    abbrev Unmoved : World GerritReplicationConfig → Type 0
    Unmoved w = Calls IsQuiet w × (w.instance_ref ≡ o)

    call-Unmoved :
        {A : Type 0} (c : Call GerritReplicationConfig)
        (f : Trace GerritReplicationConfig → Outcome A)
        → IsQuiet c
        → Keeps Unmoved (call c f)
    unfolding ◌>>=◌
    call-Unmoved c f q = record { at = λ w (h, k). (record { all = (q, h.all) }, k) }

    first-Unmoved : (items : List Gerrit) → Keeps Unmoved (Owner.first_gerrit env items)
    unfolding Owner.first_gerrit
    first-Unmoved [] = search keeps_rules
    first-Unmoved (g ∷ _) = search keeps_rules

    owner-Unmoved :
        (name : Option String) (namespace : String)
        → Keeps Unmoved (Owner.get_gerrit_instance env name namespace)
    unfolding Owner.get_gerrit_instance
    owner-Unmoved none namespace = search (keeps_rules, call-Unmoved, first-Unmoved, tt)
    owner-Unmoved (some name) namespace = search (keeps_rules, call-Unmoved, tt)

    owned :
        (g : Gerrit) (w : World GerritReplicationConfig)
        → Unmoved w
        → Waiting env
            (update_instance env (record w { instance_ref = Owner.set_owner_reference g o })).1
    unfolding Owner.set_owner_reference
    owned g w (h, k) = saved _ _ refl (record { all = h.all }, stale)

  ensure_owner-Waiting :
      (name failure update_failure : String) (w : World GerritReplicationConfig)
      → Waiting env w
      → Waiting env (Owner.ensure_owner env name failure update_failure w).1
  unfolding Owner.ensure_owner ◌>>=◌
  ensure_owner-Waiting name failure update_failure w (h, stale) =
      let o = w.instance_ref in
      elim (Bool-cases (Owner.is_instance_owner_set o)) [
        | inl e ↦ rw e (h, stale)
        | inr e ↦ rw e (
            bind_to {P = Unmoved o stale} {Q = Waiting env}
              (wrapping failure [] (
                Owner.get_gerrit_instance env (Owner.find_cr_owner_name env name) o.meta.namespace))
              (λ g. assign (Owner.set_owner_reference g o) >>= λ _.
                wrapping update_failure [] (update_instance env))
              (λ v (h', k). (h', rw k stale)) (λ g v u. owned o stale g v u) w
              ((wrapping-Keeps failure [] _ (owner-Unmoved o stale _ _)).at w (h, refl)))
      ]

  -- The cluster has the new version of a resource whose configuration has begun. Where the controller looks at the
  -- update, the update left all of the status as it was, as an update of the spec does; and the reconciliation that it
  -- leads to runs no command in a pod and none over SSH, so that the new spec is not applied. The status that the
  -- cluster answers an update of the resource with, which is the one it has stored, is taken to have begun too, and
  -- no command to have been run before.
  pub update_ignored :
      (old new : GerritReplicationConfig) (namespace name : String)
      (w : World GerritReplicationConfig)
      → is_fresh env old ≡ false
      → Replication.is_spec_updated (some old) (some new) ≡ true
      → env.get w.trace namespace name ≡ ok new
      → Calls IsQuiet w
      → (new.status ≡ old.status) × Calls IsQuiet (Replication.reconcile env namespace name w).1
  unfolding Replication.reconcile get_instance ◌>>=◌
  update_ignored old new namespace name w begun passed found h =
      let read : World GerritReplicationConfig = record w {
        trace = Call.get namespace name ∷ w.trace;
        instance_ref = new;
      } in
      let same = same_status-≡ old new passed in
      let waiting : Waiting env read = (record { all = (tt, h.all) }, rw same begun) in
      (
        same,
        rw found (
            bind_to {P = Waiting env} {Q = Calls IsQuiet}
              (Owner.ensure_owner env new.spec.owner_name "failed to get gerrit instance"
                "failed to update instance owner refs")
              (λ _. Replication.reconcile_owned env) (λ v k. k.0)
              (λ _ v k. reconcile_owned_quiet env v k.1 k.0) read
              (ensure_owner-Waiting new.spec.owner_name _ _ read waiting)),
      )
