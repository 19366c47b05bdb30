-- ===== src/Helper/Owner/Delete.antt =====
-- `TryToDelete`, `RemoveString` and the owner references on every branch
-- (controllers/helper/helper.go).
use edp_gerrit_operator.Base.{String, true, false, List, [], ◌∷◌, ◌++◌}
use edp_gerrit_operator.Base.{
  ◌≡◌, refl, subst, ◌==◌, string_eq, arith, Bool-cases, inl, inr, sym, ◌≢◌,
}
use edp_gerrit_operator.Errors.{Error, Outcome, ok, err, wrap}
use edp_gerrit_operator.Api.{Object}
use edp_gerrit_operator.World.{Env, World, Call}
use edp_gerrit_operator.Exec.{M}
use edp_gerrit_operator.Helper.Client.{update_instance}
use edp_gerrit_operator.Helper.Owner

-- The second list is the first one without the texts that are `s`, in the same order.
pub data Without (s : String) : List String → List String → Type 0 where
  done : Without s [] []
  dropped : {xs ys : List String} → Without s xs ys → Without s (s ∷ xs) ys
  kept : {xs ys : List String} (x : String) → x ≢ s → Without s xs ys → Without s (x ∷ xs) (x ∷ ys)

-- One of the texts is `s`.
pub data Has (s : String) : List String → Type 0 where
  here : {x : String} {xs : List String} → x ≡ s → Has s (x ∷ xs)
  there : {xs : List String} (x : String) → Has s xs → Has s (x ∷ xs)

remove_string-Without : (xs : List String) (s : String) → Without s xs (Owner.remove_string xs s)
unfolding Owner.remove_string
remove_string-Without [] s = done
remove_string-Without (x ∷ xs) s = elim (string_eq.dec x s) [
  | yes e ↦
      let same : (x == s) ≡ true = ground arith in
      rw same (
        subst (λ y. Without s (y ∷ xs) (Owner.remove_string xs s)) (sym e)
          (dropped (remove_string-Without xs s)))
  | no n ↦
      let other : (x == s) ≡ false = ground arith in
      rw other (kept x n (remove_string-Without xs s))
]

contains_string-Has : (xs : List String) (s : String) → Owner.contains_string xs s ≡ true → Has s xs
unfolding Owner.contains_string
contains_string-Has [] s h = absurd (ground arith)
contains_string-Has (x ∷ xs) s h = elim (string_eq.dec x s) [
  | yes e ↦ here e
  | no n ↦ there x (contains_string-Has xs s (ground arith))
]

Has-contains_string :
    (xs : List String) (s : String) → Owner.contains_string xs s ≡ false → ¬ Has s xs
unfolding Owner.contains_string
Has-contains_string [] s h m = elim m [ ]
Has-contains_string (x ∷ xs) s h (here e) = ground arith
Has-contains_string (x ∷ xs) s h (there _ m) = Has-contains_string xs s (ground arith) m

module _ {Spec Status : Type 0} (env : Env (Object Spec Status)) (finalizer_name : String) where
  -- What an update of `o` in the world `w` leaves.
  abbrev pub after_update :
      Object Spec Status
      → World (Object Spec Status)
      → String
      → Outcome (Unit {0}) × World (Object Spec Status)
  after_update o w failure =
      let w' : World (Object Spec Status) = record w {
        trace = Call.update o ∷ w.trace;
        instance_ref = o;
      } in
      elim (env.update w.trace o) [
        | ok reply ↦ (ok tt, record w' { instance_ref = reply })
        | err e ↦ (err (wrap failure e), w')
        | Outcome.panic ↦ (Outcome.panic, w')
      ]

  -- The resource with these finalizers.
  abbrev with_finalizers : List String → Object Spec Status → Object Spec Status
  with_finalizers fs o = record o { meta = record o.meta { finalizers = fs } }

  -- What follows the deletion function, by what it came to.
  abbrev pub after_deletion :
      Outcome (Unit {0}) × World (Object Spec Status)
      → Outcome (Unit {0}) × World (Object Spec Status)
  after_deletion (err e, w) = (err (wrap "unable to perform delete function" e), w)
  after_deletion (Outcome.panic, w) = (Outcome.panic, w)
  after_deletion (ok _, w) =
      after_update
        (Owner.set_finalizers (Owner.remove_string w.instance_ref.meta.finalizers finalizer_name)
          w.instance_ref)
        w "unable to remove finalizer from instance"

  deleted :
      (delete_func : M (Object Spec Status) (Unit {0})) (w : World (Object Spec Status))
      → w.instance_ref.meta.deleted ≡ true
      → Owner.try_to_delete env finalizer_name delete_func w ≡ after_deletion (delete_func w)
  unfolding Owner.try_to_delete update_instance
  deleted delete_func w dead = ground arith

  pub try_to_delete_by :
      (delete_func : M (Object Spec Status) (Unit {0})) (w : World (Object Spec Status))
      → w.instance_ref.meta.deleted ≡ true
      → (p : Outcome (Unit {0}) × World (Object Spec Status)) → delete_func w ≡ p
      → Owner.try_to_delete env finalizer_name delete_func w ≡ after_deletion p
  try_to_delete_by delete_func w dead p h =
      subst (λ q. Owner.try_to_delete env finalizer_name delete_func w ≡ after_deletion q) h
        (deleted delete_func w dead)

  -- The courses of a call of `TryToDelete`: the result and the state it leaves, with what the deletion function
  -- came to from the same state, where it runs.
  pub data Course (w : World (Object Spec Status))
      (delete_run : Outcome (Unit {0}) × World (Object Spec Status))
      : Outcome (Unit {0}) × World (Object Spec Status) → Type 0 where
    held :
        w.instance_ref.meta.deleted ≡ false
        → Has finalizer_name w.instance_ref.meta.finalizers
        → Course w delete_run (ok tt, w)
    added :
        w.instance_ref.meta.deleted ≡ false
        → ¬ Has finalizer_name w.instance_ref.meta.finalizers
        → Course w delete_run (
            after_update
              (with_finalizers
                (w.instance_ref.meta.finalizers ++ finalizer_name ∷ [])
                w.instance_ref)
              w
              "unable to update instance finalizer")
    refused :
        (e : Error) (v : World (Object Spec Status))
        → w.instance_ref.meta.deleted ≡ true
        → delete_run ≡ (err e, v)
        → Course w delete_run (err (wrap "unable to perform delete function" e), v)
    crashed :
        (v : World (Object Spec Status))
        → w.instance_ref.meta.deleted ≡ true
        → delete_run ≡ (Outcome.panic, v)
        → Course w delete_run (Outcome.panic, v)
    freed :
        (v : World (Object Spec Status)) (left : List String)
        → w.instance_ref.meta.deleted ≡ true
        → delete_run ≡ (ok tt, v)
        → Without finalizer_name v.instance_ref.meta.finalizers left
        → Course w delete_run (
            after_update
              (with_finalizers left v.instance_ref)
              v
              "unable to remove finalizer from instance")

  settled :
      (delete_func : M (Object Spec Status) (Unit {0})) (w : World (Object Spec Status))
      → w.instance_ref.meta.deleted ≡ true
      → (p : Outcome (Unit {0}) × World (Object Spec Status)) → delete_func w ≡ p
      → Course w p (after_deletion p)
  unfolding Owner.set_finalizers
  settled delete_func w dead (ok _, v) h =
      freed v _ dead refl (remove_string-Without _ finalizer_name)
  settled delete_func w dead (err e, v) h = refused e v dead refl
  settled delete_func w dead (Outcome.panic, v) h = crashed v dead refl

  living :
      (delete_func : M (Object Spec Status) (Unit {0})) (w : World (Object Spec Status))
      → w.instance_ref.meta.deleted ≡ false
      → Course w (delete_func w) (Owner.try_to_delete env finalizer_name delete_func w)
  unfolding Owner.try_to_delete Owner.set_finalizers update_instance
  living delete_func w live =
      let fs = w.instance_ref.meta.finalizers in
      elim (Bool-cases (Owner.contains_string fs finalizer_name)) [
        | inl e ↦
            let kept_as_is : Owner.try_to_delete env finalizer_name delete_func w ≡ (ok tt, w) =
              ground arith in
            subst (λ q. Course w (delete_func w) q) (sym kept_as_is)
              (held live (contains_string-Has fs finalizer_name e))
        | inr e ↦
            let sent : Owner.try_to_delete env finalizer_name delete_func w
                ≡ after_update (with_finalizers (fs ++ finalizer_name ∷ []) w.instance_ref) w
                    "unable to update instance finalizer" =
              ground arith in
            subst (λ q. Course w (delete_func w) q) (sym sent)
              (added live (Has-contains_string fs finalizer_name e))
      ]

  -- A live resource gets the finalizer behind the others, with one update, where it does not have it, and nothing
  -- is called where it does. For a resource that is being deleted the deletion function runs first: where it fails,
  -- its error is returned, no update is sent and the finalizers stay; where it succeeds, one update is sent that
  -- has the finalizers other than this one, in their order.
  pub try_to_delete_settles :
      (delete_func : M (Object Spec Status) (Unit {0})) (w : World (Object Spec Status))
      → Course w (delete_func w) (Owner.try_to_delete env finalizer_name delete_func w)
  try_to_delete_settles delete_func w = elim (Bool-cases w.instance_ref.meta.deleted) [
    | inl dead ↦
        subst (λ q. Course w (delete_func w) q) (sym (deleted delete_func w dead))
          (settled delete_func w dead (delete_func w) refl)
    | inr live ↦ living delete_func w live
  ]
