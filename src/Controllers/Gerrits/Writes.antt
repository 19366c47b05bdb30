-- ===== src/Controllers/Gerrits/Writes.antt =====
-- What an update of the status leaves behind, whether it succeeds, fails or meets a conflict
-- (`updateStatusWithRetry` of controllers/gerrit/gerrit_controller.go).
use edp_gerrit_operator.Base.{ℕ, String, [], true, ◌∷◌, ◌≡◌, refl, arith, Bool-cases, inl, inr}
use edp_gerrit_operator.Errors.{Error, Outcome, ok, err, panic}
use edp_gerrit_operator.Api.{Gerrit}
use edp_gerrit_operator.World.{Env, World, Trace, Call}
use edp_gerrit_operator.Exec.{M, ◌>>=◌, wrap_outcome}
use edp_gerrit_operator.Helper.Client.{update_instance_status, get_instance}
use edp_gerrit_operator.Controllers.Gerrits
use edp_gerrit_operator.Controllers.Gerrits.Steps.{Walk}

-- The runs of `retry.RetryOnConflict`: the function runs once, or again after each failure by a conflict, and
-- the last run gives the result.
pub data Retried (env : Env Gerrit) (m : M Gerrit (Unit {0}))
    : World Gerrit → Outcome (Unit {0}) × World Gerrit → Type 0 where
  last : (w : World Gerrit) → Retried env m w (m w)
  again :
      {p : Outcome (Unit {0}) × World Gerrit} (w : World Gerrit) (e : Error)
      → (m w).0 ≡ err e
      → env.is_conflict e ≡ true
      → Retried env m (m w).1 p
      → Retried env m w p

-- What the code relies on of the cluster and of `retry.RetryOnConflict`: a status update that succeeds
-- answers what was sent, an update leaves the status to the status updates, and only a failure by a conflict
-- is retried.
pub record IsCalm (env : Env Gerrit) (retry : M Gerrit (Unit {0}) → M Gerrit (Unit {0}))
    : Type 0 where
  pub echo : (t : Trace Gerrit) (g g' : Gerrit) → env.update_status t g ≡ ok g' → g' ≡ g
  pub saved :
      (t : Trace Gerrit) (g g' : Gerrit)
      → env.update t g ≡ ok g'
      → g'.status.status ≡ g.status.status
  pub retries : (m : M Gerrit (Unit {0})) (w : World Gerrit) → Retried env m w (retry m w)

-- What an update of the status leaves: a walk, and one of the statuses `D` where it succeeds.
pub record Updated (env : Env Gerrit) (base : Trace Gerrit) (s : String) (D : String → Type 0)
    (p : Outcome (Unit {0}) × World Gerrit) : Type 0 where
  pub walks : Walk env base s p.1.trace p.1.instance_ref.status.status
  pub arrived : p.0 ≡ ok tt → D p.1.instance_ref.status.status

abbrev W : Type 0
W = World Gerrit

module _ (env : Env Gerrit) (service : Gerrits.GerritService)
    (calm : IsCalm env service.retry_on_conflict) (base : Trace Gerrit) (s : String)
    (mutate : ℕ → Gerrit → Gerrit) where
  abbrev mutated : W → Gerrit
  mutated w = mutate (env.now w.trace) w.instance_ref

  abbrev sent : W → Trace Gerrit
  sent w = Call.update_status (mutated w) ∷ w.trace

  -- The world after a conflict and a new reading that leaves the instance `g`.
  abbrev read_again : W → Gerrit → W
  read_again w g = record w {
    trace = Call.get (mutated w).meta.namespace (mutated w).meta.name ∷ sent w;
    instance_ref = g;
  }

  -- `I` holds before each run of the function that is retried.
  pub record IsKept (I : W → Type 0) (D : String → Type 0) : Type 0 where
    pub sends : (w : W) → I w → Walk env base s (sent w) (mutated w).status.status
    pub arrives : (w : W) → I w → D (mutated w).status.status
    pub refreshed :
        (w : W) (e : Error) (g : Gerrit)
        → I w
        → env.update_status w.trace (mutated w) ≡ err e
        → env.is_conflict e ≡ true
        → env.get (sent w) (mutated w).meta.namespace (mutated w).meta.name ≡ ok g
        → I (read_again w g)
    pub unread :
        (w : W) (e : Error)
        → I w
        → env.update_status w.trace (mutated w) ≡ err e
        → env.is_conflict e ≡ true
        → I (read_again w (mutated w))
    pub walk : (w : W) → I w → Walk env base s w.trace w.instance_ref.status.status

  module _ {I : W → Type 0} {D : String → Type 0} (kept : IsKept I D) where
    -- What a run of the function leaves: the walk, the status where it succeeds, and `I` where it may run again.
    record Left (p : Outcome (Unit {0}) × W) : Type 0 where
      pub walks : Walk env base s p.1.trace p.1.instance_ref.status.status
      pub arrived : p.0 ≡ ok tt → D p.1.instance_ref.status.status
      pub again : (e : Error) → p.0 ≡ err e → env.is_conflict e ≡ true → I p.1

    after_conflict :
        (w : W) (e : Error) (r : Outcome Gerrit)
        → I w
        → env.update_status w.trace (mutated w) ≡ err e
        → env.is_conflict e ≡ true
        → env.get (sent w) (mutated w).meta.namespace (mutated w).meta.name ≡ r
        → Left (Gerrits.try_update env service mutate w)
    unfolding Gerrits.try_update update_instance_status get_instance ◌>>=◌
    after_conflict w e (ok g) i h c l =
        let i' = kept.refreshed w e g i h c l in
        rw (h, c, l)
          (record {
            walks = kept.walk _ i';
            arrived = λ d. absurd (ground arith);
            again = λ _ _ _. i';
          })
    after_conflict w e (err d) i h c l =
        let i' = kept.unread w e i h c in
        rw (h, c, l)
          (record {
            walks = kept.walk _ i';
            arrived = λ d. absurd (ground arith);
            again = λ _ _ _. i';
          })
    after_conflict w e panic i h c l =
        let i' = kept.unread w e i h c in
        rw (h, c, l)
          (record {
            walks = kept.walk _ i';
            arrived = λ d. absurd (ground arith);
            again = λ _ _ _. i';
          })

    tried :
        (w : W) (r : Outcome Gerrit)
        → I w
        → env.update_status w.trace (mutated w) ≡ r
        → Left (Gerrits.try_update env service mutate w)
    unfolding Gerrits.try_update update_instance_status ◌>>=◌
    tried w (ok g) i h =
        let same = calm.echo _ _ g h in
        rw (h, same)
          (record {
            walks = kept.sends w i;
            arrived = λ _. kept.arrives w i;
            again = λ e p c. absurd (ground arith);
          })
    tried w (err e) i h = elim (Bool-cases (env.is_conflict e)) [
      | inl c ↦ after_conflict w e _ i h c refl
      | inr c ↦
          rw (h, c)
            (record {
              walks = kept.sends w i;
              arrived = λ d. absurd (ground arith);
              again = λ e' p c'. absurd (ground (arith, c, c', p));
            })
    ]
    tried w panic i h = rw h (record {
      walks = kept.sends w i;
      arrived = λ d. absurd (ground arith);
      again = λ e p c. absurd (ground arith);
    })

    retried :
        (w : W) (p : Outcome (Unit {0}) × W)
        → I w
        → Retried env (Gerrits.try_update env service mutate) w p
        → Left p
    retried w _ i (Retried.last _) = tried w _ i refl
    retried w p i (Retried.again _ e failed c more) =
        retried _ p ((tried w _ i refl).again e failed c) more

    wrapped :
        (text : String) (r : Outcome (Unit {0})) (v : W)
        → Left (r, v)
        → Updated env base s D (wrap_outcome text [] r, v)
    wrapped text (ok _) v l = record { walks = l.walks; arrived = λ _. l.arrived refl }
    wrapped text (err e) v l = record { walks = l.walks; arrived = λ d. absurd (ground arith) }
    wrapped text panic v l = record { walks = l.walks; arrived = λ d. absurd (ground arith) }

    pub update_leaves :
        (w : W) → I w → Updated env base s D (Gerrits.update_status_with_retry env service mutate w)
    unfolding Gerrits.update_status_with_retry ◌>>=◌
    update_leaves w i = wrapped _ _ _ (retried w _ i (calm.retries _ w))
