-- ===== src/Service/Secrets.antt =====
-- When a secret is created (`CreateSecret` of pkg/service/platform/k8s/k8s.go).
use edp_gerrit_operator.Base.{String, Dict, [], ◌∷◌, ◌≡◌, refl, true, Bool-cases, inl, inr}
use edp_gerrit_operator.Errors.{Error, Outcome, ok, err, panic}
use edp_gerrit_operator.Api.{Gerrit}
use edp_gerrit_operator.World.{Env, World, Call, Trace}
use edp_gerrit_operator.World.Objects.{Secret}
use edp_gerrit_operator.Exec.{◌>>=◌}
use edp_gerrit_operator.Exec.Apart.{IsApart, IsPlain}
use edp_gerrit_operator.Platform.K8s

module _ {O : Type 0} (env : Env O) where
  -- The newest of these calls asked for this secret, and the answer was that there is none.
  abbrev pub IsMissing : Secret → Trace O → Type 0
  IsMissing s (Call.get_secret namespace name ∷ t) =
      (namespace ≡ s.namespace)
      × (name ≡ s.name)
      × (e : Error) × (env.get_secret t namespace name ≡ err e)
      × (env.is_not_found e ≡ true)
  IsMissing s _ = ⊥

  -- Each secret that these calls create was missing just before.
  abbrev pub Guarded : Trace O → Type 0
  Guarded [] = Unit
  Guarded (Call.create_secret s ∷ t) = IsMissing s t × Guarded t
  Guarded (c ∷ t) = Guarded t

  pub record Careful (w : World O) : Type 0 where
    pub guarded : Guarded w.trace

  plain-Guarded : (c : Call O) (t : Trace O) → IsPlain c → Guarded t → Guarded (c ∷ t)
  plain-Guarded (Call.create_secret s) t h k = absurd h
  plain-Guarded c t h k = k

  module _ (g : Gerrit) (name : String) (values labels : Dict String) (w : World O)
      (guarded : Guarded w.trace) where
    abbrev asked : World O
    asked = record w { trace = Call.get_secret g.meta.namespace name ∷ w.trace }

    created_by :
        (e : Error) (r : Outcome (Unit {0}))
        → env.get_secret w.trace g.meta.namespace name ≡ err e
        → env.is_not_found e ≡ true
        → env.set_controller_reference asked.trace g name ≡ r
        → Guarded (K8s.create_new_secret env g name values labels asked).1.trace
    unfolding K8s.create_new_secret ◌>>=◌
    created_by e (ok _) missing none h = rw h ((refl, refl, e, missing, none), guarded)
    created_by e (err x) missing none h = rw h guarded
    created_by e panic missing none h = rw h guarded

    create_secret_by :
        (r : Outcome (Dict String))
        → env.get_secret w.trace g.meta.namespace name ≡ r
        → Guarded (K8s.create_secret env g name values labels w).1.trace
    unfolding K8s.create_secret ◌>>=◌
    create_secret_by (ok existing) h = rw h guarded
    create_secret_by (err e) h = elim (Bool-cases (env.is_not_found e)) [
      | inl none ↦
          rw (h, none) (created_by e (env.set_controller_reference asked.trace g name) h none refl)
      | inr other ↦ rw (h, other) guarded
    ]
    create_secret_by panic h = rw h guarded

  pub Careful-IsApart : IsApart env Careful
  unfolding ◌>>=◌
  Careful-IsApart = record {
    other =
        λ c f h. record { at = λ w k. record { guarded = plain-Guarded c w.trace h k.guarded } };
    secret = λ g name values labels. record {
      at = λ w k. record {
        guarded =
            create_secret_by g name values labels w k.guarded
              (env.get_secret w.trace g.meta.namespace name) refl;
      };
    };
    rest = λ c. record { at = λ w k. record { guarded = k.guarded } };
    session = λ s. record { at = λ w k. record { guarded = k.guarded } };
  }
