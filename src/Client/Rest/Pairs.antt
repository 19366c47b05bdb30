-- ===== src/Client/Rest/Pairs.antt =====
-- Two requests of which the second is sent once the first was accepted, as `UpdateProject` and `UpdateGroup` of
-- pkg/client/gerrit send them.
use edp_gerrit_operator.Base.{String, [], ◌≡◌, true, false}
use edp_gerrit_operator.Errors.{Outcome, ok, err, panic, Response}
use edp_gerrit_operator.World.{Env, World}
use edp_gerrit_operator.World.Requests.{RestyClient, Request}
use edp_gerrit_operator.Exec.{wrap_outcome}
use edp_gerrit_operator.Client.Rest.Answers.{sent}

-- A result that is no value.
abbrev pub IsFailed : {A : Type 0} → Outcome A → Type 0
IsFailed (ok _) = ⊥
IsFailed _ = Unit

module _ {O : Type 0} (env : Env O) where
  -- Gerrit answered, and not with an error status.
  abbrev pub IsAccepted : Outcome Response → Type 0
  IsAccepted (ok rsp) = env.is_error rsp ≡ false
  IsAccepted _ = ⊥

  -- There was no answer, or one with an error status.
  abbrev pub IsRefused : Outcome Response → Type 0
  IsRefused (ok rsp) = env.is_error rsp ≡ true
  IsRefused _ = Unit

  module _ (c : RestyClient) (first second : Request) (w : World O) where
    -- The ways in which the two requests may go, with the result and the world after it.
    pub data Pair : Outcome (Unit {0}) × World O → Type 0 where
      stopped :
          (r : Outcome (Unit {0}))
          → IsRefused (env.http w.trace c first)
          → IsFailed r
          → Pair (r, sent c first w)
      halved :
          (r : Outcome (Unit {0}))
          → IsAccepted (env.http w.trace c first)
          → IsRefused (env.http (sent c first w).trace c second)
          → IsFailed r
          → Pair (r, sent c second (sent c first w))
      both :
          IsAccepted (env.http w.trace c first)
          → IsAccepted (env.http (sent c first w).trace c second)
          → Pair (ok tt, sent c second (sent c first w))

    wrapped-IsFailed :
        (text : String) (r : Outcome (Unit {0})) → IsFailed r → IsFailed (wrap_outcome text [] r)
    wrapped-IsFailed text (ok _) h = absurd h
    wrapped-IsFailed text (err e) h = tt
    wrapped-IsFailed text panic h = tt

    pub wrapped-Pair :
        (text : String) (p : Outcome (Unit {0}) × World O)
        → Pair p
        → Pair (wrap_outcome text [] p.0, p.1)
    wrapped-Pair text _ (stopped r h k) = stopped _ h (wrapped-IsFailed text r k)
    wrapped-Pair text _ (halved r g h k) = halved _ g h (wrapped-IsFailed text r k)
    wrapped-Pair text _ (both g h) = both g h
