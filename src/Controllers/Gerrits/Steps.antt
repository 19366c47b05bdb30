-- ===== src/Controllers/Gerrits/Steps.antt =====
-- The life of an instance as a step relation, and what the code writes seen as a walk along it
-- (controllers/gerrit/gerrit_controller.go).
use edp_gerrit_operator.Base.{String, true, ◌∷◌, ◌≡◌}
use edp_gerrit_operator.Errors.{Error, ok, err}
use edp_gerrit_operator.Api.{Gerrit}
use edp_gerrit_operator.World.{Env, World, Trace, Call}
use edp_gerrit_operator.Exec.{◌>>=◌}
use edp_gerrit_operator.Exec.Apart.{apart_of_calls, IsApart, IsOther}

-- The life of an instance: installed, created, configured, exposed and ready; a failed one begins again.
pub data Step : String → String → Type 0 where
  install : Step "" "installing"
  reinstall : Step "failed" "installing"
  create : Step "installing" "created"
  configure : Step "created" "configuring"
  configured : Step "configuring" "configured"
  expose : Step "configured" "exposing config"
  exposed : Step "exposing config" "config exposed"
  finish : Step "config exposed" "ready"
  integrate : Step "integration started" "ready"

-- The calls from `base` on write statuses that lead from `s` to the last index, one step at a time; a write
-- may also leave the status as it was. After a write that is refused by a conflict, the instance is read again, and
-- the walk goes on from the status that the cluster has; the status that was refused may then be sent again.
pub data Walk (env : Env Gerrit) (base : Trace Gerrit) (s : String)
    : Trace Gerrit → String → Type 0 where
  begin : Walk env base s base s
  write :
      {t : Trace Gerrit} {s' : String} (g : Gerrit)
      → Walk env base s t s'
      → Step s' g.status.status
      → Walk env base s (Call.update_status g ∷ t) g.status.status
  rewrite_same :
      {t : Trace Gerrit} {s' : String} (g : Gerrit)
      → Walk env base s t s'
      → s' ≡ g.status.status
      → Walk env base s (Call.update_status g ∷ t) g.status.status
  look :
      {t : Trace Gerrit} {s' : String} (c : Call Gerrit)
      → Walk env base s t s'
      → IsOther c
      → Walk env base s (c ∷ t) s'
  reread :
      {t : Trace Gerrit} {s' : String} (g g' : Gerrit) (e : Error) (namespace name : String)
      → Walk env base s (Call.update_status g ∷ t) s'
      → env.update_status t g ≡ err e
      → env.is_conflict e ≡ true
      → env.get (Call.update_status g ∷ t) namespace name ≡ ok g'
      → Walk env base s (Call.get namespace name ∷ Call.update_status g ∷ t) g'.status.status
  unread :
      {t : Trace Gerrit} {s' : String} (g : Gerrit) (e : Error) (namespace name : String)
      → Walk env base s (Call.update_status g ∷ t) s'
      → env.update_status t g ≡ err e
      → env.is_conflict e ≡ true
      → Walk env base s (Call.get namespace name ∷ Call.update_status g ∷ t) s'
  send_again :
      {t : Trace Gerrit} {s' : String} (g g' : Gerrit) (namespace name : String)
      → Walk env base s (Call.get namespace name ∷ Call.update_status g ∷ t) s'
      → g'.status.status ≡ g.status.status
      → Walk env base s
          (Call.update_status g' ∷ Call.get namespace name ∷ Call.update_status g ∷ t)
          g'.status.status
  save :
      {t : Trace Gerrit} {s' : String} (g : Gerrit)
      → Walk env base s t s'
      → Walk env base s (Call.update g ∷ t) s'

-- The calls since `base` are a walk from `s` to the status of the instance, and the status is one of `C`.
pub record Walked (env : Env Gerrit) (base : Trace Gerrit) (s : String) (C : String → Type 0)
    (w : World Gerrit) : Type 0 where
  pub walk : Walk env base s w.trace w.instance_ref.status.status
  pub side : C w.instance_ref.status.status

module _ {env : Env Gerrit} {base : Trace Gerrit} {s : String} {C : String → Type 0} where
  pub Walked-IsApart : IsApart env (Walked env base s C)
  unfolding ◌>>=◌
  Walked-IsApart =
      apart_of_calls env
        (λ A c f h. record { at = λ w k. record { walk = Walk.look c k.walk h; side = k.side } })
        (λ c. record { at = λ w k. record { walk = k.walk; side = k.side } })
        (λ c. record { at = λ w k. record { walk = k.walk; side = k.side } })

  pub Walked-weaken :
      {D : String → Type 0} (w : World Gerrit)
      → ((x : String) → C x → D x)
      → Walked env base s C w
      → Walked env base s D w
  Walked-weaken w f k = record { walk = k.walk; side = f _ k.side }
