-- ===== src/Controllers/Gerrits/Moves.antt =====
-- A step of the controller is a step of a walk along the life of an instance (controllers/gerrit/gerrit_controller.go).
use mathlib.Core.Bool.{xor}
use edp_gerrit_operator.Base.{
  String, Bool, true, false, ◌≡◌, ◌∷◌, refl, arith, sym, subst, ◌==◌, ◌||◌, not, string_eq, inl,
  inr, Bool-cases,
}
use edp_gerrit_operator.Api.{Gerrit}
use edp_gerrit_operator.World.{Env, World, Trace, Call}
use edp_gerrit_operator.Exec.{M, ◌>>=◌, pure}
use edp_gerrit_operator.Exec.Keeps.{Keeps, attempt_split}
use edp_gerrit_operator.Controllers.Common.{Result}
use edp_gerrit_operator.Controllers.Gerrits
use edp_gerrit_operator.Controllers.Gerrits.Steps.{Step, Walk, Walked}
use edp_gerrit_operator.Controllers.Gerrits.Writes.{IsCalm, IsKept, Updated, update_leaves}

abbrev pub Any : String → Type 0
Any x = Unit

eq_of_test : (x y : String) → (x == y) ≡ true → x ≡ y
eq_of_test x y h = ground arith

pub from_test : (x y to : String) → Step y to → (x == y) ≡ true → Step x to
from_test x y to step h = subst (λ z. Step z to) (sym (eq_of_test x y h)) step

pub from_tests : (x y z to : String) → Step y to → Step z to → (x == y || x == z) ≡ true → Step x to
from_tests x y z to step step' h = elim (Bool-cases (x == y)) [
  | inl e ↦ from_test x y to step e
  | inr e ↦ from_test x z to step' (ground arith)
]

-- Neither new nor failed; and not being installed either.
abbrev pub NotNew : String → Type 0
NotNew x = (x == "" || x == "failed") ≡ false

abbrev pub UnderWay : String → Type 0
UnderWay x = NotNew x × ((x == "installing") ≡ false)

pub from_created :
    (x : String) → (x == "created" || x == "") ≡ true → UnderWay x → Step x "configuring"
from_created x h (n, _) = from_test x "created" _ Step.configure (ground arith)

-- The service leaves the statuses to the controller.
pub record IsModest (env : Env Gerrit) (service : Gerrits.GerritService) : Type (1) where
  pub ready :
      {base : Trace Gerrit} {s : String} {C : String → Type 0}
      → Keeps (Walked env base s C) service.is_deployment_ready
  pub configured :
      {base : Trace Gerrit} {s : String} {C : String → Type 0}
      → Keeps (Walked env base s C) service.configure
  pub exposed :
      {base : Trace Gerrit} {s : String} {C : String → Type 0}
      → Keeps (Walked env base s C) service.expose_configuration

module _ (env : Env Gerrit) (service : Gerrits.GerritService)
    (calm : IsCalm env service.retry_on_conflict) (base : Trace Gerrit) (s : String) where
  -- The status `to` may be sent.
  abbrev MaySend : String → World Gerrit → Type 0
  MaySend to w =
      Walk env base s w.trace w.instance_ref.status.status
      × ((g : Gerrit)
          → g.status.status ≡ to
          → Walk env base s (Call.update_status g ∷ w.trace) g.status.status)

  with_status-IsKept :
      {D : String → Type 0} (to : String)
      → D to
      → IsKept env service calm base s (Gerrits.with_status to) (MaySend to) D
  with_status-IsKept to d = record {
    sends = λ w i. i.1 (Gerrits.with_status to (env.now w.trace) w.instance_ref) refl;
    arrives = λ w i. d;
    refreshed = λ w e g i h c l.
        let sent = Gerrits.with_status to (env.now w.trace) w.instance_ref in
        let k = Walk.reread sent g e _ _ (i.1 sent refl) h c l in
        (k, λ g' q. Walk.send_again sent g' _ _ k q);
    unread = λ w e i h c.
        let sent = Gerrits.with_status to (env.now w.trace) w.instance_ref in
        let k = Walk.unread sent e _ _ (i.1 sent refl) h c in
        (k, λ g' q. Walk.send_again sent g' _ _ k q);
    walk = λ w i. i.0;
  }

  abbrev Here : World Gerrit → Type 0
  Here w = Walk env base s w.trace w.instance_ref.status.status

  with_available-IsKept :
      (b : Bool) → IsKept env service calm base s (Gerrits.with_available b) Here Any
  with_available-IsKept b = record {
    sends =
        λ w i. Walk.rewrite_same (Gerrits.with_available b (env.now w.trace) w.instance_ref) i refl;
    arrives = λ w i. tt;
    refreshed = λ w e g i h c l.
        let sent = Gerrits.with_available b (env.now w.trace) w.instance_ref in
        Walk.reread sent g e _ _ (Walk.rewrite_same sent i refl) h c l;
    unread = λ w e i h c.
        let sent = Gerrits.with_available b (env.now w.trace) w.instance_ref in
        Walk.unread sent e _ _ (Walk.rewrite_same sent i refl) h c;
    walk = λ w i. i;
  }

module _ (env : Env Gerrit) (service : Gerrits.GerritService)
    (calm : IsCalm env service.retry_on_conflict) {base : Trace Gerrit} {s : String} where
  module _ {C D : String → Type 0} (w : World Gerrit) (k : Walked env base s C w) where
    pub update_status-Updated :
        (to : String)
        → Step w.instance_ref.status.status to
        → D to
        → Updated env base s D (Gerrits.update_status env service to w)
    unfolding Gerrits.update_status
    update_status-Updated to step d =
        update_leaves env service calm base s (Gerrits.with_status to)
          (with_status-IsKept env service calm base s to d) w
          (
            k.walk,
            λ g q.
                Walk.write g k.walk (subst (λ x. Step w.instance_ref.status.status x) (sym q) step),
          )

  pub update_available_status-Walked :
      (b : Bool) → Keeps (Walked env base s Any) (Gerrits.update_available_status env service b)
  unfolding Gerrits.update_available_status ◌>>=◌
  update_available_status-Walked b = record {
    at = λ w k. elim (Bool-cases (not (xor w.instance_ref.status.available b))) [
      | inl e ↦ rw e k
      | inr e ↦
          let left =
            update_leaves env service calm base s (Gerrits.with_available b)
              (with_available-IsKept env service calm base s b) w k.walk in
          rw e (record { walk = left.walks; side = tt })
    ];
  }

  -- A step that is taken where the test holds, and code that goes on from either side of it.
  module _ {C D : String → Type 0} (from : String → Bool) (to : String) (rest : M Gerrit Result)
      (stepped : (x : String) → from x ≡ true → C x → Step x to) (arrived : D to)
      (passed : (x : String) → from x ≡ false → C x → D x)
      (onward : (w : World Gerrit) → Walked env base s D w → Walked env base s Any (rest w).1) where
    pub advance-Walked :
        (w : World Gerrit)
        → Walked env base s C w
        → Walked env base s Any (Gerrits.advance env service from to rest w).1
    unfolding Gerrits.advance ◌>>=◌
    advance-Walked w k = elim (Bool-cases (from w.instance_ref.status.status)) [
      | inl e ↦
          let left = update_status-Updated {D = D} w k to (stepped _ e k.side) arrived in
          rw e (
            attempt_split (Walked env base s Any) (Gerrits.update_status env service to)
              (elim [ inl _ ↦ pure Gerrits.after_10 | inr _ ↦ rest ]) w
              (λ d failed. record { walk = left.walks; side = tt })
              (λ a done. onward _ (record { walk = left.walks; side = left.arrived done }))
              (record { walk = left.walks; side = tt }))
      | inr e ↦ rw e (onward w (record { walk = k.walk; side = passed _ e k.side }))
    ]

  -- Where nothing is asked of the status.
  module _ (from : String → Bool) (to : String) (rest : M Gerrit Result)
      (stepped : (x : String) → from x ≡ true → Step x to)
      (k : Keeps (Walked env base s Any) rest) where
    pub advance-Keeps : Keeps (Walked env base s Any) (Gerrits.advance env service from to rest)
    advance-Keeps = record {
      at = λ w h.
          advance-Walked {C = Any} {D = Any} from to rest (λ x e _. stepped x e) tt (λ _ _ _. tt)
            k.at w h;
    }
