-- ===== src/Exec/Settled.antt =====
-- What holds after some code by how it ends: `Q` after a value, `F` after an error and after a panic.
use edp_gerrit_operator.Base.{String, List, ◌≡◌, refl, subst, sym}
use edp_gerrit_operator.Errors.{Outcome, ok, err, panic}
use edp_gerrit_operator.World.{World}
use edp_gerrit_operator.Exec.{
  M, lift, wrapping, wrap_outcome, deferring, after_deferred, crash, this, ◌>>=◌,
}
use edp_gerrit_operator.Exec.Keeps.{Keeps}

abbrev pub Settled :
    {O A : Type 0} → (World O → Type 0) → (World O → Type 0) → Outcome A × World O → Type 0
Settled Q F (ok _, w) = Q w
Settled Q F (err _, w) = F w
Settled Q F (panic, w) = F w

pub record Runs {O A : Type 0} (P : World O → Type 0) (m : M O A) (Q F : World O → Type 0)
    : Type 0 where
  pub at : (w : World O) → P w → Settled Q F (m w)

module _ {O A : Type 0} (Q F : World O → Type 0) where
  kept-Settled : (r : Outcome A) (w : World O) → Q w → (Q w → F w) → Settled Q F (r, w)
  kept-Settled (ok a) w h k = h
  kept-Settled (err e) w h k = k h
  kept-Settled panic w h k = k h

  wrapped-Settled :
      (text : String) (args : List String) (r : Outcome A) (w : World O)
      → Settled Q F (r, w)
      → Settled Q F (wrap_outcome text args r, w)
  wrapped-Settled text args (ok a) w h = h
  wrapped-Settled text args (err e) w h = h
  wrapped-Settled text args panic w h = h

module _ {O A : Type 0} {P F : World O → Type 0} where
  -- Code that keeps what held before it.
  pub keeps-Runs : (m : M O A) → Keeps P m → ((w : World O) → P w → F w) → Runs P m P F
  keeps-Runs m k f = record {
    at = λ w h. let (r, w') = m w in kept-Settled P F r w' (k.at w h) (f w');
  }

  pub wrapping-Runs :
      {Q : World O → Type 0} (text : String) (args : List String) (m : M O A)
      → Runs P m Q F
      → Runs P (wrapping text args m) Q F
  unfolding wrapping
  wrapping-Runs {Q = Q} text args m k = record {
    at = λ w h. let (r, w') = m w in wrapped-Settled Q F text args r w' (k.at w h);
  }

module _ {O A : Type 0} {P Q F : World O → Type 0} where
  -- Code after which `Q` holds however it ends.
  pub after-Runs :
      (m : M O A) → ((w : World O) → P w → Q (m w).1) → ((w : World O) → Q w → F w) → Runs P m Q F
  after-Runs m k f = record {
    at = λ w h. let (r, w') = m w in kept-Settled Q F r w' (k w h) (f w');
  }

  pub crash-Runs : ((w : World O) → P w → F w) → Runs P (crash {A = A}) Q F
  unfolding crash
  crash-Runs k = record { at = k }

module _ {O A B : Type 0} {R Q F : World O → Type 0} where
  Settled-then :
      (r : Outcome A) (f : A → M O B) (w : World O)
      → Settled R F (r, w)
      → ((a : A) → Runs R (f a) Q F)
      → Settled Q F ((lift r >>= f) w)
  unfolding ◌>>=◌
  Settled-then (ok a) f w h k = (k a).at w h
  Settled-then (err e) f w h k = h
  Settled-then panic f w h k = h

  pub bind-Runs :
      {P : World O → Type 0} (m : M O A) (f : A → M O B)
      → Runs P m R F
      → ((a : A) → Runs R (f a) Q F)
      → Runs P (m >>= f) Q F
  unfolding ◌>>=◌
  bind-Runs m f first next = record {
    at = λ w h. let (r, w') = m w in Settled-then r f w' (first.at w h) next;
  }

  -- What is looked up is known from then on.
  looked_up :
      (text : String) (args : List String) (r : Outcome A) (f : A → M O B)
      → ((w : World O) → R w → F w)
      → ((a : A) → r ≡ ok a → Runs R (f a) Q F)
      → Runs R (wrapping text args (lift r) >>= f) Q F
  unfolding ◌>>=◌
  looked_up text args (ok a) f k next = record { at = λ w h. (next a refl).at w h }
  looked_up text args (err e) f k next = record { at = λ w h. k w h }
  looked_up text args panic f k next = record { at = λ w h. k w h }

  -- The same, where what is looked up is used by code that stands before the rest.
  pub nested-Runs :
      {C : Type 0} (text : String) (args : List String) (r : Outcome C) (f : C → M O A)
      (g : A → M O B)
      → ((w : World O) → R w → F w)
      → ((a : C) → r ≡ ok a → Runs R (f a >>= g) Q F)
      → Runs R (wrapping text args (lift r) >>= f >>= g) Q F
  unfolding ◌>>=◌
  nested-Runs text args (ok a) f g k next = record { at = λ w h. (next a refl).at w h }
  nested-Runs text args (err e) f g k next = record { at = λ w h. k w h }
  nested-Runs text args panic f g k next = record { at = λ w h. k w h }

  pub lookup-Runs :
      (text : String) (args : List String) (r : Outcome A) (f : A → M O B)
      → ((w : World O) → R w → F w)
      → ((a : A) → r ≡ ok a → Runs R (f a) Q F)
      → Runs R (wrapping text args (lift r) >>= f) Q F
  lookup-Runs = looked_up

module _ {O A : Type 0} (Q F : World O → Type 0) where
  moved :
      (r : Outcome A) (v w : World O)
      → (Q v → Q w)
      → (F v → F w)
      → Settled Q F (r, v)
      → Settled Q F (r, w)
  moved (ok a) v w kq kf h = kq h
  moved (err e) v w kq kf h = kf h
  moved panic v w kq kf h = kf h

  deferred :
      (r : Outcome A) (s : Outcome (Unit {0})) (w : World O)
      → (Q w → F w)
      → Settled Q F (r, w)
      → Settled Q F (after_deferred r s, w)
  deferred r (ok _) w k h = h
  deferred r (err e) w k h = h
  deferred (ok a) panic w k h = k h
  deferred (err e) panic w k h = h
  deferred panic panic w k h = h

module _ {O A : Type 0} {Q F : World O → Type 0} where
  pub deferring-Runs :
      {P : World O → Type 0} (d : M O (Unit {0})) (m : M O A)
      → Keeps Q d
      → Keeps F d
      → ((w : World O) → Q w → F w)
      → Runs P m Q F
      → Runs P (deferring d m) Q F
  unfolding deferring
  deferring-Runs d m kq kf k h = record {
    at = λ w p.
        let (r, v) = m w in
        let (s, u) = d v in
        deferred Q F r s u (k u) (moved Q F r v u (kq.at v) (kf.at v) (h.at w p));
  }

module _ {O A : Type 0} (Q R F : World O → Type 0) where
  Settled-into :
      (r : Outcome A) (w : World O)
      → ((v : World O) → Q v → R v)
      → Settled Q F (r, w)
      → Settled R F (r, w)
  Settled-into (ok a) w k h = k w h
  Settled-into (err e) w k h = h
  Settled-into panic w k h = h

module _ {O A : Type 0} {P Q R F : World O → Type 0} where
  pub into-Runs : (m : M O A) → ((w : World O) → Q w → R w) → Runs P m Q F → Runs P m R F
  into-Runs m k h = record { at = λ w p. let (r, v) = m w in Settled-into Q R F r v k (h.at w p) }

module _ {O B : Type 0} {P Q F : World O → Type 0} where
  -- What is read is the resource of the world.
  pub this-Runs :
      (o : O) (f : O → M O B)
      → Runs P (f o) Q F
      → Runs (λ w. P w × (w.instance_ref ≡ o)) (this >>= f) Q F
  unfolding ◌>>=◌
  this-Runs o f k = record { at = λ w (h, e). subst (λ x. Settled Q F (f x w)) (sym e) (k.at w h) }
