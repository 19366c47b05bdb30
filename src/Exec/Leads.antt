-- ===== src/Exec/Leads.antt =====
-- Where some code returns: from a world that satisfies `P` to a world that satisfies `Q`.
use edp_gerrit_operator.Base.{◌≡◌, refl, arith}
use edp_gerrit_operator.Errors.{Outcome, ok, err, panic}
use edp_gerrit_operator.World.{World}
use edp_gerrit_operator.Exec.{M, lift, this, ◌>>=◌}
use edp_gerrit_operator.Exec.Keeps.{Keeps}

pub record Leads {O A : Type 0} (P : World O → Type 0) (m : M O A) (Q : World O → Type 0)
    : Type 0 where
  pub at : (w : World O) (a : A) → P w → (m w).0 ≡ ok a → Q (m w).1

module _ {O A : Type 0} {P : World O → Type 0} where
  pub keeps-Leads : (m : M O A) → Keeps P m → Leads P m P
  keeps-Leads m k = record { at = λ w a h e. k.at w h }

module _ {O A B : Type 0} {R Q : World O → Type 0} where
  led :
      (r : Outcome A) (f : A → M O B) (w : World O) (b : B)
      → ((a : A) → r ≡ ok a → R w)
      → ((a : A) → Leads R (f a) Q)
      → ((lift r >>= f) w).0 ≡ ok b
      → Q ((lift r >>= f) w).1
  unfolding ◌>>=◌
  led (ok a) f w b h k e = (k a).at w b (h a refl) e
  led (err x) f w b h k e = absurd (ground arith)
  led panic f w b h k e = absurd (ground arith)

module _ {O A B : Type 0} {P R Q : World O → Type 0} where
  pub bind-Leads :
      (m : M O A) (f : A → M O B) → Leads P m R → ((a : A) → Leads R (f a) Q) → Leads P (m >>= f) Q
  unfolding ◌>>=◌
  bind-Leads m f first next = record {
    at = λ w b h e. led (m w).0 f (m w).1 b (λ a returned. first.at w a h returned) next e;
  }

module _ {O B : Type 0} {P Q : World O → Type 0} where
  -- What is read is the resource of the world.
  pub this-Leads :
      (f : O → M O B)
      → ((w : World O) → P w → Leads (λ v. P v) (f w.instance_ref) Q)
      → Leads P (this >>= f) Q
  unfolding ◌>>=◌
  this-Leads f k = record { at = λ w b h e. (k w h).at w b h e }
