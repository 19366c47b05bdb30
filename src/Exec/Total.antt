-- ===== src/Exec/Total.antt =====
-- Total correctness: from a resource that satisfies `P`, the code returns a value, and the value and
-- the resource that it leaves satisfy `Q`.
use edp_gerrit_operator.Base.{
  ◌≡◌, refl, String, List, arith, subst, Bool, true, false, if◌then◌else◌,
}
use edp_gerrit_operator.Errors.{Error, Outcome, ok, err, panic}
use edp_gerrit_operator.World.{World}
use edp_gerrit_operator.Exec.{M, raise, pure, lift, wrapping, wrap_outcome, ◌>>=◌}

pub record Total {O A : Type 0} (P : O → Type 0) (m : M O A) (Q : A → O → Type 0) : Type 0 where
  pub run : (w : World O) → P w.instance_ref → (a : A) × ((m w).0 ≡ ok a) × Q a (m w).1.instance_ref

-- Partial correctness: where the code returns a value, `Q` holds of it and of the world after it.
pub record Ensures {O A : Type 0} (m : M O A) (Q : A → World O → Type 0) : Type 0 where
  pub at : (w : World O) (a : A) → (m w).0 ≡ ok a → Q a (m w).1

module _ {O A B : Type 0} {Q : B → World O → Type 0} where
  ensured : (r : Outcome A) (f : A → M O B) → ((a : A) → Ensures (f a) Q) → Ensures (lift r >>= f) Q
  unfolding ◌>>=◌
  ensured (ok a) f k = record { at = λ w b h. (k a).at w b h }
  ensured (err e) f k = record { at = λ w b h. absurd (ground arith) }
  ensured panic f k = record { at = λ w b h. absurd (ground arith) }

  -- What the last part of some code ensures, the whole ensures.
  pub bind-Ensures : (m : M O A) (f : A → M O B) → ((a : A) → Ensures (f a) Q) → Ensures (m >>= f) Q
  unfolding ◌>>=◌
  bind-Ensures m f k = record { at = λ w b h. let (r, w') = m w in (ensured r f k).at w' b h }

module _ {O A : Type 0} {Q : A → World O → Type 0} where
  pub raise-Ensures : (e : Error) → Ensures (raise e) Q
  unfolding raise
  raise-Ensures e = record { at = λ w a h. absurd (ground arith) }

  pub if-Ensures :
      (b : Bool) (m n : M O A) → Ensures m Q → Ensures n Q → Ensures (if b then m else n) Q
  if-Ensures true m n k l = k
  if-Ensures false m n k l = l

-- What some code ensures of the world, it ensures with its error wrapped and its value changed.
wrapped_ok :
    {A : Type 0} (text : String) (args : List String) (r : Outcome A) (a : A)
    → wrap_outcome text args r ≡ ok a
    → r ≡ ok a
wrapped_ok text args (ok b) a h = h
wrapped_ok text args (err e) a h = absurd (ground arith)
wrapped_ok text args panic a h = absurd (ground arith)

module _ {O A : Type 0} {Q : World O → Type 0} where
  pub wrapping-Ensures :
      (text : String) (args : List String) (m : M O A)
      → Ensures m (λ a. Q)
      → Ensures (wrapping text args m) (λ a. Q)
  unfolding wrapping
  wrapping-Ensures text args m k = record {
    at = λ w a h. k.at w a (wrapped_ok text args (m w).0 a h);
  }

module _ {O A B : Type 0} where
  mapped :
      (Q : World O → Type 0) (f : A → B) (r : Outcome A) (w : World O)
      → ((a : A) → r ≡ ok a → Q w)
      → (b : B) → ((lift r >>= λ a. pure (f a)) w).0 ≡ ok b
      → Q ((lift r >>= λ a. pure (f a)) w).1
  unfolding ◌>>=◌
  mapped Q f (ok a) w k b h = k a refl
  mapped Q f (err e) w k b h = absurd (ground arith)
  mapped Q f panic w k b h = absurd (ground arith)

  pub map-Ensures :
      {Q : World O → Type 0} (m : M O A) (f : A → B)
      → Ensures m (λ a. Q)
      → Ensures (m >>= λ a. pure (f a)) (λ b. Q)
  unfolding ◌>>=◌
  map-Ensures {Q = Q} m f k = record {
    at = λ w b h. let (r, w') = m w in mapped Q f r w' (λ a e. k.at w a e) b h;
  }

abbrev QIn : {A : Type 0} → (A → Type 0) → Outcome A → Type 0
QIn Q (ok a) = Q a
QIn Q _ = Unit

-- A returned value has what the value itself has.
pub pure-Ensures :
    {O A : Type 0} {Q : A → Type 0} (a : A) → Q a → Ensures {O = O} (pure a) (λ b w. Q b)
unfolding pure
pure-Ensures {Q = Q} a q = record { at = λ w b h. subst (λ r. QIn Q r) h q }

pub ruleset ensures_rules = (bind-Ensures, raise-Ensures, if-Ensures, pure-Ensures)

-- What some code that only looks something up ensures of the value.
pub lookup-Ensures :
    {O A : Type 0} (text : String) (args : List String) (r : Outcome A)
    → Ensures {O = O} (wrapping text args (lift r)) (λ a w. r ≡ ok a)
unfolding wrapping lift
lookup-Ensures text args r = record { at = λ w a h. wrapped_ok text args r a h }

module _ {O A B : Type 0} {Q : B → World O → Type 0} where
  returned_Ensures :
      (r : Outcome A) (f : A → M O B)
      → ((a : A) → r ≡ ok a → Ensures (f a) Q)
      → Ensures (lift r >>= f) Q
  unfolding ◌>>=◌
  returned_Ensures (ok a) f k = record { at = λ w b h. (k a refl).at w b h }
  returned_Ensures (err e) f k = record { at = λ w b h. absurd (ground arith) }
  returned_Ensures panic f k = record { at = λ w b h. absurd (ground arith) }

  -- The last part has what the first ensures of its value.
  pub then-Ensures :
      {R : A → Type 0} (m : M O A) (f : A → M O B)
      → Ensures m (λ a w. R a)
      → ((a : A) → R a → Ensures (f a) Q)
      → Ensures (m >>= f) Q
  unfolding ◌>>=◌
  then-Ensures m f first next = record {
    at = λ w b h.
        let (r, w') = m w in (returned_Ensures r f (λ a e. next a (first.at w a e))).at w' b h;
  }

pub weaken-Ensures :
    {O A : Type 0} {P Q : A → Type 0} (m : M O A)
    → Ensures m (λ a w. P a)
    → ((a : A) → P a → Q a)
    → Ensures m (λ a w. Q a)
weaken-Ensures m k f = record { at = λ w a h. f a (k.at w a h) }
