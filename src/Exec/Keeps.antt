-- ===== src/Exec/Keeps.antt =====
-- What holds of every call that some code makes: one rule for each way to build the code.
use edp_gerrit_operator.Base.{String, Bool, true, false, ◌≡◌, refl, List, All, ◌⊎◌, inl, inr}
use edp_gerrit_operator.Base.{if◌then◌else◌}
use edp_gerrit_operator.Errors.{Error, Outcome, ok, err, panic}
use edp_gerrit_operator.World.{World, Call, Trace}
use edp_gerrit_operator.World.Requests.{RestyClient}
use edp_gerrit_operator.World.Shells.{SshClient}
use edp_gerrit_operator.Exec.{
  M, pure, raise, crash, lift, call, wrapping, attempt, catch, deferring, finally,
}
use edp_gerrit_operator.Exec.{◌>>=◌}
use edp_gerrit_operator.Exec.{rest_connection, ssh_session, set_rest, set_ssh, this, assign, traced}

-- `m` keeps `P`, whether it returns, fails or panics.
pub record Keeps {O A : Type 0} (P : World O → Type 0) (m : M O A) : Type 0 where
  pub at : (w : World O) → P w → P (m w).1

-- Every call made so far satisfies `Q`.
pub record Calls {O : Type 0} (Q : Call O → Type 0) (w : World O) : Type 0 where
  pub all : All Q w.trace

module _ {O A : Type 0} {P : World O → Type 0} where
  pub pure-Keeps : (a : A) → Keeps P (pure a)
  unfolding pure
  pure-Keeps a = record { at = λ w h. h }

  pub raise-Keeps : (e : Error) → Keeps P (raise {A = A} e)
  unfolding raise
  raise-Keeps e = record { at = λ w h. h }

  pub crash-Keeps : Keeps P (crash {A = A})
  unfolding crash
  crash-Keeps = record { at = λ w h. h }

  pub lift-Keeps : (r : Outcome A) → Keeps P (lift r)
  unfolding lift
  lift-Keeps r = record { at = λ w h. h }

  pub wrapping-Keeps :
      (text : String) (args : List String) (m : M O A) → Keeps P m → Keeps P (wrapping text args m)
  unfolding wrapping
  wrapping-Keeps text args m k = record { at = λ w h. k.at w h }

  pub attempt-Keeps : (m : M O A) → Keeps P m → Keeps P (attempt m)
  unfolding attempt
  attempt-Keeps m k = record { at = λ w h. k.at w h }

  catch_after :
      (f : Error → M O A)
      → ((e : Error) → Keeps P (f e))
      → (r : Outcome A) → Keeps P (catch (lift r) f)
  unfolding catch lift
  catch_after f k (ok a) = record { at = λ w h. h }
  catch_after f k (err e) = record { at = λ w h. (k e).at w h }
  catch_after f k panic = record { at = λ w h. h }

  pub catch-Keeps :
      (m : M O A) (f : Error → M O A)
      → Keeps P m
      → ((e : Error) → Keeps P (f e))
      → Keeps P (catch m f)
  unfolding catch lift
  catch-Keeps m f km kf = record {
    at = λ w h. let (r, w') = m w in (catch_after f kf r).at w' (km.at w h);
  }

  pub deferring-Keeps :
      (d : M O (Unit {0})) (m : M O A) → Keeps P d → Keeps P m → Keeps P (deferring d m)
  unfolding deferring
  deferring-Keeps d m kd km = record { at = λ w h. kd.at _ (km.at w h) }

  -- Both branches of a test, each with what the test came to.
  pub if-Keeps :
      (test : Bool) (here there : M O A)
      → (test ≡ true → Keeps P here)
      → (test ≡ false → Keeps P there)
      → Keeps P (if test then here else there)
  if-Keeps test here there kh kt =
      elim test
          as (λ b.
            (b ≡ true → Keeps P here)
            → (b ≡ false → Keeps P there)
            → Keeps P (if b then here else there)) [ true ↦ λ k _. k refl | false ↦ λ _ k. k refl ]
        kh kt

module _ {O : Type 0} {P : World O → Type 0} where
  pub rest_connection-Keeps : Keeps P rest_connection
  unfolding rest_connection
  rest_connection-Keeps = record { at = λ w h. h }

  pub ssh_session-Keeps : Keeps P ssh_session
  unfolding ssh_session
  ssh_session-Keeps = record { at = λ w h. h }

  pub this-Keeps : Keeps P this
  unfolding this
  this-Keeps = record { at = λ w h. h }

  pub traced-Keeps : Keeps P traced
  unfolding traced
  traced-Keeps = record { at = λ w h. h }

module _ {O A B : Type 0} {P : World O → Type 0} where
  bind_after : (r : Outcome A) (f : A → M O B) → ((a : A) → Keeps P (f a)) → Keeps P (lift r >>= f)
  unfolding ◌>>=◌
  bind_after (ok a) f k = record { at = λ w h. (k a).at w h }
  bind_after (err e) f k = record { at = λ w h. h }
  bind_after panic f k = record { at = λ w h. h }

  pub finally-Keeps : (d : M O B) (m : M O A) → Keeps P d → Keeps P m → Keeps P (finally d m)
  unfolding finally
  finally-Keeps d m kd km = record { at = λ w h. kd.at _ (km.at w h) }

  -- From what holds after the first part.
  pub bind_from :
      (m : M O A) (f : A → M O B) (w : World O)
      → P (m w).1
      → ((a : A) → Keeps P (f a))
      → P ((m >>= f) w).1
  unfolding ◌>>=◌
  bind_from m f w held next = (bind_after (m w).0 f next).at (m w).1 held

  pub bind-Keeps :
      (m : M O A) (f : A → M O B) → Keeps P m → ((a : A) → Keeps P (f a)) → Keeps P (m >>= f)
  bind-Keeps m f first next = record { at = λ w held. bind_from m f w (first.at w held) next }

module _ {O A B : Type 0} {P : World O → Type 0} where
  pub attempt_bind-Keeps :
      (m : M O A) (f : Error ⊎ A → M O B)
      → Keeps P m
      → ((e : Error) → Keeps P (f (inl e)))
      → ((a : A) → Keeps P (f (inr a)))
      → Keeps P (attempt m >>= f)
  attempt_bind-Keeps m f k kl kr =
      bind-Keeps _ _ (attempt-Keeps m k) (elim [ inl e ↦ kl e | inr a ↦ kr a ])

module _ {O A B : Type 0} {P Q : World O → Type 0} where
  returned_to :
      (r : Outcome A) (f : A → M O B)
      → ((w : World O) → P w → Q w)
      → ((a : A) (w : World O) → P w → Q (f a w).1)
      → (w : World O) → P w
      → Q ((lift r >>= f) w).1
  unfolding ◌>>=◌
  returned_to (ok a) f kp k w h = k a w h
  returned_to (err e) f kp k w h = kp w h
  returned_to panic f kp k w h = kp w h

  -- What holds at the end, from what holds after the first part.
  pub bind_to :
      (m : M O A) (f : A → M O B)
      → ((w : World O) → P w → Q w)
      → ((a : A) (w : World O) → P w → Q (f a w).1)
      → (w : World O) → P (m w).1
      → Q ((m >>= f) w).1
  unfolding ◌>>=◌
  bind_to m f kp k w h = let (r, w') = m w in returned_to r f kp k w' h

  after_outcome :
      (r : Outcome A) (f : Error ⊎ A → M O B)
      → ((w : World O) → P w → Q w)
      → ((e : Error) (w : World O) → P w → Q (f (inl e) w).1)
      → ((a : A) (w : World O) → P w → Q (f (inr a) w).1)
      → (w : World O) → P w
      → Q ((attempt (lift r) >>= f) w).1
  unfolding ◌>>=◌
  after_outcome (ok a) f kp kl kr w h = kr a w h
  after_outcome (err e) f kp kl kr w h = kl e w h
  after_outcome panic f kp kl kr w h = kp w h

  -- What holds after an attempt and what follows it, from what holds after the attempted code.
  pub attempt_from :
      (m : M O A) (f : Error ⊎ A → M O B)
      → ((w : World O) → P w → Q w)
      → ((e : Error) (w : World O) → P w → Q (f (inl e) w).1)
      → ((a : A) (w : World O) → P w → Q (f (inr a) w).1)
      → (w : World O) → P (m w).1
      → Q ((attempt m >>= f) w).1
  unfolding ◌>>=◌
  attempt_from m f kp kl kr w h = let (r, w') = m w in after_outcome r f kp kl kr w' h

  -- What holds after an attempt that keeps `P`, and what follows it.
  pub after_attempt :
      (m : M O A) (f : Error ⊎ A → M O B)
      → Keeps P m
      → ((w : World O) → P w → Q w)
      → ((e : Error) (w : World O) → P w → Q (f (inl e) w).1)
      → ((a : A) (w : World O) → P w → Q (f (inr a) w).1)
      → (w : World O) → P w
      → Q ((attempt m >>= f) w).1
  after_attempt m f k kp kl kr w h = attempt_from m f kp kl kr w (k.at w h)

module _ {O A B : Type 0} (Q : World O → Type 0) where
  split_outcome :
      (r : Outcome A) (f : Error ⊎ A → M O B) (w : World O)
      → ((e : Error) → r ≡ err e → Q (f (inl e) w).1)
      → ((a : A) → r ≡ ok a → Q (f (inr a) w).1)
      → Q w
      → Q ((attempt (lift r) >>= f) w).1
  unfolding ◌>>=◌
  split_outcome (ok a) f w kl kr kp = kr a refl
  split_outcome (err e) f w kl kr kp = kl e refl
  split_outcome panic f w kl kr kp = kp

  -- What holds after an attempt and what follows it, by what the attempted code came to.
  pub attempt_split :
      (m : M O A) (f : Error ⊎ A → M O B) (w : World O)
      → ((e : Error) → (m w).0 ≡ err e → Q (f (inl e) (m w).1).1)
      → ((a : A) → (m w).0 ≡ ok a → Q (f (inr a) (m w).1).1)
      → Q (m w).1
      → Q ((attempt m >>= f) w).1
  unfolding ◌>>=◌
  attempt_split m f w kl kr kp = let (r, w') = m w in split_outcome r f w' kl kr kp

module _ {O : Type 0} {Q : Call O → Type 0} where
  pub call-Calls :
      {A : Type 0} (c : Call O) (f : Trace O → Outcome A) → Q c → Keeps (Calls Q) (call c f)
  unfolding call
  call-Calls c f q = record { at = λ w h. record { all = (q, h.all) } }

  pub set_rest-Calls : (c : RestyClient) → Keeps (Calls Q) (set_rest c)
  unfolding set_rest
  set_rest-Calls c = record { at = λ w h. record { all = h.all } }

  pub set_ssh-Calls : (s : SshClient) → Keeps (Calls Q) (set_ssh s)
  unfolding set_ssh
  set_ssh-Calls s = record { at = λ w h. record { all = h.all } }

  pub assign-Calls : (o : O) → Keeps (Calls Q) (assign o)
  unfolding assign
  assign-Calls o = record { at = λ w h. record { all = h.all } }

-- The resource is `o`.
pub record Holds {O : Type 0} (o : O) (w : World O) : Type 0 where
  pub same : w.instance_ref ≡ o

module _ {O : Type 0} {o : O} where
  pub call-Holds : {A : Type 0} (c : Call O) (f : Trace O → Outcome A) → Keeps (Holds o) (call c f)
  unfolding call
  call-Holds c f = record { at = λ w h. record { same = h.same } }

  pub set_rest-Holds : (c : RestyClient) → Keeps (Holds o) (set_rest c)
  unfolding set_rest
  set_rest-Holds c = record { at = λ w h. record { same = h.same } }

  pub set_ssh-Holds : (s : SshClient) → Keeps (Holds o) (set_ssh s)
  unfolding set_ssh
  set_ssh-Holds s = record { at = λ w h. record { same = h.same } }

pub ruleset keeps_rules = (
  pure-Keeps, raise-Keeps, crash-Keeps, lift-Keeps, wrapping-Keeps, attempt-Keeps, catch-Keeps,
  deferring-Keeps, finally-Keeps, if-Keeps, attempt_bind-Keeps, rest_connection-Keeps,
  ssh_session-Keeps, this-Keeps, traced-Keeps, bind-Keeps,
)

pub ruleset calls_rules = (keeps_rules, call-Calls, set_rest-Calls, set_ssh-Calls, assign-Calls)

pub ruleset holds_rules = (keeps_rules, call-Holds, set_rest-Holds, set_ssh-Holds)
