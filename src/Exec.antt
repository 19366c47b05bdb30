-- ===== src/Exec.antt =====
-- Code that makes calls: from a world to an outcome and the world after it. A panic ends the code;
-- an error is a value that the code inspects, wraps or returns.
pub mod Keeps
pub mod Total
pub mod Apart
pub mod Leads
pub mod Settled
use edp_gerrit_operator.Base.{
  String, Bool, true, false, Option, none, some, List, ◌∷◌, inl, inr, ◌⊎◌,
}
use edp_gerrit_operator.Base.{if◌then◌else◌}
use edp_gerrit_operator.Errors.{Error, wrapped, Outcome, ok, err, panic}
use edp_gerrit_operator.World.{World, Call, Trace}
use edp_gerrit_operator.World.Requests.{RestyClient}
use edp_gerrit_operator.World.Shells.{SshClient}

abbrev pub M : Type 0 → Type 0 → Type 0
M O A = World O → Outcome A × World O

module _ {A : Type 0} where
  abbrev pub wrap_outcome : String → List String → Outcome A → Outcome A
  wrap_outcome text args (ok a) = ok a
  wrap_outcome text args (err e) = err (wrapped text args e)
  wrap_outcome text args panic = panic

  abbrev inspect : Outcome A → Outcome (Error ⊎ A)
  inspect (ok a) = ok (inr a)
  inspect (err e) = ok (inl e)
  inspect panic = panic

module _ {O A : Type 0} where
  pub pure : A → M O A
  pure a w = (ok a, w)

  pub raise : Error → M O A
  raise e w = (err e, w)

  pub crash : M O A
  crash w = (panic, w)

  pub lift : Outcome A → M O A
  lift r w = (r, w)

  -- Make a call and take the answer.
  pub call : Call O → (Trace O → Outcome A) → M O A
  call c answer w = (answer w.trace, record w { trace = c ∷ w.trace })

  -- `if err != nil { return errors.Wrapf(err, text, args...) }`
  pub wrapping : String → List String → M O A → M O A
  wrapping text args m w = let (r, w') = m w in (wrap_outcome text args r, w')

  -- `a, err := m` where the code goes on to look at `err`.
  pub attempt : M O A → M O (Error ⊎ A)
  attempt m w = let (r, w') = m w in (inspect r, w')

  abbrev recover : (Error → M O A) → Outcome A → M O A
  recover f (ok a) w = (ok a, w)
  recover f (err e) w = f e w
  recover f panic w = (panic, w)

  -- `if err != nil` over the rest of a function.
  pub catch : M O A → (Error → M O A) → M O A
  catch m f w = let (r, w') = m w in recover f r w'

module _ {A B : Type 0} where
  abbrev pub overridden : Outcome A → Outcome B → Outcome A
  overridden r (ok _) = r
  overridden panic (err _) = panic
  overridden _ (err e) = err e
  overridden r panic = panic

module _ {O A B : Type 0} where
  -- `defer`, of code whose error takes the place of the result.
  pub finally : M O B → M O A → M O A
  finally d m w = let (r, w') = m w in let (s, w'') = d w' in (overridden r s, w'')

module _ {A : Type 0} where
  abbrev pub after_deferred : Outcome A → Outcome (Unit {0}) → Outcome A
  after_deferred r (ok _) = r
  after_deferred r (err _) = r
  after_deferred r panic = panic

module _ {O A : Type 0} where
  -- `defer`, of code whose error is only logged. It runs after an error and after a panic too.
  pub deferring : M O (Unit {0}) → M O A → M O A
  deferring d m w = let (r, w') = m w in let (s, w'') = d w' in (after_deferred r s, w'')

module _ {O : Type 0} where
  pub rest_connection : M O (Option RestyClient)
  rest_connection w = (ok w.rest, w)

  pub ssh_session : M O (Option SshClient)
  ssh_session w = (ok w.ssh_client, w)

  pub set_rest : RestyClient → M O (Unit {0})
  set_rest c w = (ok tt, record w { rest = some c })

  pub set_ssh : SshClient → M O (Unit {0})
  set_ssh s w = (ok tt, record w { ssh_client = some s })

  -- The resource behind the pointer.
  pub this : M O O
  this w = (ok w.instance_ref, w)

  pub assign : O → M O (Unit {0})
  assign o w = (ok tt, record w { instance_ref = o })

  pub traced : M O (Trace O)
  traced w = (ok w.trace, w)

module _ {O A B : Type 0} where
  abbrev continue : Outcome A → (A → M O B) → M O B
  continue (ok a) f w = f a w
  continue (err e) f w = (err e, w)
  continue panic f w = (panic, w)

  infixl 5 ◌>>=◌ ◌>>◌
  -- Opening this opens the operations above too.
  unfoldable pub ◌>>=◌ : M O A → (A → M O B) → M O B
  unfolding pure raise crash lift call wrapping attempt catch deferring finally rest_connection
      ssh_session set_rest set_ssh this assign traced
  ◌>>=◌ m f w = let (r, w') = m w in continue r f w'

  abbrev pub ◌>>◌ : M O A → M O B → M O B
  m >> n = m >>= λ _. n

abbrev pub skip : {O : Type 0} → M O (Unit {0})
skip = pure tt
