-- ===== src/Exec/Apart.antt =====
-- Code that leaves the controller's own resource alone: what every other call keeps, the code keeps.
use edp_gerrit_operator.Base.{String, Option, none, some, Dict}
use edp_gerrit_operator.Errors.{Outcome}
use edp_gerrit_operator.Api.{Gerrit}
use edp_gerrit_operator.Platform.K8s
use edp_gerrit_operator.World.{Env, World, Call, Trace}
use edp_gerrit_operator.World.Requests.{RestyClient}
use edp_gerrit_operator.World.Shells.{SshClient}
use edp_gerrit_operator.Exec.{M, call, set_rest, set_ssh, ◌>>=◌}
use edp_gerrit_operator.Exec.Keeps.{
  Keeps, Calls, Holds, keeps_rules, bind-Keeps, call-Calls, set_rest-Calls, set_ssh-Calls,
  call-Holds, set_rest-Holds, set_ssh-Holds,
}

-- A call that is not one of the client at the controller's own kind of resource.
abbrev pub IsOther : {O : Type 0} → Call O → Type 0
IsOther (Call.get _ _) = ⊥
IsOther (Call.update _) = ⊥
IsOther (Call.update_status _) = ⊥
IsOther (Call.create _) = ⊥
IsOther Call.list = ⊥
IsOther _ = Unit

-- One of these that does not create a secret.
abbrev pub IsPlain : {O : Type 0} → Call O → Type 0
IsPlain (Call.create_secret _) = ⊥
IsPlain c = IsOther c

IsPlain-IsOther : {O : Type 0} (c : Call O) → IsPlain c → IsOther c
IsPlain-IsOther (Call.create_secret _) h = tt
IsPlain-IsOther c h = h

-- `P` does not depend on the other calls and not on the connections; secrets are created by `CreateSecret`.
pub record IsApart {O : Type 0} (env : Env O) (P : World O → Type 0) : Type (1) where
  pub other : {A : Type 0} (c : Call O) (f : Trace O → Outcome A) → IsPlain c → Keeps P (call c f)
  pub secret :
      (g : Gerrit) (name : String) (values labels : Dict String)
      → Keeps P (K8s.create_secret env g name values labels)
  pub rest : (c : RestyClient) → Keeps P (set_rest c)
  pub session : (s : SshClient) → Keeps P (set_ssh s)

module _ {O : Type 0} {env : Env O} {P : World O → Type 0} (apart : IsApart env P) where
  pub call-Apart :
      {A : Type 0} (c : Call O) (f : Trace O → Outcome A) → IsPlain c → Keeps P (call c f)
  call-Apart c f h = apart.other c f h

  pub set_rest-Apart : (c : RestyClient) → Keeps P (set_rest c)
  set_rest-Apart c = apart.rest c

  pub set_ssh-Apart : (s : SshClient) → Keeps P (set_ssh s)
  set_ssh-Apart s = apart.session s

-- Where every other call keeps `P`, the creation of a secret does.
module _ {O : Type 0} (env : Env O) {P : World O → Type 0}
    (called : (A : Type 0) (c : Call O) (f : Trace O → Outcome A) → IsOther c → Keeps P (call c f))
    (rest : (c : RestyClient) → Keeps P (set_rest c))
    (session : (s : SshClient) → Keeps P (set_ssh s)) where
  create_new_secret-Keeps :
      (g : Gerrit) (name : String) (values labels : Dict String)
      → Keeps P (K8s.create_new_secret env g name values labels)
  unfolding K8s.create_new_secret
  create_new_secret-Keeps g name values labels = search (keeps_rules, called) depth 10

  create_secret-Keeps :
      (g : Gerrit) (name : String) (values labels : Dict String)
      → Keeps P (K8s.create_secret env g name values labels)
  unfolding K8s.create_secret
  create_secret-Keeps g name values labels =
      search (keeps_rules, called, create_new_secret-Keeps, tt) depth 10

  pub apart_of_calls : IsApart env P
  apart_of_calls = record {
    other = λ {A} c f h. called A c f (IsPlain-IsOther c h);
    secret = create_secret-Keeps;
    rest = rest;
    session = session;
  }

module _ {O A B : Type 0} {P : World O → Type 0} where
  pub option_bind-Keeps :
      (m : M O (Option A)) (f : Option A → M O B)
      → Keeps P m
      → Keeps P (f none)
      → ((a : A) → Keeps P (f (some a)))
      → Keeps P (m >>= f)
  option_bind-Keeps m f k kn ks = bind-Keeps _ _ k (elim [ none ↦ kn | some a ↦ ks a ])

pub ruleset apart_rules =
    (option_bind-Keeps, keeps_rules, call-Apart, set_rest-Apart, set_ssh-Apart)
