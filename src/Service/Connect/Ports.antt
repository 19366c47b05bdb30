-- ===== src/Service/Connect/Ports.antt =====
-- The SSH port of a service (pkg/service/gerrit/gerrit.go, pkg/service/platform/k8s/k8s.go).
use edp_gerrit_operator.Base.{
  ℕ, String, Option, none, some, List, [], ◌∷◌, ◌≡◌, ◌≢◌, refl, true, false, Bool-cases, inl, inr,
  string_eq, ◌==◌, arith,
}
use edp_gerrit_operator.Errors.{Error, Outcome, ok, err, panic, new, wrapf}
use edp_gerrit_operator.Api.{Gerrit}
use edp_gerrit_operator.World.{Env, World, Call}
use edp_gerrit_operator.World.Objects.{Service, ServicePort}
use edp_gerrit_operator.Exec.{◌>>=◌}
use edp_gerrit_operator.Platform.K8s.{get_service}
use edp_gerrit_operator.Service.Connect

-- The node port of the first port that is named "ssh", if there is one.
pub data SshPort : List ServicePort → Option ℕ → Type 0 where
  missing : SshPort [] none
  here :
      {ports : List ServicePort} (p : ServicePort)
      → p.name ≡ "ssh"
      → SshPort (p ∷ ports) (some p.node_port)
  later :
      {ports : List ServicePort} {port : Option ℕ} (p : ServicePort)
      → p.name ≢ "ssh"
      → SshPort ports port
      → SshPort (p ∷ ports) port

find_node_port-SshPort : (ports : List ServicePort) → SshPort ports (Connect.find_node_port ports)
unfolding Connect.find_node_port
find_node_port-SshPort [] = missing
find_node_port-SshPort (p ∷ ports) = elim (string_eq.dec p.name "ssh") [
  | yes e ↦ let named : (p.name == "ssh") ≡ true = ground arith in rw named (here p e)
  | no n ↦
      let other : (p.name == "ssh") ≡ false = ground arith in
      rw other (later p n (find_node_port-SshPort ports))
]

-- The port or the error that `GetServicePort` returns, by what the cluster says of the service `name`.
pub data Answered {O : Type 0} (env : Env O) (name : String)
    : Outcome Service → Outcome ℕ → Type 0 where
  found :
      (s : Service) (port : ℕ) → SshPort s.ports (some port) → Answered env name (ok s) (ok port)
  portless :
      (s : Service)
      → SshPort s.ports none
      → Answered env name (ok s) (err (new "Unable to determine Gerrit ssh port"))
  absent : (e : Error) → env.is_not_found e ≡ true → Answered env name (err e) panic
  failed :
      (e : Error)
      → env.is_not_found e ≡ false
      → Answered env name
          (err e)
          (err (wrapf "failed to fetch service %q" name (wrapf "failed to GET %q service" name e)))
  crashed : Answered env name panic panic

module _ {O : Type 0} (env : Env O) where
  abbrev Answer : Gerrit → World O → Outcome Service → Type 0
  Answer g w r =
      Answered env g.meta.name r (Connect.get_service_port env g w).0
      × ((Connect.get_service_port env g w).1
          ≡ record w { trace = Call.get_service g.meta.namespace g.meta.name ∷ w.trace })

  of_port :
      (name : String) (s : Service) (port : Option ℕ) (w : World O)
      → Connect.find_node_port s.ports ≡ port
      → SshPort s.ports port
      → Answered env name (ok s) (Connect.service_port env (some s) w).0
        × ((Connect.service_port env (some s) w).1 ≡ w)
  unfolding Connect.service_port ◌>>=◌
  of_port name s none w e named = rw (e, Connect.service_port) (portless s named, refl)
  of_port name s (some port) w e named = rw (e, Connect.service_port) (found s port named, refl)

  answered :
      (g : Gerrit) (w : World O) (r : Outcome Service)
      → env.get_service w.trace g.meta.namespace g.meta.name ≡ r
      → Answer g w r
  unfolding Connect.get_service_port Connect.service_port get_service ◌>>=◌
  answered g w (ok s) h = rw h (of_port g.meta.name s _ _ refl (find_node_port-SshPort s.ports))
  answered g w (err e) h = elim (Bool-cases (env.is_not_found e)) [
    | inl gone ↦ rw (h, gone) (absent e gone, refl)
    | inr held ↦ rw (h, held) (failed e held, refl)
  ]
  answered g w panic h = rw h (crashed, refl)

  -- One question is asked. The node port of the first port of the service that is named "ssh" is the answer, a
  -- service without one is an error, and so is a failure to read it; but the code panics where the service does
  -- not exist.
  pub get_service_port_answers :
      (g : Gerrit) (w : World O)
      → Answered env g.meta.name
          (env.get_service w.trace g.meta.namespace g.meta.name)
          (Connect.get_service_port env g w).0
        × ((Connect.get_service_port env g w).1
            ≡ record w { trace = Call.get_service g.meta.namespace g.meta.name ∷ w.trace })
  get_service_port_answers g w = answered g w _ refl
