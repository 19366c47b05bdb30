-- ===== src/Platform/K8s/Ports.antt =====
-- The SSH port in the environment of a container (pkg/service/platform/k8s/k8s.go).
use edp_gerrit_operator.Base.{ℕ, List, [], ◌∷◌, ◌≡◌, ◌≤◌, arith}
use edp_gerrit_operator.Errors.{ok}
use edp_gerrit_operator.World.Objects.{EnvVar}
use edp_gerrit_operator.Platform.K8s

-- A port that is read fits a signed 32-bit integer, whatever the variables hold.
pub find_ssh_port_bound :
    (vars : List EnvVar) (n : ℕ) → K8s.find_ssh_port vars ≡ ok n → n ≤ 2147483647
unfolding K8s.find_ssh_port
find_ssh_port_bound [] n h = ground arith
find_ssh_port_bound (e ∷ vars) n h = ground (arith, find_ssh_port_bound vars n)
