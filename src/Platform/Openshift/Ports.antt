-- ===== src/Platform/Openshift/Ports.antt =====
-- The SSH port of a deployment on OpenShift and on Kubernetes (`GetDeploymentSSHPort` of
-- pkg/service/platform/openshift/openshift.go and pkg/service/platform/k8s/k8s.go).
use edp_gerrit_operator.Base.{
  List, [], ◌∷◌, ◌≡◌, refl, All, ◌==◌, true, false, string_eq, arith, first_digits,
}
use edp_gerrit_operator.World.Objects.{EnvVar}
use edp_gerrit_operator.Platform.K8s
use edp_gerrit_operator.Platform.Openshift

-- A variable for the listener has a number in its value.
abbrev pub HasDigits : EnvVar → Type 0
HasDigits e = (e.name == "LISTEN_ADDR") ≡ true → (first_digits e.value == "") ≡ false

-- The two platforms read the same port, or fail in the same way, where every variable for the listener has a number
-- in its value.
pub find_ssh_port_agrees :
    (vars : List EnvVar)
    → All HasDigits vars
    → Openshift.find_ssh_port vars ≡ K8s.find_ssh_port vars
unfolding Openshift.find_ssh_port K8s.find_ssh_port Openshift.get_port
find_ssh_port_agrees [] h = refl
find_ssh_port_agrees (e ∷ vars) (here, h) = ground (arith, here, find_ssh_port_agrees vars h)
