-- ===== src/Platform/Openshift/Routes.antt =====
-- The external endpoint on OpenShift (pkg/service/platform/openshift/openshift.go).
use edp_gerrit_operator.Base.{
  String, none, some, [], ◌∷◌, ◌≡◌, ◌==◌, string_eq, if◌then◌else◌, arith,
}
use edp_gerrit_operator.Errors.{Outcome, ok, err, panic, wrapped}
use edp_gerrit_operator.World.{Env, World, Call}
use edp_gerrit_operator.World.Objects.{Route}
use edp_gerrit_operator.Exec.{◌>>=◌}
use edp_gerrit_operator.Platform.Openshift

-- The endpoint by what the cluster says of the route.
abbrev pub endpoint_by :
    {O : Type 0} → Env O → String → String → Outcome Route → Outcome (String × String)
endpoint_by env namespace name (ok r) = elim r.termination [
  | none ↦ panic
  | some termination ↦ ok (r.host, if termination == "" then "http" else "https")
]
endpoint_by env namespace name (err e) =
    if env.is_not_found e
    then err (wrapped "failed to find route %q in namespace %q" (name ∷ namespace ∷ []) e)
    else err (wrapped "failed to Get OpenShift route %q" (name ∷ []) e)
endpoint_by env namespace name panic = panic

-- One question is asked. The answer is the host of the route, over https where its TLS part has a termination and over
-- http where that is empty; a failure to read the route is an error; and the code panics at a route with no TLS part.
pub get_external_endpoint_answers :
    {O : Type 0} (env : Env O) (namespace name : String) (w : World O)
    → Openshift.get_external_endpoint env namespace name w ≡ (
      endpoint_by env namespace name (env.get_route w.trace namespace name),
      record w { trace = Call.get_route namespace name ∷ w.trace },
    )
unfolding Openshift.get_external_endpoint Openshift.endpoint_of ◌>>=◌
get_external_endpoint_answers env namespace name w = ground arith
