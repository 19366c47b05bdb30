-- ===== src/Platform/Env.antt =====
-- Containers, environment variables and ports of a deployment
-- (pkg/service/platform/helper/helper.go, `IsStringInSlice` of pkg/service/helpers/helpers.go and
-- `updatePort` of pkg/service/platform/k8s/k8s.go).
pub mod Laws
use edp_gerrit_operator.Base.{ℕ, String, Bool, true, false, Option, none, some, List, [], ◌∷◌, ◌++◌}
use edp_gerrit_operator.Base.{◌==◌, string_eq, if◌then◌else◌}
use edp_gerrit_operator.Errors.{Outcome, ok, err, new}
use edp_gerrit_operator.World.Objects.{EnvVar, Container, ServicePort}

-- `IsStringInSlice`; `ContainsString` of controllers/helper/helper.go has the same body.
unfoldable pub is_string_in_slice : String → List String → Bool
is_string_in_slice str [] = false
is_string_in_slice str (v ∷ list) = if v == str then true else is_string_in_slice str list

unfoldable pub select_container : List Container → String → Outcome Container
select_container [] name = err (new "no matching container in spec found")
select_container (c ∷ cs) name = if c.name == name then ok c else select_container cs name

unfoldable pub find_env : List EnvVar → String → Option EnvVar
find_env [] name = none
find_env (e ∷ env) name = if e.name == name then some e else find_env env name

-- The first loop of `UpdateEnv`, over `existing`: `covered` and `out` are its variables.
unfoldable pub cover :
    List EnvVar → List EnvVar → List String → List EnvVar → List String × List EnvVar
cover env [] covered out = (covered, out)
cover env (e ∷ existing) covered out =
    let replaced =
      λ (newer : EnvVar). cover env existing (covered ++ e.name ∷ []) (out ++ newer ∷ []) in
    let kept = cover env existing covered (out ++ e ∷ []) in
    elim (find_env env e.name) [ some newer ↦ replaced newer | none ↦ kept ]

-- The second loop, over `env`.
unfoldable pub extend : List EnvVar → List String → List EnvVar → List EnvVar
extend [] covered out = out
extend (e ∷ env) covered out =
    let kept = extend env covered out in
    let added = extend env (covered ++ e.name ∷ []) (out ++ e ∷ []) in
    if is_string_in_slice e.name covered then kept else added

unfoldable pub update_env : List EnvVar → List EnvVar → List EnvVar
unfolding cover extend
update_env existing env = let (covered, out) = cover env existing [] [] in extend env covered out

-- The loop of `updatePort`; both slots hold the node port, as the code writes it.
unfoldable pub update_port : List ServicePort → String → ℕ → List ServicePort
update_port [] name node_port = []
update_port (p ∷ ports) name node_port =
    (if p.name == name then record p { port = node_port; target_port = node_port } else p)
    ∷ update_port ports name node_port
