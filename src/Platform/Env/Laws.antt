-- ===== src/Platform/Env/Laws.antt =====
-- `UpdateEnv` against a specification of its result (pkg/service/platform/helper/helper.go).
use mathlib.Core.List.{append-nil, append_assoc}
use edp_gerrit_operator.Base.{String, Bool, true, false, none, some, inl, inr, List, [], ◌∷◌, ◌++◌}
use mathlib.Core.Path.{fun_ext}
use edp_gerrit_operator.Base.{
  ◌≡◌, refl, ◌∙◌, Bool-cases, Option-cases, ◌==◌, ◌||◌, string_eq, arith, if◌then◌else◌,
}
use edp_gerrit_operator.World.Objects.{EnvVar}
use edp_gerrit_operator.Platform.Env

-- The existing variables in their order, each with the new value if there is one.
abbrev pub overridden : List EnvVar → List EnvVar → List EnvVar
overridden env [] = []
overridden env (e ∷ existing) =
    elim (Env.find_env env e.name) [ some newer ↦ newer | none ↦ e ] ∷ overridden env existing

-- The names of the existing variables that have a new value.
abbrev pub covered_names : List EnvVar → List EnvVar → List String
covered_names env [] = []
covered_names env (e ∷ existing) =
    let rest = covered_names env existing in
    elim (Env.find_env env e.name) [ some newer ↦ e.name ∷ rest | none ↦ rest ]

-- The new variables whose name neither `seen` nor an earlier new variable has.
abbrev pub fresh : (String → Bool) → List EnvVar → List EnvVar
fresh seen [] = []
fresh seen (e ∷ env) =
    let kept = fresh seen env in
    let added = e ∷ fresh (λ n. seen n || e.name == n) env in if seen e.name then kept else added

cover_eq :
    (env existing : List EnvVar) (covered : List String) (out : List EnvVar)
    → Env.cover env existing covered out
      ≡ (covered ++ covered_names env existing, out ++ overridden env existing)
unfolding Env.cover
cover_eq env [] covered out = simp append-nil
cover_eq env (e ∷ existing) covered out = elim (Option-cases (Env.find_env env e.name)) [
  | inl absent ↦
      rw (absent, Env.cover, covered_names)
        (cover_eq env existing covered (out ++ e ∷ []) ∙ simp append_assoc)
  | inr (newer, found) ↦
      rw (found, Env.cover, covered_names)
        (cover_eq env existing (covered ++ e.name ∷ []) (out ++ newer ∷ []) ∙ simp append_assoc)
]

is_string_in_slice-append :
    (n k : String) (xs : List String)
    → Env.is_string_in_slice n (xs ++ k ∷ []) ≡ (Env.is_string_in_slice n xs || k == n)
unfolding Env.is_string_in_slice
is_string_in_slice-append n k [] = ground arith
is_string_in_slice-append n k (x ∷ xs) = ground (arith, is_string_in_slice-append n k xs)

-- The second loop appends the variables that are not covered.
extend_eq :
    (env : List EnvVar) (covered : List String) (out : List EnvVar)
    → Env.extend env covered out ≡ out ++ fresh (λ n. Env.is_string_in_slice n covered) env
unfolding Env.extend
extend_eq [] covered out = simp append-nil
extend_eq (e ∷ env) covered out = elim (Bool-cases (Env.is_string_in_slice e.name covered)) [
  | inl seen ↦ rw seen (extend_eq env covered out)
  | inr unseen ↦ rw unseen (
      extend_eq env (covered ++ e.name ∷ []) (out ++ e ∷ [])
      ∙ simp (append_assoc, fun_ext (λ n. is_string_in_slice-append n e.name covered)))
]

-- The result of `UpdateEnv` is the existing list, each variable with its new value if it has one,
-- and then the first new variable of each name that is not in the existing list.
pub update_env_eq :
    (existing env : List EnvVar)
    → Env.update_env existing env
      ≡ overridden env existing
        ++ fresh (λ n. Env.is_string_in_slice n (covered_names env existing)) env
unfolding Env.update_env
update_env_eq existing env = rw cover_eq (extend_eq env _ _)

find_env-append :
    (xs ys : List EnvVar) (n : String)
    → Env.find_env (xs ++ ys) n
      ≡ elim (Env.find_env xs n) [ some e ↦ some e | none ↦ Env.find_env ys n ]
unfolding Env.find_env
find_env-append [] ys n = refl
find_env-append (x ∷ xs) ys n = ground (arith, find_env-append xs ys n)

find_env-name :
    (env : List EnvVar) (n : String) (e : EnvVar) → Env.find_env env n ≡ some e → e.name ≡ n
unfolding Env.find_env
find_env-name [] n e h = cc
find_env-name (x ∷ env) n e h = ground (arith, find_env-name env n e)

find_env-overridden :
    (env existing : List EnvVar) (n : String)
    → Env.find_env (overridden env existing) n ≡ elim (Env.find_env existing n) [
      | none ↦ none
      | some e ↦ elim (Env.find_env env n) [ some newer ↦ some newer | none ↦ some e ]
    ]
unfolding Env.find_env
find_env-overridden env [] n = refl
find_env-overridden env (e ∷ existing) n =
    grind (arith, find_env-overridden env existing n, find_env-name)

find_env-fresh :
    (seen : String → Bool) (env : List EnvVar) (n : String)
    → Env.find_env (fresh seen env) n ≡ (if seen n then none else Env.find_env env n)
unfolding Env.find_env
find_env-fresh seen [] n = ground arith
find_env-fresh seen (e ∷ env) n =
    grind (arith, find_env-fresh seen env n, find_env-fresh (λ m. seen m || e.name == m) env n)

covered_names-mem :
    (env existing : List EnvVar) (n : String)
    → Env.is_string_in_slice n (covered_names env existing) ≡ elim (Env.find_env existing n) [
      | none ↦ false
      | some _ ↦ elim (Env.find_env env n) [ none ↦ false | some _ ↦ true ]
    ]
unfolding Env.find_env Env.is_string_in_slice
covered_names-mem env [] n = refl
covered_names-mem env (e ∷ existing) n = grind (arith, covered_names-mem env existing n)

-- A variable of the result has its new value if there is one, and its existing value if not.
pub find_env-update_env :
    (existing env : List EnvVar) (n : String)
    → Env.find_env (Env.update_env existing env) n
      ≡ elim (Env.find_env env n) [ some newer ↦ some newer | none ↦ Env.find_env existing n ]
find_env-update_env existing env n =
    let seen : String → Bool = λ m. Env.is_string_in_slice m (covered_names env existing) in
    rw (update_env_eq, find_env-append, find_env-overridden)
      (ground (arith, find_env-fresh seen env n, covered_names-mem env existing n))
