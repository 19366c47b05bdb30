-- ===== src/Client/Projects/Listing.antt =====
-- What `ListProjects` returns (pkg/client/gerrit/project.go).
use edp_gerrit_operator.Base.{List, ◌≡◌, String, [], ◌∷◌, ◌≢◌, All, arith, string_eq, Dict, erase}
use edp_gerrit_operator.World.Requests.{Project}
use edp_gerrit_operator.Client.Projects.{list_projects, with_names}
use edp_gerrit_operator.World.{Env, World}
use edp_gerrit_operator.Errors.{ok}
use edp_gerrit_operator.Exec.Total.{Ensures, ensures_rules}

-- The name is not one of the two projects that every Gerrit has.
abbrev pub IsOrdinary : Project → Type 0
IsOrdinary p = (p.name ≢ "All-Users") × (p.name ≢ "All-Projects")

with_names_erased :
    (m : Dict Project)
    → All IsOrdinary
        (with_names (erase "All-Users" (erase "All-Projects" (erase "All-Projects" m))))
unfolding with_names erase
with_names_erased [] = tt
with_names_erased ((k, v) ∷ m) = ground (arith, with_names_erased m)

list_projects-Ensures :
    {O : Type 0} (env : Env O) (kind : String)
    → Ensures (list_projects env kind) (λ projects _. All IsOrdinary projects)
unfolding list_projects
list_projects-Ensures env kind = search (ensures_rules, with_names_erased) depth 12

-- A list of projects that is returned has neither All-Users nor All-Projects.
pub list_projects-IsOrdinary :
    {O : Type 0} (env : Env O) (kind : String) (w : World O) (projects : List Project)
    → (list_projects env kind w).0 ≡ ok projects
    → All IsOrdinary projects
list_projects-IsOrdinary env kind w projects listed =
    (list_projects-Ensures env kind).at w projects listed
