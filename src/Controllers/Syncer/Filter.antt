-- ===== src/Controllers/Syncer/Filter.antt =====
-- Which projects of the cluster belong to a Gerrit (controllers/gerritproject/syncer.go).
use edp_gerrit_operator.Base.{
  String, Bool, false, Option, none, some, List, [], ◌∷◌, ◌≡◌, refl, arith, if◌then◌else◌, ◌==◌,
  string_eq, ◌&&◌, ◌||◌, Dict, lookup, insert, lookup-insert, lookup-nil,
}
use edp_gerrit_operator.Api.{Gerrit, OwnerReference}
use edp_gerrit_operator.Controllers.Projects.{GerritProject}
use edp_gerrit_operator.Controllers.Syncer

-- One of the references makes the Gerrit the owner.
abbrev pub has_owner : Gerrit → List OwnerReference → Bool
has_owner g [] = false
has_owner g (owner ∷ owners) = Syncer.is_owned_by g owner || has_owner g owners

-- The last project of that name that the Gerrit owns.
abbrev pub last_owned : Gerrit → String → List GerritProject → Option GerritProject
last_owned g n [] = none
last_owned g n (p ∷ projects) = elim (last_owned g n projects) [
  | some q ↦ some q
  | none ↦ if n == p.spec.name && has_owner g p.meta.owner_references then some p else none
]

lookup-file_under :
    (g : Gerrit) (p : GerritProject) (owners : List OwnerReference) (m : Dict GerritProject)
    (n : String)
    → lookup n (Syncer.file_under g p owners m)
      ≡ (if n == p.spec.name && has_owner g owners then some p else lookup n m)
unfolding Syncer.file_under
lookup-file_under g p [] m n = ground arith
lookup-file_under g p (owner ∷ owners) m n =
    let here : Bool = Syncer.is_owned_by g owner in
    grind (
      arith,
      lookup-file_under g p owners (if here then insert p.spec.name p m else m) n,
      lookup-insert n p.spec.name p m,
    )

lookup-filter_from :
    (g : Gerrit) (projects : List GerritProject) (m : Dict GerritProject) (n : String)
    → lookup n (Syncer.filter_from g projects m)
      ≡ elim (last_owned g n projects) [ some q ↦ some q | none ↦ lookup n m ]
unfolding Syncer.filter_from
lookup-filter_from g [] m n = refl
lookup-filter_from g (p ∷ projects) m n = grind (
  arith,
  lookup-filter_from g projects (Syncer.file_under g p p.meta.owner_references m) n,
  lookup-file_under g p p.meta.owner_references m n,
)

-- The map holds, under each name, the last project of that name that the Gerrit owns, and nothing under a
-- name that no such project has.
pub lookup-filter_gerrit_projects_by_gerrit :
    (g : Gerrit) (projects : List GerritProject) (n : String)
    → lookup n (Syncer.filter_gerrit_projects_by_gerrit g projects) ≡ last_owned g n projects
unfolding Syncer.filter_gerrit_projects_by_gerrit
lookup-filter_gerrit_projects_by_gerrit g projects n =
    grind (arith, lookup-filter_from g projects [] n, lookup-nil {V = GerritProject} n)
