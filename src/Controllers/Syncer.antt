-- ===== src/Controllers/Syncer.antt =====
-- The synchronisation of projects that exist in Gerrit only (controllers/gerritproject/syncer.go).
pub mod Filter
pub mod Rounds
pub mod Through
pub mod Missing
use edp_gerrit_operator.Base.{ℕ, zero, suc, ◌<>◌, Bool, false, Option, none, some, List, []}
use edp_gerrit_operator.Base.{
  ◌∷◌, map, ◌==◌, ◌&&◌, string_eq, if◌then◌else◌, Dict, lookup, insert, inl, inr,
}
use edp_gerrit_operator.Api.{Gerrit, OwnerReference}
use edp_gerrit_operator.World.{Env, Call}
use edp_gerrit_operator.World.Requests.{Project, Branch}
use edp_gerrit_operator.Exec.{M, ◌>>=◌, ◌>>◌, pure, call, wrapping, attempt, this, assign, skip}
use edp_gerrit_operator.Client.Projects.{list_projects, list_project_branches}
use edp_gerrit_operator.Service.Connect.{get_rest_client}
use edp_gerrit_operator.Helper.Client.{get_instance, update_instance_status}
use edp_gerrit_operator.Controllers.Projects.{GerritProject}

-- `syncRetries`
abbrev pub sync_retries : ℕ
sync_retries = 3

-- Whether a reference makes a Gerrit the owner.
abbrev pub is_owned_by : Gerrit → OwnerReference → Bool
is_owned_by g owner = owner.uid == g.meta.uid && owner.kind == g.meta.kind

-- The inner loop of `filterGerritProjectsByGerrit`, over the owners of one project.
unfoldable pub file_under :
    Gerrit → GerritProject → List OwnerReference → Dict GerritProject → Dict GerritProject
file_under g p [] result = result
file_under g p (owner ∷ owners) result =
    file_under g p owners (if is_owned_by g owner then insert p.spec.name p result else result)

unfoldable pub filter_from : Gerrit → List GerritProject → Dict GerritProject → Dict GerritProject
unfolding file_under
filter_from g [] result = result
filter_from g (p ∷ projects) result =
    filter_from g projects (file_under g p p.meta.owner_references result)

-- `filterGerritProjectsByGerrit`
unfoldable pub filter_gerrit_projects_by_gerrit : Gerrit → List GerritProject → Dict GerritProject
unfolding filter_from
filter_gerrit_projects_by_gerrit g projects = filter_from g projects []

module _ (env : Env GerritProject) where
  -- The resource that `createGerritProject` creates: it has no owner yet.
  unfoldable pub new_project : Gerrit → Project → GerritProject
  new_project g p = record {
    meta = record {
      name = env.to_lower (g.meta.name <> "-" <> env.slugify p.name);
      namespace = g.meta.namespace;
      uid = "";
      kind = "";
      deleted = false;
      finalizers = [];
      owner_references = [];
      annotations = [];
    };
    spec = record {
      name = p.name;
      owner_name = g.meta.name;
      parent = p.parent;
      description = p.description;
      permissions_only = p.permissions_only;
      create_empty_commit = p.create_empty_commit;
      submit_type = p.submit_type;
      branches = p.branches;
      owners = p.owners;
      reject_empty_commit = p.reject_empty_commit;
    };
    status = record { value = ""; branches = [] };
  }

  unfoldable pub create_gerrit_project : Gerrit → Project → M GerritProject GerritProject
  unfolding ◌>>=◌
  create_gerrit_project g p =
      wrapping "unable to create gerrit project" []
        (call (Call.create (new_project g p)) (λ t. env.create t (new_project g p)))

  -- The project is read again, so that the update does not meet that of the project controller.
  unfoldable pub sync_project_branches : GerritProject → M GerritProject (Unit {0})
  unfolding ◌>>=◌
  sync_project_branches p = do
    branches ← wrapping "unable to list project branches" [] (list_project_branches env p.spec.name)
    wrapping "unable to get gerrit project" [] (get_instance env p.meta.namespace p.meta.name)
    o ← this
    assign
        (record o { status = record o.status { branches = map (λ (b : Branch). b.ref) branches } })
    wrapping "unable to update gerrit project" [] (update_instance_status env)

  unfoldable pub found_or_created :
      Gerrit → Project → Option GerritProject → M GerritProject GerritProject
  found_or_created g p (some k8s_project) = pure k8s_project
  found_or_created g p none =
      wrapping "unable to create gerrit project" [] (create_gerrit_project g p)

  unfoldable pub sync_projects :
      Gerrit → Dict GerritProject → List Project → M GerritProject (Unit {0})
  unfolding ◌>>=◌ found_or_created
  sync_projects g k8s_projects [] = skip
  sync_projects g k8s_projects (p ∷ projects) = do
    k8s_project ← found_or_created g p (lookup p.name k8s_projects)
    wrapping "unable to sync gerrit project branches" [] (sync_project_branches k8s_project)
    sync_projects g k8s_projects projects

  unfoldable pub sync_gerrit_instance : List GerritProject → Gerrit → M GerritProject (Unit {0})
  unfolding ◌>>=◌
  sync_gerrit_instance all_projects g = do
    wrapping "unable to init gerrit client" [] (get_rest_client env g)
    backend ← wrapping "unable to list projects from gerrit" [] (list_projects env "CODE")
    sync_projects g (filter_gerrit_projects_by_gerrit g all_projects) backend

  unfoldable pub sync_gerrits : List GerritProject → List Gerrit → M GerritProject (Unit {0})
  unfolding ◌>>=◌
  sync_gerrits all_projects [] = skip
  sync_gerrits all_projects (g ∷ gerrits) = do
    wrapping "unable to sync gerrit instance: %s" (g.meta.name ∷ [])
        (sync_gerrit_instance all_projects g)
    sync_gerrits all_projects gerrits

  -- `syncBackendProjectsTick`; the list of Gerrits is asked for in every namespace.
  unfoldable pub sync_backend_projects_tick : M GerritProject (Unit {0})
  unfolding ◌>>=◌
  sync_backend_projects_tick = do
    gerrits ←
        wrapping "unable to list gerrits" []
          (call (Call.list_gerrits "") (λ t. env.list_gerrits t ""))
    projects ← wrapping "unable to list gerrit projects" [] (call Call.list (λ t. env.list t))
    sync_gerrits projects gerrits

-- The inner loop of `syncBackendProjects`, over the attempts that are left.
unfoldable pub retry_tick : {O : Type 0} → ℕ → M O (Unit {0}) → M O (Unit {0})
retry_tick zero tick = skip
retry_tick (suc n) tick = do r ← attempt tick; elim r [ inl _ ↦ retry_tick n tick | inr _ ↦ skip ]
