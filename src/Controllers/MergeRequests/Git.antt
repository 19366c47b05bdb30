-- ===== src/Controllers/MergeRequests/Git.antt =====
-- Making a change with git: `createChange`, `mergeBranches` and `commitFiles` of
-- controllers/merge_request/controller.go, and `GetGitClient` of pkg/service/gerrit/git_client.go.
use edp_gerrit_operator.Base.{String, ◌<>◌, Bool, true, none, some, List, [], ◌∷◌, ◌++◌}
use edp_gerrit_operator.Base.{not, ◌==◌, string_eq, if◌then◌else◌, Dict}
use edp_gerrit_operator.Api.{Object}
use edp_gerrit_operator.Api.Specs
use edp_gerrit_operator.Api.Specs.{GerritMergeRequestSpec, GerritMergeRequestStatus}
use edp_gerrit_operator.World.{Env, Call}
use edp_gerrit_operator.World.Objects.{MrConfigMapFile}
use edp_gerrit_operator.World.Repos
use edp_gerrit_operator.Exec.{M, ◌>>=◌, ◌>>◌, pure, lift, call, wrapping, finally, this}
use edp_gerrit_operator.Client.Git as Client
use edp_gerrit_operator.Client.Git.{GitClient, User}
use edp_gerrit_operator.Service.Connect.{
  admin_user, get_gerrit_admin_password, get_gerrit_rest_api_url,
}

abbrev pub GerritMergeRequest : Type 0
GerritMergeRequest = Object GerritMergeRequestSpec GerritMergeRequestStatus

abbrev pub with_change_id : String → String → String
with_change_id commit_message change_id = commit_message <> "\n\nChange-Id: " <> change_id

abbrev pub author : GerritMergeRequestSpec → User
author s = record { name = s.author_name; email = s.author_email }

-- The pattern of `extractMrURL`.
abbrev pub url_pattern : String
url_pattern =
    "https?://(www\\.)?[-a-zA-Z0-9@:%._+~#=]{1,256}\\.[a-zA-Z0-9()]{1,6}\\b([-a-zA-Z0-9()@:%_+.~#?&/=]*)"

module _ (env : Env GerritMergeRequest) (work_dir : String) where
  -- `GetGitClient`. The owner's name is taken as it is written.
  unfoldable pub get_git_client : M GerritMergeRequest GitClient
  unfolding ◌>>=◌
  get_git_client = do
    o ← this
    g ← wrapping "unable to get parent gerrit" [] (
        call (Call.get_gerrit o.meta.namespace o.spec.owner_name)
          (λ t. env.get_gerrit t o.meta.namespace o.spec.owner_name))
    password ←
        wrapping "Failed to get Gerrit admin password from secret for %s/%s"
          (g.meta.namespace ∷ g.meta.name ∷ []) (get_gerrit_admin_password env g)
    url ←
        wrapping "Failed to get Gerrit REST API URL %s/%s" (g.meta.namespace ∷ g.meta.name ∷ [])
          (get_gerrit_rest_api_url env g)
    pure (record {
      username = admin_user;
      password = password;
      working_dir = work_dir;
      gerrit_base_url = url;
    })

module _ (env : Env GerritMergeRequest) (client : GitClient) where
  unfoldable pub merge_branches : GerritMergeRequestSpec → String → M GerritMergeRequest (Unit {0})
  unfolding ◌>>=◌
  merge_branches s change_id = do
    wrapping "unable to set project author" []
        (Client.set_project_user env client s.project_name (author s))
    wrapping "unable to merge branches" [] (
        Client.merge env client s.project_name ("origin/" <> s.source_branch)
          (Specs.target_branch s)
          ("--no-ff"
            ∷ "-m"
            ∷ with_change_id (Specs.commit_message s) change_id
            ∷ s.additional_arguments))

  -- One file of the config map: whether there is something to commit.
  unfoldable pub write_file : String → MrConfigMapFile → M GerritMergeRequest Bool
  unfolding ◌>>=◌
  write_file project_name f = elim f.contents [
    | some contents ↦
        wrapping "unable to set file contents" []
          (Client.set_file_contents env client project_name f.path contents)
        >> pure true
    | none ↦ wrapping "unable to remove file" [] (Client.remove_file env client project_name f.path)
  ]

  -- The loop over the config map, whose entries stand in the order in which Go visits them.
  unfoldable pub write_files :
      String → Dict String → List String → M GerritMergeRequest (List String)
  unfolding ◌>>=◌ write_file
  write_files project_name [] add_files = pure add_files
  write_files project_name ((_, contents) ∷ rest) add_files = do
    f ← wrapping "unable to decode file" [] (lift (env.decode_mr_file contents))
    changed ← write_file project_name f
    write_files project_name rest (if changed then add_files ++ f.path ∷ [] else add_files)

  unfoldable pub commit_files : GerritMergeRequest → String → M GerritMergeRequest (Unit {0})
  unfolding ◌>>=◌
  commit_files o change_id = do
    files ← wrapping "unable to get files config map" [] (
        call (Call.get_config_map o.meta.namespace o.spec.changes_config_map)
          (λ t. env.get_config_map t o.meta.namespace o.spec.changes_config_map))
    wrapping "unable to checkout branch" []
        (Client.checkout_branch env client o.spec.project_name (Specs.target_branch o.spec))
    add_files ← write_files o.spec.project_name files []
    wrapping "unable to commit changes" [] (
        Client.commit env client o.spec.project_name
          (with_change_id (Specs.commit_message o.spec) change_id) add_files (author o.spec))

  -- `createChange` from the moment at which the project is cloned.
  unfoldable pub make_change : GerritMergeRequest → M GerritMergeRequest GerritMergeRequestStatus
  unfolding ◌>>=◌
  make_change o = do
    change_id ← wrapping "unable to generate change id" [] (Client.generate_change_id env client)
    if not (o.spec.source_branch == "")
        then wrapping "unable to perform merge" [] (merge_branches o.spec change_id)
        else wrapping "unable to commit files" [] (commit_files o change_id)
    message ← wrapping "unable to push repo" [] (
        Client.push env client o.spec.project_name "origin"
          (("HEAD:refs/for/" <> Specs.target_branch o.spec) ∷ []))
    let url : String = elim (env.find_submatch url_pattern message) [ none ↦ "" | some u ↦ u ]
    pure (record { value = "NEW"; change_url = url; change_id = change_id })

module _ (env : Env GerritMergeRequest) (work_dir : String) where
  unfoldable pub create_change : M GerritMergeRequest GerritMergeRequestStatus
  unfolding ◌>>=◌
  create_change = do
    client ← wrapping "unable to init git client" [] (get_git_client env work_dir)
    o ← this
    path ← wrapping "unable to clone repo" [] (Client.clone env client o.spec.project_name)
    finally (Client.act env client (Repos.remove_all path)) (make_change env client o)
