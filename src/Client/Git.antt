-- ===== src/Client/Git.antt =====
-- The git client (pkg/client/git/client.go).
pub mod Pushes
pub mod Commits
use edp_gerrit_operator.Base.{String, ◌<>◌, Bool, true, false, Option, none, some, List, [], ◌∷◌}
use edp_gerrit_operator.Base.{inl, inr, if◌then◌else◌}
use edp_gerrit_operator.Errors.{Error, Outcome, ok, err, new, wrap, wrapf}
use edp_gerrit_operator.World.{Env, Call}
use edp_gerrit_operator.World.Repos.{RepoCall}
use edp_gerrit_operator.World.Repos
use edp_gerrit_operator.Exec.{
  M, ◌>>=◌, ◌>>◌, pure, raise, lift, call, wrapping, attempt, finally, skip, traced,
}

-- `Client` of pkg/client/git
pub record GitClient : Type 0 where
  pub username : String
  pub password : String
  pub working_dir : String
  pub gerrit_base_url : String

pub record User : Type 0 where
  pub name : String
  pub email : String

-- A command that fails is reported by its output.
abbrev pub output_or_error : String × Option Error → Outcome String
output_or_error (output, none) = ok output
output_or_error (output, some e) = err (wrap output e)

module _ {O : Type 0} (env : Env O) (c : GitClient) where
  unfoldable pub project_path : String → String
  project_path project_name = env.path_join c.working_dir project_name

  abbrev pub act : RepoCall → M O (Unit {0})
  act r = call (Call.repo r) (λ t. env.repos.act t r)

  abbrev pub git_command : String → List String → M O String
  git_command dir args =
      call (Call.repo (Repos.run_git dir args))
        (λ t. output_or_error (env.repos.combined_output t dir args))

  unfoldable pub set_file_contents : String → String → String → M O (Unit {0})
  set_file_contents project_name file_path contents = do
    let path = env.path_join (project_path project_name) file_path
    wrapping "unable to create file: %s" (path ∷ []) (act (Repos.create_file path))
    wrapping "unable to put file contents, file: %s" (path ∷ [])
        (act (Repos.write_string path contents))
    wrapping "unable to close file: %s" (path ∷ []) (act (Repos.close_file path))

  -- Whether there was a file.
  unfoldable pub remove_file : String → String → M O Bool
  remove_file project_name file_path = do
    let path = env.path_join (project_path project_name) file_path
    r ← attempt (act (Repos.remove_path path))
    elim r [
      | inr _ ↦ pure true
      | inl e ↦
          if env.repos.is_not_exist e
          then pure false
          else raise (wrapf "unable to remove file: %s" path e)
    ]

  unfoldable pub clone : String → M O String
  clone project_name = do
    let path = project_path project_name
    let url = c.gerrit_base_url <> "/" <> project_name
    wrapping "unable to clone repository" []
        (act (Repos.plain_clone path c.username c.password url))
    pure path

  unfoldable pub merge : String → String → String → List String → M O (Unit {0})
  merge project_name source_branch target_branch options = do
    let dir = project_path project_name
    output ← git_command dir ("checkout" ∷ target_branch ∷ [])
    output' ← git_command dir ("merge" ∷ source_branch ∷ options)
    skip

  -- The loop of `Commit`.
  unfoldable pub add_files : String → List String → M O (Unit {0})
  add_files path [] = skip
  add_files path (f ∷ files) =
      wrapping "unable to add file: %s" (f ∷ []) (act (Repos.add path f)) >> add_files path files

  unfoldable pub commit : String → String → List String → User → M O (Unit {0})
  commit project_name message files user = do
    let path = project_path project_name
    wrapping "unable to open repository" [] (act (Repos.plain_open path))
    wrapping "unable to get repo worktree" [] (act (Repos.worktree path))
    add_files path files
    wrapping "unable to perform git commit" []
        (act (Repos.commit path message user.name user.email))

  unfoldable pub set_project_user : String → User → M O (Unit {0})
  set_project_user project_name user = do
    let path = project_path project_name
    wrapping "unable to open repository" [] (act (Repos.plain_open path))
    wrapping "unable to get repo config" [] (act (Repos.read_config path))
    wrapping "unable to set project user" [] (act (Repos.set_user path user.name user.email))

  unfoldable pub checkout_branch : String → String → M O (Unit {0})
  checkout_branch project_name branch = do
    let path = project_path project_name
    wrapping "unable to open repository" [] (act (Repos.plain_open path))
    wrapping "unable to get repo worktree" [] (act (Repos.worktree path))
    wrapping "unable to checkout to branch: %s" (branch ∷ []) (act (Repos.checkout path branch))

  abbrev pub first_url : List String → Outcome String
  first_url [] = err (new "remote does not have valid urls")
  first_url (url ∷ _) = ok url

  unfoldable pub create_remote_with_credential : String → String → String → M O (Unit {0})
  create_remote_with_credential path base_remote_name new_remote_name = do
    urls ← wrapping "unable to get origin remote" [] (
        call (Call.repo (Repos.remote path base_remote_name))
          (λ t. env.repos.urls t path base_remote_name))
    first ← lift (first_url urls)
    url ←
        wrapping "unable to parse origin url" []
          (lift (env.repos.with_user first c.username c.password))
    wrapping "unable to create remote" [] (act (Repos.create_remote path new_remote_name url))

  -- The deferred deletion of the remote decides the error where it fails.
  unfoldable pub push : String → String → List String → M O String
  push project_name remote ref_specs = do
    let path = project_path project_name
    let unsecure = "unsecure_" <> remote
    wrapping "" [] (act (Repos.plain_open path))
    wrapping "unable to create new remote" [] (create_remote_with_credential path remote unsecure)
    finally (wrapping "unable to delete tmp remote" [] (act (Repos.delete_remote path unsecure)))
        (git_command path ("push" ∷ unsecure ∷ ref_specs))

  unfoldable pub generate_change_id : M O String
  generate_change_id = do
    t ← traced
    id ← wrapping "failed to generate uuid," [] (lift (env.repos.new_random t))
    sum ← wrapping "failed to write to hash" [] (lift (env.repos.sha1_hex id))
    pure ("I" <> sum)
