-- ===== src/Controllers/MergeRequests/Untouched.antt =====
-- The git client does not touch the resource (pkg/client/git/client.go).
use edp_gerrit_operator.Base.{String, List, [], ◌∷◌}
use edp_gerrit_operator.World.{Env}
use edp_gerrit_operator.Exec.Keeps.{Keeps, Holds, bind-Keeps, holds_rules}
use edp_gerrit_operator.Client.Git
use edp_gerrit_operator.Client.Git.{GitClient, User}

module _ {O : Type 0} (env : Env O) (c : GitClient) {o : O} where
  pub set_file_contents-Holds :
      (project path contents : String)
      → Keeps (Holds o) (Git.set_file_contents env c project path contents)
  unfolding Git.set_file_contents
  set_file_contents-Holds project path contents = search holds_rules

  pub remove_file-Holds :
      (project path : String) → Keeps (Holds o) (Git.remove_file env c project path)
  unfolding Git.remove_file
  remove_file-Holds project path = search holds_rules

  pub clone-Holds : (project : String) → Keeps (Holds o) (Git.clone env c project)
  unfolding Git.clone
  clone-Holds project = search holds_rules

  pub merge-Holds :
      (project source target : String) (options : List String)
      → Keeps (Holds o) (Git.merge env c project source target options)
  unfolding Git.merge
  merge-Holds project source target options = search holds_rules

  add_files-Holds :
      (path : String) (files : List String) → Keeps (Holds o) (Git.add_files env c path files)
  unfolding Git.add_files
  add_files-Holds path [] = search holds_rules
  add_files-Holds path (f ∷ files) =
      bind-Keeps _ _ (search holds_rules) (λ _. add_files-Holds path files)

  pub commit-Holds :
      (project message : String) (files : List String) (user : User)
      → Keeps (Holds o) (Git.commit env c project message files user)
  unfolding Git.commit
  commit-Holds project message files user = search (holds_rules, add_files-Holds)

  pub set_project_user-Holds :
      (project : String) (user : User) → Keeps (Holds o) (Git.set_project_user env c project user)
  unfolding Git.set_project_user
  set_project_user-Holds project user = search holds_rules

  pub checkout_branch-Holds :
      (project branch : String) → Keeps (Holds o) (Git.checkout_branch env c project branch)
  unfolding Git.checkout_branch
  checkout_branch-Holds project branch = search holds_rules

  pub push-Holds :
      (project remote : String) (refs : List String)
      → Keeps (Holds o) (Git.push env c project remote refs)
  unfolding Git.push Git.create_remote_with_credential
  push-Holds project remote refs = search holds_rules depth 14

  pub generate_change_id-Holds : Keeps (Holds o) (Git.generate_change_id env c)
  unfolding Git.generate_change_id
  generate_change_id-Holds = search holds_rules

  pub ruleset git_rules = (
    holds_rules, set_file_contents-Holds, remove_file-Holds, clone-Holds, merge-Holds, commit-Holds,
    set_project_user-Holds, checkout_branch-Holds, push-Holds, generate_change_id-Holds,
  )
