-- ===== src/World/Repos.antt =====
-- What the git client and the merge request controller ask of libraries (go-git, os/exec, os, net/url,
-- uuid and crypto/sha1), in pkg/client/git/client.go and controllers/merge_request/controller.go.
use edp_gerrit_operator.Base.{String, Bool, Option, List}
use edp_gerrit_operator.Errors.{Error, Outcome}

-- The first text is the path of the repository, the directory of the command or the path of the file.
pub data RepoCall : Type 0 where
  -- `git.PlainClone` with the user, the password and the URL
  plain_clone : String → String → String → String → RepoCall
  -- `git.PlainOpen`, `Worktree` and `Config`
  plain_open : String → RepoCall
  worktree : String → RepoCall
  read_config : String → RepoCall
  -- `SetConfig`, with the name and the email of the user changed
  set_user : String → String → String → RepoCall
  -- `Worktree.Add` of a file, `Worktree.Commit` with the message and the author's name and email
  add : String → String → RepoCall
  commit : String → String → String → String → RepoCall
  -- `Worktree.Checkout` of a branch
  checkout : String → String → RepoCall
  -- `Remote`, `CreateRemote` with the URL, `DeleteRemote`
  remote : String → String → RepoCall
  create_remote : String → String → String → RepoCall
  delete_remote : String → String → RepoCall
  -- `exec.Command("git", args...).CombinedOutput`
  run_git : String → List String → RepoCall
  -- `os.Create`, `WriteString`, `Close` and `os.Remove`
  create_file : String → RepoCall
  write_string : String → String → RepoCall
  close_file : String → RepoCall
  remove_path : String → RepoCall
  -- `os.RemoveAll`
  remove_all : String → RepoCall

-- The answers depend on what was done before, a `T`.
pub record RepoLibrary (T : Type 0) : Type 0 where
  -- the calls that return no more than an error
  pub act : T → RepoCall → Outcome (Unit {0})
  -- the URLs of a remote
  pub urls : T → String → String → Outcome (List String)
  -- the output of a command, and its error if there is one
  pub combined_output : T → String → List String → String × Option Error
  -- `url.Parse`, and the URL with the user and the password
  pub with_user : String → String → String → Outcome String
  pub is_not_exist : Error → Bool
  -- `uuid.NewRandom`, and the SHA-1 sum in hexadecimal digits
  pub new_random : T → Outcome String
  pub sha1_hex : String → Outcome String
