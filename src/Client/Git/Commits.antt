-- ===== src/Client/Git/Commits.antt =====
-- The files of a commit (`Commit` of pkg/client/git/client.go).
use edp_gerrit_operator.Base.{String, List, [], ◌∷◌, ◌++◌, ◌≡◌, refl}
use edp_gerrit_operator.Errors.{Error, ok, err, wrapf}
use edp_gerrit_operator.World.{Env, World, Call, Trace}
use edp_gerrit_operator.World.Repos
use edp_gerrit_operator.Exec.{◌>>=◌, wrap_outcome}
use edp_gerrit_operator.Client.Git
use edp_gerrit_operator.Client.Git.{GitClient, User}

-- The calls after the files were added, one by one.
abbrev pub added : {O : Type 0} → String → List String → Trace O → Trace O
added path [] t = t
added path (f ∷ files) t = added path files (Call.repo (Repos.add path f) ∷ t)

-- Each file is taken when it is added after those before it.
abbrev pub Takes : {O : Type 0} → Env O → String → List String → Trace O → Type 0
Takes env path [] t = Unit
Takes env path (f ∷ files) t =
    (env.repos.act t (Repos.add path f) ≡ ok tt)
    × Takes env path files (Call.repo (Repos.add path f) ∷ t)

module _ {O : Type 0} (env : Env O) (c : GitClient) where
  add_files-stops :
      (path : String) (files rest : List String) (bad : String) (e : Error) (w : World O)
      → Takes env path files w.trace
      → env.repos.act (added path files w.trace) (Repos.add path bad) ≡ err e
      → Git.add_files env c path (files ++ bad ∷ rest) w ≡ (
        err (wrapf "unable to add file: %s" bad e),
        record w { trace = Call.repo (Repos.add path bad) ∷ added path files w.trace },
      )
  unfolding Git.add_files ◌>>=◌
  add_files-stops path [] rest bad e w h refused = rw refused
  add_files-stops path (f ∷ files) rest bad e w (taken, h) refused = rw taken (
      add_files-stops path files rest bad e
        (record w { trace = Call.repo (Repos.add path f) ∷ w.trace }) h refused)

  add_files-all :
      (path : String) (files : List String) (w : World O)
      → Takes env path files w.trace
      → Git.add_files env c path files w ≡ (ok tt, record w { trace = added path files w.trace })
  unfolding Git.add_files ◌>>=◌
  add_files-all path [] w h = refl
  add_files-all path (f ∷ files) w (taken, h) =
      rw taken
        (add_files-all path files (record w { trace = Call.repo (Repos.add path f) ∷ w.trace }) h)

  module _ (project message : String) (user : User) (w : World O) where
    abbrev pub path : String
    path = Git.project_path env c project

    abbrev pub opened : World O
    opened = record w {
      trace = Call.repo (Repos.worktree path) ∷ Call.repo (Repos.plain_open path) ∷ w.trace;
    }

    -- The first file that cannot be added ends a commit: those before it have been added, those after it are not
    -- looked at, nothing is committed, and the error names the file.
    pub commit_stops :
        (files rest : List String) (bad : String) (e : Error)
        → env.repos.act w.trace (Repos.plain_open path) ≡ ok tt
        → env.repos.act (Call.repo (Repos.plain_open path) ∷ w.trace) (Repos.worktree path) ≡ ok tt
        → Takes env path files opened.trace
        → env.repos.act (added path files opened.trace) (Repos.add path bad) ≡ err e
        → Git.commit env c project message (files ++ bad ∷ rest) user w ≡ (
          err (wrapf "unable to add file: %s" bad e),
          record opened { trace = Call.repo (Repos.add path bad) ∷ added path files opened.trace },
        )
    unfolding Git.commit ◌>>=◌
    commit_stops files rest bad e h1 h2 takes refused =
        rw (h1, h2, add_files-stops path files rest bad e opened takes refused)

    -- Where every file is taken, they are added in their order and then committed, and the commit decides.
    pub commit_all :
        (files : List String)
        → env.repos.act w.trace (Repos.plain_open path) ≡ ok tt
        → env.repos.act (Call.repo (Repos.plain_open path) ∷ w.trace) (Repos.worktree path) ≡ ok tt
        → Takes env path files opened.trace
        → Git.commit env c project message files user w ≡ (
          wrap_outcome "unable to perform git commit" [] (
              env.repos.act
                (added path files opened.trace)
                (Repos.commit path message user.name user.email)),
          record opened {
            trace =
                Call.repo (Repos.commit path message user.name user.email)
                ∷ added path files opened.trace;
          },
        )
    unfolding Git.commit ◌>>=◌
    commit_all files h1 h2 takes = rw (h1, h2, add_files-all path files opened takes)
