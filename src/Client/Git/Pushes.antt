-- ===== src/Client/Git/Pushes.antt =====
-- A push and the remote that holds the password (`Push` of pkg/client/git/client.go).
use edp_gerrit_operator.Base.{String, ◌<>◌, List, ◌∷◌, ◌≡◌, arith}
use edp_gerrit_operator.Errors.{Outcome, ok, err, panic, wrap}
use edp_gerrit_operator.World.{Env, World, Call}
use edp_gerrit_operator.World.Repos
use edp_gerrit_operator.Exec.{◌>>=◌}
use edp_gerrit_operator.Client.Git
use edp_gerrit_operator.Client.Git.{GitClient}

-- The result of a push by what the push came to and by what the deletion of the remote came to.
abbrev pub pushed : Outcome String → Outcome (Unit {0}) → Outcome String
pushed r (ok _) = r
pushed r (err e) = err (wrap "unable to delete tmp remote" e)
pushed r panic = panic

module _ {O : Type 0} (env : Env O) (c : GitClient) (project remote : String)
    (ref_specs : List String) (w : World O) where
  abbrev pub path : String
  path = Git.project_path env c project

  abbrev pub unsecure : String
  unsecure = "unsecure_" <> remote

  -- The world before the push: the repository is open, its remote is known and the new one is there.
  abbrev pub prepared : String → World O
  prepared url = record w {
    trace =
        Call.repo (Repos.create_remote path unsecure url)
        ∷ Call.repo (Repos.remote path remote)
        ∷ Call.repo (Repos.plain_open path)
        ∷ w.trace;
  }

  abbrev pub after_push : String → World O
  after_push url = record (prepared url) {
    trace = Call.repo (Repos.run_git path ("push" ∷ unsecure ∷ ref_specs)) ∷ (prepared url).trace;
  }

  -- Once the remote with the password is made, its deletion is the last call, whatever the push comes to; the push
  -- succeeds only where the deletion does too, and an error of the deletion takes the place of the push's own result.
  pub push_deletes :
      (base_url url : String) (urls : List String)
      → env.repos.act w.trace (Repos.plain_open path) ≡ ok tt
      → env.repos.urls (Call.repo (Repos.plain_open path) ∷ w.trace) path remote
        ≡ ok (base_url ∷ urls)
      → env.repos.with_user base_url c.username c.password ≡ ok url
      → env.repos.act
          (Call.repo (Repos.remote path remote) ∷ Call.repo (Repos.plain_open path) ∷ w.trace)
          (Repos.create_remote path unsecure url)
        ≡ ok tt
      → Git.push env c project remote ref_specs w ≡ (
        pushed
            (Git.output_or_error
              (env.repos.combined_output (prepared url).trace path ("push" ∷ unsecure ∷ ref_specs)))
            (env.repos.act (after_push url).trace (Repos.delete_remote path unsecure)),
        record (after_push url) {
          trace = Call.repo (Repos.delete_remote path unsecure) ∷ (after_push url).trace;
        },
      )
  unfolding Git.push Git.create_remote_with_credential ◌>>=◌
  push_deletes base_url url urls h1 h2 h3 h4 = rw (h1, h2, h3, h4) (ground arith)
