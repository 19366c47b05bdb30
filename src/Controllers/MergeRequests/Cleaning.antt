-- ===== src/Controllers/MergeRequests/Cleaning.antt =====
-- What becomes of the clone of a project (`createChange` of controllers/merge_request/controller.go).
use edp_gerrit_operator.Base.{String, ◌<>◌, ◌≡◌, refl, sym}
use edp_gerrit_operator.Errors.{Outcome, ok, err, panic}
use edp_gerrit_operator.Api.Specs.{GerritMergeRequestStatus}
use edp_gerrit_operator.World.{Env, World}
use edp_gerrit_operator.World.Repos
use edp_gerrit_operator.Exec.{◌>>=◌, overridden}
use edp_gerrit_operator.Client.Git as Client
use edp_gerrit_operator.Client.Git.{GitClient}
use edp_gerrit_operator.Controllers.MergeRequests.Git
use edp_gerrit_operator.Controllers.MergeRequests.Git.{GerritMergeRequest}
use edp_gerrit_operator.Controllers.MergeRequests.Progress.{
  IsPushed, path_of, cloned, removed, make_change-IsPushed,
}

module _ (env : Env GerritMergeRequest) (work_dir : String) (client : GitClient)
    (w w' : World GerritMergeRequest) where
  -- What the making of the change comes to in the clone.
  abbrev pub made : Outcome GerritMergeRequestStatus × World GerritMergeRequest
  made = Git.make_change env client w'.instance_ref (cloned env work_dir client w')

  -- The change was pushed where there is a status for it.
  abbrev pub PushedIf : Outcome GerritMergeRequestStatus → World GerritMergeRequest → Type 0
  PushedIf (ok st) v = IsPushed env client w'.instance_ref v
  PushedIf _ v = Unit

  pushed_if :
      (r : Outcome GerritMergeRequestStatus) (s : Outcome (Unit {0}))
      → r ≡ made.0
      → PushedIf (overridden r s) made.1
  pushed_if (ok st) (ok u) h = (make_change-IsPushed env client w'.instance_ref).at _ st (sym h)
  pushed_if (ok st) (err e) h = tt
  pushed_if (ok st) panic h = tt
  pushed_if (err e) (ok u) h = tt
  pushed_if (err e) (err e') h = tt
  pushed_if (err e) panic h = tt
  pushed_if panic (ok u) h = tt
  pushed_if panic (err e) h = tt
  pushed_if panic panic h = tt

  -- Once a project is cloned, the last call is the removal of the clone, whatever the making of the change comes to,
  -- an error or a panic too; an error of the removal takes the place of the result; and a status comes only where the
  -- change was pushed and the remote with the password was deleted by the calls just before.
  pub create_change_cleans :
      Git.get_git_client env work_dir w ≡ (ok client, w')
      → env.repos.act w'.trace (
          Repos.plain_clone
            (path_of env work_dir client w')
            client.username
            client.password
            (client.gerrit_base_url <> "/" <> w'.instance_ref.spec.project_name))
        ≡ ok tt
      → (Git.create_change env work_dir w ≡ (
        overridden made.0
            (env.repos.act made.1.trace (Repos.remove_all (path_of env work_dir client w'))),
        removed env work_dir (path_of env work_dir client w') made.1,
      ))
        × PushedIf (Git.create_change env work_dir w).0 made.1
  unfolding Git.create_change Client.clone ◌>>=◌
  create_change_cleans reached clone =
      let s = env.repos.act made.1.trace (Repos.remove_all (path_of env work_dir client w')) in
      (rw (reached, clone) refl, rw (reached, clone) (pushed_if made.0 s refl))
