-- ===== src/Controllers/MergeRequests/Progress.antt =====
-- How a merge request follows its change (controllers/merge_request/controller.go).
use edp_gerrit_operator.Base.{
  subst, Option-cases, inl, inr, Dict, List, String, true, false, ◌∷◌, [], ◌≡◌, refl, arith, ◌==◌,
  string_eq, ◌<>◌, ◌&&◌,
}
use edp_gerrit_operator.Errors.{Error, ok, err, wrap}
use edp_gerrit_operator.Api.Specs.{GerritMergeRequestStatus}
use edp_gerrit_operator.World.{Env, World, Call, Trace}
use edp_gerrit_operator.World.Repos
use edp_gerrit_operator.Client.Git as Client
use edp_gerrit_operator.Client.Git.{GitClient}
use edp_gerrit_operator.Controllers.MergeRequests.Untouched.{git_rules}
use edp_gerrit_operator.Exec.{wrapping, finally, pure, ◌>>=◌}
use edp_gerrit_operator.Api.Specs
use edp_gerrit_operator.World.Objects.{MrConfigMapFile}
use edp_gerrit_operator.Exec.Keeps.{Keeps, Holds, holds_rules}
use edp_gerrit_operator.Platform.K8s
use edp_gerrit_operator.Service.Connect
use edp_gerrit_operator.Exec.Total.{Ensures, bind-Ensures, map-Ensures, wrapping-Ensures}
use edp_gerrit_operator.Controllers.MergeRequests
use edp_gerrit_operator.Controllers.MergeRequests.Git
use edp_gerrit_operator.Controllers.MergeRequests.Git.{GerritMergeRequest}

module _ (env : Env GerritMergeRequest) (client : GitClient) where
  abbrev pub ref_specs : GerritMergeRequest → List String
  ref_specs o = ("HEAD:refs/for/" <> Specs.target_branch o.spec) ∷ []

  abbrev pub the_push : GerritMergeRequest → Call GerritMergeRequest
  the_push o = Call.repo (
      Repos.run_git (Client.project_path env client o.spec.project_name)
        ("push" ∷ "unsecure_origin" ∷ ref_specs o))

  -- The newest call is the deletion of the remote with the password, and the one before it the push of the change.
  abbrev pub IsPushed : GerritMergeRequest → World GerritMergeRequest → Type 0
  IsPushed o w =
      (t : Trace GerritMergeRequest) × (w.trace
        ≡ Call.repo (
            Repos.delete_remote (Client.project_path env client o.spec.project_name)
              "unsecure_origin")
          ∷ the_push o
          ∷ t)

  last_calls :
      (o : GerritMergeRequest)
      → Ensures
          (finally
            (wrapping "unable to delete tmp remote" [] (
              Client.act env client (
                Repos.delete_remote
                  (Client.project_path env client o.spec.project_name)
                  "unsecure_origin")))
            (Client.git_command env client
              (Client.project_path env client o.spec.project_name)
              ("push" ∷ "unsecure_origin" ∷ ref_specs o)))
          (λ output w. IsPushed o w)
  unfolding ◌>>=◌
  last_calls o = record { at = λ w output h. (w.trace, refl) }

  push-IsPushed :
      (o : GerritMergeRequest)
      → Ensures
          (Client.push env client o.spec.project_name "origin" (ref_specs o))
          (λ output w. IsPushed o w)
  unfolding Client.push
  push-IsPushed o = bind-Ensures _ _ (λ opened. bind-Ensures _ _ (λ made. last_calls o))

  push_last :
      (o : GerritMergeRequest) (f : String → GerritMergeRequestStatus)
      → Ensures
          (wrapping "unable to push repo" []
              (Client.push env client o.spec.project_name "origin" (ref_specs o))
            >>= λ m. pure (f m))
          (λ st w. IsPushed o w)
  push_last o f =
      map-Ensures (wrapping "unable to push repo" [] _) f
        (wrapping-Ensures "unable to push repo" [] _ (push-IsPushed o))

  -- Whoever gets a status from the making of a change has pushed the change, with the last call but one.
  pub make_change-IsPushed :
      (o : GerritMergeRequest) → Ensures (Git.make_change env client o) (λ st w. IsPushed o w)
  unfolding Git.make_change
  make_change-IsPushed o = search (push_last o, bind-Ensures)

  module _ {o : GerritMergeRequest} where
    write_file-Holds :
        (name : String) (f : MrConfigMapFile) → Keeps (Holds o) (Git.write_file env client name f)
    unfolding Git.write_file
    write_file-Holds name f = elim (Option-cases f.contents) [
      | inl e ↦ rw e (search git_rules)
      | inr (c, e) ↦ rw e (search git_rules)
    ]

    write_files-Holds :
        (name : String) (files : Dict String) (added : List String)
        → Keeps (Holds o) (Git.write_files env client name files added)
    unfolding Git.write_files
    write_files-Holds name [] added = search holds_rules
    write_files-Holds name ((_, contents) ∷ rest) added =
        let others : (added' : List String)
            → Keeps (Holds o) (Git.write_files env client name rest added') =
          write_files-Holds name rest in
        search (holds_rules, write_file-Holds, others) depth 14

    -- The making of a change does not touch the resource.
    make_change-Holds : (o' : GerritMergeRequest) → Keeps (Holds o) (Git.make_change env client o')
    unfolding Git.make_change Git.merge_branches Git.commit_files
    make_change-Holds o' = search (git_rules, write_files-Holds) depth 20

module _ (env : Env GerritMergeRequest) (work_dir : String) where
  module _ {o : GerritMergeRequest} where
    secret-Holds :
        (namespace name : String) → Keeps (Holds o) (K8s.get_secret_data env namespace name)
    unfolding K8s.get_secret_data
    secret-Holds namespace name = search holds_rules

    host-Holds : (hosts : List String) → Keeps (Holds o) (K8s.first_host env hosts)
    unfolding K8s.first_host
    host-Holds [] = search holds_rules
    host-Holds (_ ∷ _) = search holds_rules

    endpoint-Holds :
        (namespace name : String) → Keeps (Holds o) (K8s.get_external_endpoint env namespace name)
    unfolding K8s.get_external_endpoint
    endpoint-Holds namespace name = search (holds_rules, host-Holds)

    get_git_client-Holds : Keeps (Holds o) (Git.get_git_client env work_dir)
    unfolding Git.get_git_client Connect.get_gerrit_admin_password Connect.get_gerrit_rest_api_url
    get_git_client-Holds = search (holds_rules, secret-Holds, endpoint-Holds) depth 20

  -- The path of the clone, and the world after the cloning and after the removal was asked for.
  abbrev pub path_of : GitClient → World GerritMergeRequest → String
  path_of client w = Client.project_path env client w.instance_ref.spec.project_name

  abbrev pub cloned : GitClient → World GerritMergeRequest → World GerritMergeRequest
  cloned client w = record w {
    trace =
        Call.repo (
          Repos.plain_clone (path_of client w) client.username client.password
            (client.gerrit_base_url <> "/" <> w.instance_ref.spec.project_name))
        ∷ w.trace;
  }

  abbrev pub removed : String → World GerritMergeRequest → World GerritMergeRequest
  removed path w = record w { trace = Call.repo (Repos.remove_all path) ∷ w.trace }

  module _ (w w' w'' : World GerritMergeRequest) (client : GitClient)
      (st : GerritMergeRequestStatus) (fresh : w.instance_ref.status.change_id ≡ "")
      (asked : (w.instance_ref.spec.source_branch == ""
          && w.instance_ref.spec.changes_config_map == "")
        ≡ false)
      (reached : Git.get_git_client env work_dir w ≡ (ok client, w'))
      (clone : env.repos.act w'.trace (
          Repos.plain_clone
            (path_of client w')
            client.username
            client.password
            (client.gerrit_base_url <> "/" <> w'.instance_ref.spec.project_name))
        ≡ ok tt)
      (made : Git.make_change env client w'.instance_ref (cloned client w') ≡ (ok st, w''))
      (e : Error)
      (failed : env.repos.act w''.trace (Repos.remove_all (path_of client w')) ≡ err e) where
    client-Holds : Holds w.instance_ref w'
    client-Holds =
        subst (λ p. Holds w.instance_ref p.1) reached
          (get_git_client-Holds.at w (record { same = refl }))

    made-Holds : Holds w.instance_ref w''
    made-Holds =
        subst (λ p. Holds w.instance_ref p.1) made
          ((make_change-Holds env client w'.instance_ref).at (cloned client w')
            (record { same = client-Holds.same }))

    made-IsPushed : IsPushed env client w'.instance_ref w''
    made-IsPushed =
        subst (λ p. IsPushed env client w'.instance_ref p.1) made
          ((make_change-IsPushed env client w'.instance_ref).at (cloned client w') st (rw made))

    advance_unremoved :
        MergeRequests.advance env work_dir w
        ≡ (err (wrap "unable to create change" e), removed (path_of client w') w'')
    unfolding MergeRequests.advance Git.create_change Client.clone ◌>>=◌
    advance_unremoved =
        let e' : (w.instance_ref.status.change_id == "") ≡ true = ground arith in
        rw (e', asked, reached, clone, made, failed)

    -- A resource with no change yet gets one made and pushed, and then the directory of the clone cannot be removed: the
    -- reconciliation fails with the error of the removal, and the resource is left as it was, with no change; before the
    -- removal the newest calls are the push and the deletion of the remote that it was pushed to.
    pub try_reconcile_unremoved :
        ((MergeRequests.try_reconcile env work_dir w).0 ≡ err (wrap "unable to create change" e))
        × ((MergeRequests.try_reconcile env work_dir w).1.instance_ref ≡ w.instance_ref)
        × IsPushed env client w'.instance_ref w''
        × ((MergeRequests.try_reconcile env work_dir w).1.trace
            ≡ Call.repo (Repos.remove_all (path_of client w')) ∷ w''.trace)
    unfolding MergeRequests.try_reconcile ◌>>=◌
    try_reconcile_unremoved = (
      rw advance_unremoved,
      rw advance_unremoved made-Holds.same,
      made-IsPushed,
      rw advance_unremoved,
    )
