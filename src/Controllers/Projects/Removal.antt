-- ===== src/Controllers/Projects/Removal.antt =====
-- A project that is being deleted and that Gerrit does not know (controllers/gerritproject/controller.go).
use edp_gerrit_operator.Base.{
  ◌<>◌, true, false, some, [], ◌∷◌, ◌≡◌, arith, if◌then◌else◌, Bool-cases, inl, inr,
}
use edp_gerrit_operator.Errors.{
  Outcome, ok, err, Response, wrap, bad_response, is_err_does_not_exist,
}
use edp_gerrit_operator.World.{Env, World}
use edp_gerrit_operator.World.Requests.{RestyClient, Request, post, fields, flag}
use edp_gerrit_operator.Exec.{◌>>=◌, wrap_outcome}
use edp_gerrit_operator.Client.Rest.Answers.{sent, send-sent, parse_resty_response-sent}
use edp_gerrit_operator.Client.Projects.{get_project, create_project, delete_project, project_path}
use edp_gerrit_operator.Helper.Owner
use edp_gerrit_operator.Helper.Owner.Delete.{after_deletion, try_to_delete_by}
use edp_gerrit_operator.Controllers.Projects
use edp_gerrit_operator.Controllers.Projects.{GerritProject}
use edp_gerrit_operator.Controllers.Projects.Upsert.{asked, creation}

module _ (env : Env GerritProject) (o : GerritProject) where
  abbrev pub removal : Request
  removal = record {
    method = post;
    path = project_path env o.spec.name <> "/delete-project~delete";
    body = fields (("force", flag false) ∷ ("preserve", flag false) ∷ []);
  }

module _ (env : Env GerritProject) (w w' : World GerritProject)
    (client : Owner.get_gerrit_client env w.instance_ref.spec.owner_name w ≡ (ok tt, w'))
    (c : RestyClient) (connected : w'.rest ≡ some c) (found made gone : Response) where
  abbrev pub recreated : World GerritProject
  recreated =
      sent c (creation env w'.instance_ref.spec) (sent c (asked env w'.instance_ref.spec) w')

  -- What the deletion function comes to, by the answer.
  abbrev pub deletion : Outcome (Unit {0}) × World GerritProject
  deletion = (
    if env.is_error gone
        then err (wrap "unable to delete project" (bad_response "status: %s, body: %s" gone))
        else ok tt,
    sent c (removal env w'.instance_ref) recreated,
  )

  abbrev pub wrapped_result :
      Outcome (Unit {0}) × World GerritProject → Outcome (Unit {0}) × World GerritProject
  wrapped_result (r, v) = (wrap_outcome "error during TryToDelete" [] r, v)

  deletion_answered :
      env.http recreated.trace c (removal env w'.instance_ref) ≡ ok gone
      → Projects.deletion_func env w'.instance_ref.spec.name recreated ≡ deletion
  unfolding delete_project ◌>>=◌
  deletion_answered answered = rw (parse_resty_response-sent, connected, answered) (ground arith)

  -- With a connected client, and where Gerrit answers each request: a project that is being deleted and that
  -- Gerrit no longer knows is created once more before it is deleted.
  -- Where Gerrit refuses the creation, the deletion is not asked for and the finalizer stays; otherwise the
  -- finalizer goes or stays by the answer to the deletion.
  pub try_to_reconcile_recreates :
      w'.instance_ref.meta.deleted ≡ true
      → env.http w'.trace c (asked env w'.instance_ref.spec) ≡ ok found
      → found.status ≡ 404
      → env.http
          (sent c (asked env w'.instance_ref.spec) w').trace
          c
          (creation env w'.instance_ref.spec)
        ≡ ok made
      → env.http recreated.trace c (removal env w'.instance_ref) ≡ ok gone
      → Projects.try_to_reconcile env w ≡ (
          if env.is_error made
          then (
            err (wrap "unable to create gerrit project" (bad_response "status: %s, body: %s" made)),
            recreated,
          )
          else wrapped_result (after_deletion env Projects.finalizer_name deletion))
  unfolding Projects.try_to_reconcile Projects.create_or_update get_project create_project
      Projects.wanted is_err_does_not_exist ◌>>=◌
  try_to_reconcile_recreates dead answered missing answered' answered'' =
      elim (Bool-cases (env.is_error made)) [
        | inl e ↦ rw (
          client, send-sent, connected, answered, missing, parse_resty_response-sent, answered', e,
        )
        | inr e ↦ rw (
          client,
          send-sent,
          connected,
          answered,
          missing,
          parse_resty_response-sent,
          answered',
          e,
          try_to_delete_by env Projects.finalizer_name
              (Projects.deletion_func env w'.instance_ref.spec.name) recreated dead deletion
              (deletion_answered answered''),
        )
      ]
