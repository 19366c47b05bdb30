-- ===== src/Controllers/Accesses/Writing.antt =====
-- When the rights of a project access are added and when they are replaced
-- (controllers/gerritprojectaccess/controller.go, pkg/client/gerrit/project_access.go).
use edp_gerrit_operator.Base.{
  subst, String, Bool, true, false, some, List, [], ◌∷◌, ◌≡◌, refl, arith, if◌then◌else◌, ◌<>◌,
  Bool-cases, inl, inr,
}
use edp_gerrit_operator.Api.Specs.{Reference}
use edp_gerrit_operator.Errors.{Outcome, ok, err, Response, wrap, bad_response}
use edp_gerrit_operator.World.{Env, World}
use edp_gerrit_operator.World.Requests.{RestyClient, Request, post, access_body}
use edp_gerrit_operator.Exec.{◌>>=◌}
use edp_gerrit_operator.Client.Rest.Answers.{sent, parse_resty_response-sent}
use edp_gerrit_operator.Client.Access
use edp_gerrit_operator.Client.Access.Request.{generate_set_access_request}
use edp_gerrit_operator.Controllers.Accesses
use edp_gerrit_operator.Controllers.Accesses.{GerritProjectAccess}

-- The one request that writes the rights: once they were created, they are removed and added again.
abbrev pub rights : Bool → String → List Reference → Request
rights created project_name refs =
    let infos = Accesses.prepare_access_info refs in
    record {
      method = post;
      path = "/projects/" <> project_name <> "/access";
      body = access_body (
          if created
          then ("add", generate_set_access_request infos false true)
            ∷ ("remove", generate_set_access_request infos false true)
            ∷ []
          else ("add", generate_set_access_request infos true false) ∷ []);
    }

module _ (env : Env GerritProjectAccess) (o : GerritProjectAccess) (w : World GerritProjectAccess)
    (c : RestyClient) (connected : w.rest ≡ some c) where
  referenced_sends :
      (ref : Reference) (refs : List Reference) (rsp : Response)
      → o.spec.references ≡ ref ∷ refs
      → env.http w.trace c (rights o.status.created o.spec.project_name (ref ∷ refs)) ≡ ok rsp
      → Accesses.write_access env o w ≡ (
        if env.is_error rsp
            then err (
                wrap
                  (if o.status.created
                    then "unable to update access rights"
                    else "unable to add access rights")
                  (bad_response "status: %s, body: %s" rsp))
            else ok tt,
        sent c (rights o.status.created o.spec.project_name (ref ∷ refs)) w,
      )
  unfolding Accesses.write_access Access.add_access_rights Access.update_access_rights
      Access.post_access ◌>>=◌
  referenced_sends ref refs rsp named answered = elim (Bool-cases o.status.created) [
    | inl e ↦
        let answered' =
          subst (λ b. env.http w.trace c (rights b o.spec.project_name (ref ∷ refs)) ≡ ok rsp) e
            answered in
        rw (named, e, parse_resty_response-sent, connected, answered') (ground arith)
    | inr e ↦
        let answered' =
          subst (λ b. env.http w.trace c (rights b o.spec.project_name (ref ∷ refs)) ≡ ok rsp) e
            answered in
        rw (named, e, parse_resty_response-sent, connected, answered') (ground arith)
  ]

  -- By the references of the spec and the answer: what writing the rights comes to, and the world after it.
  abbrev written : List Reference → Response → Outcome (Unit {0}) × World GerritProjectAccess
  written [] rsp = (ok tt, w)
  written (ref ∷ refs) rsp = (
    if env.is_error rsp
        then err (
            wrap
              (if o.status.created
                then "unable to update access rights"
                else "unable to add access rights")
              (bad_response "status: %s, body: %s" rsp))
        else ok tt,
    sent c (rights o.status.created o.spec.project_name (ref ∷ refs)) w,
  )

  written_by :
      (refs : List Reference) (rsp : Response)
      → o.spec.references ≡ refs
      → env.http w.trace c (rights o.status.created o.spec.project_name refs) ≡ ok rsp
      → Accesses.write_access env o w ≡ written refs rsp
  unfolding Accesses.write_access ◌>>=◌
  written_by [] rsp e answered = rw e
  written_by (ref ∷ refs) rsp e answered = referenced_sends ref refs rsp e answered

  -- A resource with references sends exactly one request, whose answer decides: until a reconciliation has
  -- succeeded it adds the rights, and from then on it removes and adds at once those of the present spec. A resource
  -- without references sends none.
  pub write_access_sends :
      (rsp : Response)
      → env.http w.trace c (rights o.status.created o.spec.project_name o.spec.references) ≡ ok rsp
      → Accesses.write_access env o w ≡ written o.spec.references rsp
  write_access_sends rsp answered = written_by o.spec.references rsp refl answered
