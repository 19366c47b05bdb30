-- ===== src/Controllers/MergeRequests/Following.antt =====
-- A merge request whose change exists (controllers/merge_request/controller.go).
use edp_gerrit_operator.Base.{
  Bool-cases, inl, inr, String, false, some, ◌≡◌, ◌≢◌, arith, if◌then◌else◌, ◌==◌, string_eq, ◌<>◌,
  ltb, length, drop,
}
use edp_gerrit_operator.Errors.{ok, err, Response, wrap, bad_response}
use edp_gerrit_operator.World.{Env, World}
use edp_gerrit_operator.World.Requests.{RestyClient, Request, Change, get, post, no_body}
use edp_gerrit_operator.Exec.{◌>>=◌}
use edp_gerrit_operator.Client.Rest.{accept, decode_gerrit_response}
use edp_gerrit_operator.Client.Rest.Answers.{sent, send-sent, parse_resty_response-sent}
use edp_gerrit_operator.Client.Changes.{change_get, change_abandon}
use edp_gerrit_operator.Helper.Owner.{get_gerrit_client}
use edp_gerrit_operator.Controllers.MergeRequests
use edp_gerrit_operator.Controllers.MergeRequests.Git.{GerritMergeRequest}

-- The question about a change, and the request to abandon it.
abbrev pub asked : String → Request
asked id = record { method = get; path = "changes/" <> id; body = no_body }

abbrev pub abandonment : String → Request
abandonment id = record { method = post; path = "changes/" <> id <> "/abandon"; body = no_body }

module _ (env : Env GerritMergeRequest) (work_dir : String) where
  module _ (w w' : World GerritMergeRequest) (c : RestyClient) (rsp : Response) (change : Change)
      (client : get_gerrit_client env w.instance_ref.spec.owner_name w ≡ (ok tt, w'))
      (connected : w'.rest ≡ some c)
      (answered : env.http w'.trace c (asked w'.instance_ref.status.change_id) ≡ ok rsp)
      (fine : env.is_error rsp ≡ false) (long : ltb (length rsp.body) 5 ≡ false)
      (decoded : env.decode_change (drop 5 rsp.body) ≡ ok change) where
    abbrev after : World GerritMergeRequest
    after = sent c (asked w'.instance_ref.status.change_id) w'

    change_get_decoded : change_get env w'.instance_ref.status.change_id w' ≡ (ok change, after)
    unfolding change_get accept decode_gerrit_response ◌>>=◌
    change_get_decoded = rw (send-sent, connected, answered, fine, long, decoded)

    -- The status of the change in Gerrit becomes the status of the resource, whose other fields stay, and the
    -- resource is looked at again exactly while the change is new.
    pub advance_existing :
        w.instance_ref.status.change_id ≢ ""
        → MergeRequests.advance env work_dir w ≡ (
          ok (change.status == "NEW"),
          record after { instance_ref = MergeRequests.set_value change.status w'.instance_ref },
        )
    unfolding MergeRequests.advance MergeRequests.get_change_status ◌>>=◌
    advance_existing named =
        let e : (w.instance_ref.status.change_id == "") ≡ false = ground arith in
        rw (e, client, change_get_decoded)

    -- On deletion, a change that is new is abandoned with one request, whose answer decides; any other
    -- change is left alone and the deletion succeeds.
    pub deletion_func_abandons :
        (rsp' : Response)
        → env.http after.trace c (abandonment w'.instance_ref.status.change_id) ≡ ok rsp'
        → MergeRequests.deletion_func env work_dir w ≡ (
            if change.status == "NEW"
            then (
              if env.is_error rsp'
                  then err (
                      wrap "unable to abandon change" (
                        wrap "unable to abandon change" (bad_response "status: %s, body: %s" rsp')))
                  else ok tt,
              sent c (abandonment w'.instance_ref.status.change_id) after,
            )
            else (ok tt, after))
    unfolding MergeRequests.deletion_func change_abandon ◌>>=◌
    deletion_func_abandons rsp' answered' = elim (Bool-cases (change.status == "NEW")) [
      | inl e ↦
          rw (client, change_get_decoded, e, parse_resty_response-sent, connected, answered')
            (ground arith)
      | inr e ↦ rw (client, change_get_decoded, e)
    ]
