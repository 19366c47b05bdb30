-- ===== src/Controllers/Members/Removal.antt =====
-- A group member that is being deleted (controllers/gerritgroupmember/controller.go).
use edp_gerrit_operator.Base.{
  true, some, [], ℤ, Option, ◌≡◌, arith, if◌then◌else◌, ◌=?◌, Bool-cases, inl, inr, ◌∙◌,
}
use edp_gerrit_operator.Errors.{Outcome, ok, err, Response, wrap, bad_response}
use edp_gerrit_operator.World.{Env, World}
use edp_gerrit_operator.World.Requests.{RestyClient, Request, put, delete, no_body}
use edp_gerrit_operator.Exec.{◌>>=◌, wrap_outcome}
use edp_gerrit_operator.Client.Rest.Answers.{sent, send-sent, parse_resty_response-sent}
use edp_gerrit_operator.Client.Groups
use edp_gerrit_operator.Helper.Owner
use edp_gerrit_operator.Helper.Owner.Delete.{after_update, try_to_delete_by}
use edp_gerrit_operator.Controllers.Members
use edp_gerrit_operator.Controllers.Members.{GerritGroupMember}

module _ (env : Env GerritGroupMember) (o : GerritGroupMember) where
  abbrev pub addition : Request
  addition = record {
    method = put;
    path = Groups.member_path env o.spec.group_id o.spec.account_id;
    body = no_body;
  }

  abbrev pub removal : Request
  removal = record {
    method = delete;
    path = Groups.member_path env o.spec.group_id o.spec.account_id;
    body = no_body;
  }

  -- The resource without the finalizer.
  abbrev pub freed : GerritGroupMember
  freed = Owner.set_finalizers (Owner.remove_string o.meta.finalizers Members.finalizer_name) o

module _ (env : Env GerritGroupMember) (interval : Option ℤ) (w w' : World GerritGroupMember)
    (client : Owner.get_gerrit_client env w.instance_ref.spec.owner_name w ≡ (ok tt, w'))
    (c : RestyClient) (connected : w'.rest ≡ some c) (rsp rsp' : Response) where
  abbrev pub added : World GerritGroupMember
  added = sent c (addition env w'.instance_ref) w'

  abbrev pub removed : World GerritGroupMember
  removed = sent c (removal env w'.instance_ref) added

  abbrev pub wrapped_result :
      Outcome (Unit {0}) × World GerritGroupMember → Outcome (Unit {0}) × World GerritGroupMember
  wrapped_result (r, v) = (wrap_outcome "unable to delete CR" [] r, v)

  removal_answered :
      env.http added.trace c (removal env w'.instance_ref) ≡ ok rsp'
      → Members.deletion_func env interval w'.instance_ref.spec added ≡ (
        if rsp'.status =? 204
            then ok tt
            else err (
                wrap "unable to delete user from group"
                  (bad_response "wrong response code: %d, body: %s" rsp')),
        removed,
      )
  unfolding Groups.delete_user_from_group ◌>>=◌
  removal_answered answered = rw (send-sent, connected, answered) (ground arith)

  abbrev pub refused_removal : Outcome (Unit {0})
  refused_removal = err (
      wrap "unable to perform delete function" (
        wrap "unable to delete user from group"
          (bad_response "wrong response code: %d, body: %s" rsp')))

  let_go_answered :
      w'.instance_ref.meta.deleted ≡ true
      → env.http added.trace c (removal env w'.instance_ref) ≡ ok rsp'
      → Owner.try_to_delete env Members.finalizer_name
          (Members.deletion_func env interval w'.instance_ref.spec)
          added
        ≡ (if rsp'.status =? 204
            then after_update env Members.finalizer_name
                (freed env w'.instance_ref)
                removed
                "unable to remove finalizer from instance"
            else (refused_removal, removed))
  let_go_answered dead answered = elim (Bool-cases (rsp'.status =? 204)) [
    | inl e ↦
        try_to_delete_by env Members.finalizer_name _ added dead (ok tt, removed)
          (removal_answered answered ∙ rw e)
        ∙ rw e
    | inr e ↦
        try_to_delete_by env Members.finalizer_name _ added dead
          (
            err (
                wrap "unable to delete user from group"
                  (bad_response "wrong response code: %d, body: %s" rsp')),
            removed,
          )
          (removal_answered answered ∙ rw e)
        ∙ rw e
  ]

  -- With a connected client, and where Gerrit answers each request: a member that is being deleted is added to its
  -- group once more before it is removed from it. Where Gerrit
  -- refuses the addition, the removal is not asked for and the finalizer stays; where it refuses the removal, the
  -- finalizer stays too; and where it takes both, the finalizer goes with one update.
  pub try_to_reconcile_deleted :
      w'.instance_ref.meta.deleted ≡ true
      → env.http w'.trace c (addition env w'.instance_ref) ≡ ok rsp
      → env.http added.trace c (removal env w'.instance_ref) ≡ ok rsp'
      → Members.try_to_reconcile env interval w ≡ (
          if env.is_error rsp
          then (
            err (wrap "unable to add user to group" (bad_response "status: %s, body: %s" rsp)),
            added,
          )
          else wrapped_result (
              if rsp'.status =? 204
              then after_update env Members.finalizer_name
                  (freed env w'.instance_ref)
                  removed
                  "unable to remove finalizer from instance"
              else (refused_removal, removed)))
  unfolding Members.try_to_reconcile Groups.add_user_to_group ◌>>=◌
  try_to_reconcile_deleted dead answered answered' = elim (Bool-cases (env.is_error rsp)) [
    | inl e ↦ rw (client, parse_resty_response-sent, connected, answered, e)
    | inr e ↦
        rw (
          client,
          parse_resty_response-sent,
          connected,
          answered,
          e,
          let_go_answered dead answered',
        )
  ]
