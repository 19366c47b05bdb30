-- ===== src/Controllers/Groups/Courses.antt =====
-- All that may become of a group (controllers/gerritgroup/controller.go, pkg/client/gerrit/group.go).
use edp_gerrit_operator.Base.{
  ℕ, true, false, some, List, ◌≡◌, ◌≢◌, refl, arith, ltb, drop, length, ◌=?◌, Bool-cases, inl, inr,
  ◌⊎◌, string_eq,
}
use edp_gerrit_operator.Errors.{Error, Outcome, ok, err, panic, Response, is_err_already_exists}
use edp_gerrit_operator.World.{Env, World, Trace}
use edp_gerrit_operator.World.Requests.{RestyClient, Request, Group}
use edp_gerrit_operator.Exec.{◌>>=◌}
use edp_gerrit_operator.Client.Rest.{decode_gerrit_response}
use edp_gerrit_operator.Client.Rest.Answers.{sent, send-sent}
use edp_gerrit_operator.Client.Rest.Pairs.{IsFailed, Pair, wrapped-Pair}
use edp_gerrit_operator.Client.Rest.Pairs
use edp_gerrit_operator.Client.Groups.{create_group, update_group}
use edp_gerrit_operator.Controllers.Groups
use edp_gerrit_operator.Controllers.Groups.{GerritGroup}
use edp_gerrit_operator.Controllers.Groups.Upsert.{
  creation, new_description, new_options, update_existing_named, update_existing_unnamed,
}

module _ (env : Env GerritGroup) (w : World GerritGroup) (c : RestyClient)
    (connected : w.rest ≡ some c) where
  abbrev described : World GerritGroup
  described = sent c (new_description env w) w

  update_second :
      (rsp : Response) (a : Outcome Response)
      → env.http w.trace c (new_description env w) ≡ ok rsp
      → env.is_error rsp ≡ false
      → env.http described.trace c (new_options env w) ≡ a
      → Pair env c (new_description env w) (new_options env w) w (
          update_group env w.instance_ref.status.id w.instance_ref.spec.description
            w.instance_ref.spec.visible_to_all w)
  unfolding update_group ◌>>=◌
  update_second rsp panic e fine e' =
      rw (send-sent, connected, e, fine, send-sent, e')
        (Pairs.halved panic (rw e fine) (rw e' tt) tt)
  update_second rsp (err x) e fine e' =
      rw (send-sent, connected, e, fine, send-sent, e') (Pairs.halved _ (rw e fine) (rw e' tt) tt)
  update_second rsp (ok rsp') e fine e' = elim (Bool-cases (env.is_error rsp')) [
    | inl h ↦
        rw (send-sent, connected, e, fine, send-sent, e', h)
          (Pairs.halved _ (rw e fine) (rw e' h) tt)
    | inr h ↦
        rw (send-sent, connected, e, fine, send-sent, e', h) (Pairs.both (rw e fine) (rw e' h))
  ]

  update_first :
      (a : Outcome Response)
      → env.http w.trace c (new_description env w) ≡ a
      → Pair env c (new_description env w) (new_options env w) w (
          update_group env w.instance_ref.status.id w.instance_ref.spec.description
            w.instance_ref.spec.visible_to_all w)
  unfolding update_group ◌>>=◌
  update_first panic e = rw (send-sent, connected, e) (Pairs.stopped panic (rw e tt) tt)
  update_first (err x) e = rw (send-sent, connected, e) (Pairs.stopped _ (rw e tt) tt)
  update_first (ok rsp) e = elim (Bool-cases (env.is_error rsp)) [
    | inl h ↦ rw (send-sent, connected, e, h) (Pairs.stopped _ (rw e h) tt)
    | inr h ↦ update_second rsp (env.http described.trace c (new_options env w)) e h refl
  ]

  update_group-Pair : Pair env c (new_description env w) (new_options env w) w (
      update_group env w.instance_ref.status.id w.instance_ref.spec.description
        w.instance_ref.spec.visible_to_all w)
  update_group-Pair = update_first (env.http w.trace c (new_description env w)) refl

module _ (env : Env GerritGroup) (w : World GerritGroup) (c : RestyClient) where
  abbrev asked : World GerritGroup
  asked = sent c (creation env w) w

  -- Gerrit says that the group exists.
  abbrev IsTaken : Outcome Response → Type 0
  IsTaken (ok rsp) = (env.is_error rsp ≡ true) × (rsp.status ≡ 409)
  IsTaken _ = ⊥

  -- Gerrit says that it made the group.
  abbrev IsMade : Outcome Response → Group → Type 0
  IsMade (ok rsp) gr =
      (env.is_error rsp ≡ false)
      × (ltb (length rsp.body) 5 ≡ false)
      × (env.decode_group (drop 5 rsp.body) ≡ ok gr)
  IsMade _ gr = ⊥

  -- Any other answer, or none: an error status but for 409, or a body that is no group.
  abbrev IsOther : Outcome Response → Type 0
  IsOther (ok rsp) =
      ((env.is_error rsp ≡ true) × (rsp.status ≢ 409))
      ⊎ ((env.is_error rsp ≡ false)
          × ((ltb (length rsp.body) 5 ≡ true) ⊎ IsFailed (env.decode_group (drop 5 rsp.body))))
  IsOther _ = Unit

  -- The ways in which a group may be created or brought up to date, with the result and the world after it.
  pub data GroupCourse : Outcome (Unit {0}) × World GerritGroup → Type 0 where
    made :
        (gr : Group)
        → IsMade (env.http w.trace c (creation env w)) gr
        → GroupCourse (ok tt, record asked { instance_ref = Groups.set_ids env gr w.instance_ref })
    refused :
        (r : Outcome (Unit {0}))
        → IsOther (env.http w.trace c (creation env w))
        → IsFailed r
        → GroupCourse (r, asked)
    foreign :
        IsTaken (env.http w.trace c (creation env w))
        → w.instance_ref.status.id ≡ ""
        → GroupCourse (ok tt, asked)
    brought :
        (r : Outcome (Unit {0})) (w' : World GerritGroup)
        → IsTaken (env.http w.trace c (creation env w))
        → w.instance_ref.status.id ≢ ""
        → Pair env c (new_description env w) (new_options env w) asked (r, w')
        → GroupCourse (r, w')

  module _ (connected : w.rest ≡ some c) where
    decoded :
        (rsp : Response) (a : Outcome Group)
        → env.http w.trace c (creation env w) ≡ ok rsp
        → env.is_error rsp ≡ false
        → ltb (length rsp.body) 5 ≡ false
        → env.decode_group (drop 5 rsp.body) ≡ a
        → ((e : Error) → a ≡ err e → is_err_already_exists e ≡ false)
        → GroupCourse (Groups.create_or_update env w)
    unfolding Groups.create_or_update create_group decode_gerrit_response is_err_already_exists
        ◌>>=◌
    decoded rsp (ok gr) e fine long d plain =
        rw (send-sent, connected, e, fine, long, d) (made gr (rw e (fine, long, d)))
    decoded rsp (err x) e fine long d plain =
        rw (send-sent, connected, e, fine, long, d, plain x refl)
          (refused _ (rw e (inr (fine, inr (rw d tt)))) tt)
    decoded rsp panic e fine long d plain =
        rw (send-sent, connected, e, fine, long, d)
          (refused panic (rw e (inr (fine, inr (rw d tt)))) tt)

    taken :
        (rsp : Response)
        → env.http w.trace c (creation env w) ≡ ok rsp
        → env.is_error rsp ≡ true
        → rsp.status ≡ 409
        → GroupCourse (Groups.create_or_update env w)
    unfolding Groups.create_or_update create_group is_err_already_exists ◌>>=◌
    taken rsp e bad there = elim (string_eq.dec w.instance_ref.status.id "") [
      | yes unnamed ↦
          rw (send-sent, connected, e, bad, there, update_existing_unnamed env w unnamed)
            (foreign (rw e (bad, there)) unnamed)
      | no named ↦
          rw (send-sent, connected, e, bad, there, update_existing_named env w named)
            (brought _ _ (rw e (bad, there)) named (
              wrapped-Pair env c (new_description env w) (new_options env w) asked
                "unable to update gerrit group" _ (update_group-Pair env asked c connected)))
    ]

    answered :
        ((body : List ℕ) (e : Error)
          → env.decode_group body ≡ err e
          → is_err_already_exists e ≡ false)
        → (a : Outcome Response) → env.http w.trace c (creation env w) ≡ a
        → ((e : Error) → a ≡ err e → is_err_already_exists e ≡ false)
        → GroupCourse (Groups.create_or_update env w)
    unfolding Groups.create_or_update create_group decode_gerrit_response is_err_already_exists
        ◌>>=◌
    answered plain panic e k = rw (send-sent, connected, e) (refused panic (rw e tt) tt)
    answered plain (err x) e k = rw (send-sent, connected, e, k x refl) (refused _ (rw e tt) tt)
    answered plain (ok rsp) e k = elim (Bool-cases (env.is_error rsp)) [
      | inl bad ↦ elim (Bool-cases (rsp.status =? 409)) [
        | inl h ↦ taken rsp e bad (ground arith)
        | inr h ↦
            rw (send-sent, connected, e, bad, h)
              (refused _ (rw e (inl (bad, λ there. ground arith))) tt)
      ]
      | inr fine ↦ elim (Bool-cases (ltb (length rsp.body) 5)) [
        | inl short ↦
            rw (send-sent, connected, e, fine, short) (refused _ (rw e (inr (fine, inl short))) tt)
        | inr long ↦
            decoded rsp (env.decode_group (drop 5 rsp.body)) e fine long refl
              (λ x d. plain (drop 5 rsp.body) x d)
      ]
    ]

    -- Whatever is answered, a group that was made has its identifiers in the status; one that exists is left as it
    -- is where its identifier is not known, and else brought up to date by two requests, of which the second is
    -- sent once the first was accepted; and any other answer is an error after which nothing is asked. The errors
    -- of the connection and of the decoding are taken not to be the operator's own `ErrAlreadyExists`.
    pub create_or_update-GroupCourse :
        ((t : Trace GerritGroup) (r : Request) (e : Error)
          → env.http t c r ≡ err e
          → is_err_already_exists e ≡ false)
        → ((body : List ℕ) (e : Error)
            → env.decode_group body ≡ err e
            → is_err_already_exists e ≡ false)
        → GroupCourse (Groups.create_or_update env w)
    create_or_update-GroupCourse plain_http plain_decode =
        answered plain_decode (env.http w.trace c (creation env w)) refl
          (λ e h. plain_http w.trace (creation env w) e h)
