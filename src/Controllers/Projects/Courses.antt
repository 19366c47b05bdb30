-- ===== src/Controllers/Projects/Courses.antt =====
-- All that may become of a project (controllers/gerritproject/controller.go, pkg/client/gerrit/project.go).
use edp_gerrit_operator.Base.{
  ℕ, true, false, some, List, ◌≡◌, ◌≢◌, refl, arith, ltb, drop, length, ◌=?◌, Bool-cases, inl, inr,
  ◌⊎◌,
}
use edp_gerrit_operator.Errors.{Error, Outcome, ok, err, panic, Response, is_err_does_not_exist}
use edp_gerrit_operator.Api.Specs.{GerritProjectSpec}
use edp_gerrit_operator.World.{Env, World, Trace}
use edp_gerrit_operator.World.Requests.{RestyClient, Request, Project}
use edp_gerrit_operator.Exec.{◌>>=◌}
use edp_gerrit_operator.Client.Rest.{decode_gerrit_response}
use edp_gerrit_operator.Client.Rest.Answers.{sent, send-sent}
use edp_gerrit_operator.Client.Rest.Pairs.{IsFailed, IsAccepted, IsRefused, Pair, wrapped-Pair}
use edp_gerrit_operator.Client.Rest.Pairs
use edp_gerrit_operator.Client.Rest
use edp_gerrit_operator.Client.Projects.{get_project, create_project, update_project}
use edp_gerrit_operator.Controllers.Projects
use edp_gerrit_operator.Controllers.Projects.{GerritProject}
use edp_gerrit_operator.Controllers.Projects.Upsert.{asked, creation, new_description, new_parent}

module _ (env : Env GerritProject) (s : GerritProjectSpec) (w : World GerritProject)
    (c : RestyClient) (connected : w.rest ≡ some c) where
  abbrev described : World GerritProject
  described = sent c (new_description env s) w

  update_second :
      (rsp : Response) (a : Outcome Response)
      → env.http w.trace c (new_description env s) ≡ ok rsp
      → env.is_error rsp ≡ false
      → env.http described.trace c (new_parent env s) ≡ a
      → Pair env c
          (new_description env s)
          (new_parent env s)
          w
          (update_project env (Projects.wanted s) w)
  unfolding update_project Projects.wanted Rest.parse_resty_response Rest.accept ◌>>=◌
  update_second rsp panic e fine e' =
      rw (send-sent, connected, e, fine, send-sent, e')
        (Pairs.halved panic (rw e fine) (rw e' tt) tt)
  update_second rsp (err x) e fine e' =
      rw (send-sent, connected, e, fine, send-sent, e') (Pairs.halved _ (rw e fine) (rw e' tt) tt)
  update_second rsp (ok rsp') e fine e' = elim (Bool-cases (env.is_error rsp')) [
    | inl h ↦
        rw (send-sent, connected, e, fine, send-sent, e', h)
          (Pairs.halved _ (rw e fine) (rw e' h) tt)
    | inr h ↦
        rw (send-sent, connected, e, fine, send-sent, e', h) (Pairs.both (rw e fine) (rw e' h))
  ]

  update_first :
      (a : Outcome Response)
      → env.http w.trace c (new_description env s) ≡ a
      → Pair env c
          (new_description env s)
          (new_parent env s)
          w
          (update_project env (Projects.wanted s) w)
  unfolding update_project Projects.wanted Rest.parse_resty_response Rest.accept ◌>>=◌
  update_first panic e = rw (send-sent, connected, e) (Pairs.stopped panic (rw e tt) tt)
  update_first (err x) e = rw (send-sent, connected, e) (Pairs.stopped _ (rw e tt) tt)
  update_first (ok rsp) e = elim (Bool-cases (env.is_error rsp)) [
    | inl h ↦ rw (send-sent, connected, e, h) (Pairs.stopped _ (rw e h) tt)
    | inr h ↦ update_second rsp (env.http described.trace c (new_parent env s)) e h refl
  ]

  update_project-Pair :
      Pair env c
        (new_description env s)
        (new_parent env s)
        w
        (update_project env (Projects.wanted s) w)
  update_project-Pair = update_first (env.http w.trace c (new_description env s)) refl

module _ (env : Env GerritProject) (s : GerritProjectSpec) (w : World GerritProject)
    (c : RestyClient) where
  abbrev looked : World GerritProject
  looked = sent c (asked env s) w

  -- Gerrit does not know the project.
  abbrev IsMissing : Outcome Response → Type 0
  IsMissing (ok rsp) = rsp.status ≡ 404
  IsMissing _ = ⊥

  -- Gerrit answers with a project.
  abbrev IsKnown : Outcome Response → Type 0
  IsKnown (ok rsp) =
      (rsp.status ≡ 200)
      × (ltb (length rsp.body) 5 ≡ false)
      × (p : Project) × (env.decode_project (drop 5 rsp.body) ≡ ok p)
  IsKnown _ = ⊥

  -- Any other answer, or none: another status, or a body that is no project.
  abbrev IsOther : Outcome Response → Type 0
  IsOther (ok rsp) =
      ((rsp.status ≢ 200) × (rsp.status ≢ 404))
      ⊎ ((rsp.status ≡ 200)
          × ((ltb (length rsp.body) 5 ≡ true) ⊎ IsFailed (env.decode_project (drop 5 rsp.body))))
  IsOther _ = Unit

  -- The ways in which a project may be created or brought up to date, with the result and the world after it.
  pub data ProjectCourse : Outcome (Unit {0}) × World GerritProject → Type 0 where
    created :
        IsMissing (env.http w.trace c (asked env s))
        → IsAccepted env (env.http looked.trace c (creation env s))
        → ProjectCourse (ok tt, sent c (creation env s) looked)
    uncreated :
        (r : Outcome (Unit {0}))
        → IsMissing (env.http w.trace c (asked env s))
        → IsRefused env (env.http looked.trace c (creation env s))
        → IsFailed r
        → ProjectCourse (r, sent c (creation env s) looked)
    brought :
        (r : Outcome (Unit {0})) (w' : World GerritProject)
        → IsKnown (env.http w.trace c (asked env s))
        → Pair env c (new_description env s) (new_parent env s) looked (r, w')
        → ProjectCourse (r, w')
    unknown :
        (r : Outcome (Unit {0}))
        → IsOther (env.http w.trace c (asked env s))
        → IsFailed r
        → ProjectCourse (r, looked)

  module _ (connected : w.rest ≡ some c) where
    decoded :
        (rsp : Response) (a : Outcome Project)
        → env.http w.trace c (asked env s) ≡ ok rsp
        → rsp.status ≡ 200
        → ltb (length rsp.body) 5 ≡ false
        → env.decode_project (drop 5 rsp.body) ≡ a
        → ((e : Error) → a ≡ err e → is_err_does_not_exist e ≡ false)
        → ProjectCourse (Projects.create_or_update env s w)
    unfolding Projects.create_or_update get_project decode_gerrit_response is_err_does_not_exist
        ◌>>=◌
    decoded rsp (ok p) e there long d plain =
        rw (send-sent, connected, e, there, long, d)
          (brought _ _ (rw e (there, long, p, d)) (
            wrapped-Pair env c (new_description env s) (new_parent env s) looked
              "unable to update project" _ (update_project-Pair env s looked c connected)))
    decoded rsp (err x) e there long d plain =
        rw (send-sent, connected, e, there, long, d, plain x refl)
          (unknown _ (rw e (inr (there, inr (rw d tt)))) tt)
    decoded rsp panic e there long d plain =
        rw (send-sent, connected, e, there, long, d)
          (unknown panic (rw e (inr (there, inr (rw d tt)))) tt)

    creating :
        (rsp : Response) (a : Outcome Response)
        → env.http w.trace c (asked env s) ≡ ok rsp
        → rsp.status ≡ 404
        → env.http looked.trace c (creation env s) ≡ a
        → ProjectCourse (Projects.create_or_update env s w)
    unfolding Projects.create_or_update get_project create_project Projects.wanted
        Rest.parse_resty_response Rest.accept is_err_does_not_exist ◌>>=◌
    creating rsp panic e missing e' =
        rw (send-sent, connected, e, missing, send-sent, e')
          (uncreated panic (rw e missing) (rw e' tt) tt)
    creating rsp (err x) e missing e' =
        rw (send-sent, connected, e, missing, send-sent, e')
          (uncreated _ (rw e missing) (rw e' tt) tt)
    creating rsp (ok rsp') e missing e' = elim (Bool-cases (env.is_error rsp')) [
      | inl h ↦
          rw (send-sent, connected, e, missing, send-sent, e', h)
            (uncreated _ (rw e missing) (rw e' h) tt)
      | inr h ↦
          rw (send-sent, connected, e, missing, send-sent, e', h) (created (rw e missing) (rw e' h))
    ]

    answered :
        ((body : List ℕ) (e : Error)
          → env.decode_project body ≡ err e
          → is_err_does_not_exist e ≡ false)
        → (a : Outcome Response) → env.http w.trace c (asked env s) ≡ a
        → ((e : Error) → a ≡ err e → is_err_does_not_exist e ≡ false)
        → ProjectCourse (Projects.create_or_update env s w)
    unfolding Projects.create_or_update get_project decode_gerrit_response is_err_does_not_exist
        ◌>>=◌
    answered plain panic e k = rw (send-sent, connected, e) (unknown panic (rw e tt) tt)
    answered plain (err x) e k = rw (send-sent, connected, e, k x refl) (unknown _ (rw e tt) tt)
    answered plain (ok rsp) e k = elim (Bool-cases (rsp.status =? 200)) [
      | inl there ↦ elim (Bool-cases (ltb (length rsp.body) 5)) [
        | inl short ↦
            rw (send-sent, connected, e, there, short)
              (unknown _ (rw e (inr (ground arith, inl short))) tt)
        | inr long ↦
            decoded rsp (env.decode_project (drop 5 rsp.body)) e (ground arith) long refl
              (λ x d. plain (drop 5 rsp.body) x d)
      ]
      | inr elsewhere ↦ elim (Bool-cases (rsp.status =? 404)) [
        | inl missing ↦
            creating rsp (env.http looked.trace c (creation env s)) e (ground arith) refl
        | inr other ↦
            rw (send-sent, connected, e, elsewhere, other)
              (unknown _ (rw e (inl (λ p. ground arith, λ p. ground arith))) tt)
      ]
    ]

    -- Whatever is answered, a project is asked for once. One that Gerrit does not know is created by one request,
    -- whose answer decides; one that it knows is not created again and is brought up to date by two requests, of
    -- which the second is sent once the first was accepted; and after any other answer there is an error and
    -- nothing is written. The errors of the connection and of the decoding are taken not to be the operator's own
    -- `ErrDoesNotExist`.
    pub create_or_update-ProjectCourse :
        ((t : Trace GerritProject) (r : Request) (e : Error)
          → env.http t c r ≡ err e
          → is_err_does_not_exist e ≡ false)
        → ((body : List ℕ) (e : Error)
            → env.decode_project body ≡ err e
            → is_err_does_not_exist e ≡ false)
        → ProjectCourse (Projects.create_or_update env s w)
    create_or_update-ProjectCourse plain_http plain_decode =
        answered plain_decode (env.http w.trace c (asked env s)) refl
          (λ e h. plain_http w.trace (asked env s) e h)
