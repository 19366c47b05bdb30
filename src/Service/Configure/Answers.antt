-- ===== src/Service/Configure/Answers.antt =====
-- Where `Configure` ends early without an error (pkg/service/gerrit/gerrit.go).
use edp_gerrit_operator.Base.{
  ◌=?◌, arith, ℕ, String, ◌<>◌, List, some, ◌∷◌, [], ◌≡◌, ◌≢◌, refl, Bool, false, length, ◌≤◌, ◌<◌,
  ◌⊎◌, inl, inr, true, Bool-cases, leb, ltb,
}
use edp_gerrit_operator.Errors.{Outcome, ok, err, panic, Response, wrap}
use edp_gerrit_operator.Api.{Gerrit}
use edp_gerrit_operator.World.{Env, World, Call}
use edp_gerrit_operator.World.Requests.{Request, get, no_body, default_client}
use edp_gerrit_operator.Exec.{M, wrapping, ◌>>=◌, ◌>>◌}
use edp_gerrit_operator.Client.Rest.Pairs.{IsFailed}
use edp_gerrit_operator.Client.Ssh
use edp_gerrit_operator.Client.Rest.{send}
use edp_gerrit_operator.Client.Rest.Answers.{sent, send-sent}
use edp_gerrit_operator.Client.Ssh.{check_credentials, init_new_rest_client}
use edp_gerrit_operator.Platform.K8s.{get_pods}
use edp_gerrit_operator.Service.Connect
use edp_gerrit_operator.Service.Configure
use edp_gerrit_operator.Service.Configure.{Site}

abbrev pub credentials_request : Request
credentials_request = record { method = get; path = "config/server/summary"; body = no_body }

-- Gerrit answered with a status that refuses the credentials; with any other client or server error; with one that is
-- no error; or it did not answer.
abbrev IsRefusal : Outcome Response → Type 0
IsRefusal (ok rsp) = rsp.status ≡ 401
IsRefusal _ = ⊥

abbrev IsOdd : Outcome Response → Type 0
IsOdd (ok rsp) = (rsp.status ≢ 401) × (400 ≤ rsp.status) × (rsp.status ≤ 505)
IsOdd _ = ⊥

abbrev IsTaken : Outcome Response → Type 0
IsTaken (ok rsp) = (rsp.status < 400) ⊎ (505 < rsp.status)
IsTaken _ = ⊥

module _ {O : Type 0} (env : Env O) (g : Gerrit) (w : World O) where
  module _ (site : Site) where
    -- The client is set up with a password, and then the credentials are checked with one request.
    abbrev prepared : String → World O → World O
    prepared password v = record v {
      trace = Call.set_default_client site.api_url "admin" password ∷ v.trace;
      rest = some default_client;
    }

    abbrev pub tried : String → World O → World O
    tried password v = sent default_client credentials_request (prepared password v)

    abbrev answer : String → World O → Outcome Response
    answer password v = env.http (prepared password v).trace default_client credentials_request

    abbrev pub first : World O
    first = tried site.password w

    abbrev pub second : World O
    second = tried "secret" first

    -- The ways in which a log-in may go.
    pub data Login : Outcome Bool × World O → Type 0 where
      unanswered :
          (r : Outcome Bool) → IsFailed (answer site.password w) → IsFailed r → Login (r, first)
      odd : IsOdd (answer site.password w) → Login (ok false, first)
      taken : IsTaken (answer site.password w) → Login (Configure.set_up env g site first)
      refused_unanswered :
          (r : Outcome Bool)
          → IsRefusal (answer site.password w)
          → IsFailed (answer "secret" first)
          → IsFailed r
          → Login (r, second)
      refused_odd :
          IsRefusal (answer site.password w)
          → IsOdd (answer "secret" first)
          → Login (ok false, second)
      refused_taken :
          IsRefusal (answer site.password w)
          → IsTaken (answer "secret" first)
          → Login (
              (Connect.set_gerrit_admin_user_password env g site.ssh_url site.password site.api_url
                    site.port
                  >> Configure.set_up env g site)
                second)
      refused_twice :
          IsRefusal (answer site.password w)
          → IsRefusal (answer "secret" first)
          → Login (
              (wrapping "failed to initialize Gerrit Admin User" [] (
                    Ssh.init_admin_user env g.meta.namespace site.scripts_path site.pod
                      site.public_key)
                  >> (Connect.set_gerrit_admin_user_password env g site.ssh_url site.password
                        site.api_url site.port
                      >> Configure.set_up env g site))
                second)

    -- The status of the answer, with the two wraps of an error.
    abbrev status_of : Outcome Response → Outcome ℕ
    status_of (ok rsp) = ok rsp.status
    status_of (err e) = err (
        wrap "failed to check credentials in Gerrit" (wrap "Unable to verify Gerrit credentials" e))
    status_of panic = panic

    prepared_sent :
        (password : String) (v : World O)
        → send env get "config/server/summary" no_body (prepared password v)
          ≡ (answer password v, tried password v)
    prepared_sent password v =
        send-sent env default_client get "config/server/summary" no_body (prepared password v) refl

    tried_by :
        (failure password : String) (v : World O) (r : Outcome Response)
        → answer password v ≡ r
        → Configure.try_password env g site failure password v ≡ (status_of r, tried password v)
    unfolding Configure.try_password check_credentials init_new_rest_client ◌>>=◌
    tried_by failure password v (ok rsp) h = rw (prepared_sent password v, h)
    tried_by failure password v (err e) h = rw (prepared_sent password v, h)
    tried_by failure password v panic h = rw (prepared_sent password v, h)

    -- Where an answer stands.
    placed : (n : ℕ) → (n ≡ 401) ⊎ (((n ≢ 401) × (400 ≤ n) × (n ≤ 505)) ⊎ ((n < 400) ⊎ (505 < n)))
    placed n = elim (Bool-cases (n =? 401)) [
      | inl e ↦ inl (ground arith)
      | inr e ↦ elim (Bool-cases (ltb n 400)) [
        | inl l ↦ inr (inr (inl (ground arith)))
        | inr l ↦ elim (Bool-cases (leb n 505)) [
          | inl k ↦ inr (inl (λ p. ground arith, ground arith, ground arith))
          | inr k ↦ inr (inr (inr (ground arith)))
        ]
      ]
    ]

    passed :
        (n : ℕ) → (n < 400) ⊎ (505 < n) → (Configure.is_odd_status n ≡ false) × ((n =? 401) ≡ false)
    passed n (inl l) = (ground arith, ground arith)
    passed n (inr l) = (ground arith, ground arith)

    second_by :
        IsRefusal (answer site.password w)
        → Configure.log_in env g site w ≡ Configure.reset_password env g site first
        → (r : Outcome Response) → answer "secret" first ≡ r
        → Login (Configure.log_in env g site w)
    unfolding Configure.reset_password ◌>>=◌
    second_by refused reached (err e) h =
        rw
          (
            reached,
            Configure.reset_password,
            tried_by "Failed to initialize Gerrit REST client for %v/%v" "secret" first _ h,
          )
          (refused_unanswered _ refused (rw h tt) tt)
    second_by refused reached panic h =
        rw
          (
            reached,
            Configure.reset_password,
            tried_by "Failed to initialize Gerrit REST client for %v/%v" "secret" first _ h,
          )
          (refused_unanswered panic refused (rw h tt) tt)
    second_by refused reached (ok rsp) h = elim (placed rsp.status) [
      | inl e ↦
          rw
            (
              reached,
              Configure.reset_password,
              tried_by "Failed to initialize Gerrit REST client for %v/%v" "secret" first _ h,
              e,
            )
            (refused_twice refused (rw h e))
      | inr (inl (a, b, c)) ↦
          let odd : Configure.is_odd_status rsp.status ≡ true = ground arith in
          rw
            (
              reached,
              Configure.reset_password,
              tried_by "Failed to initialize Gerrit REST client for %v/%v" "secret" first _ h,
              odd,
            )
            (refused_odd refused (rw h (a, b, c)))
      | inr (inr u) ↦
          let (sound, known) = passed rsp.status u in
          rw
            (
              reached,
              Configure.reset_password,
              tried_by "Failed to initialize Gerrit REST client for %v/%v" "secret" first _ h,
              sound,
              known,
            )
            (refused_taken refused (rw h u))
    ]

    first_by :
        (r : Outcome Response) → answer site.password w ≡ r → Login (Configure.log_in env g site w)
    unfolding Configure.log_in ◌>>=◌
    first_by (err e) h =
        rw (tried_by "failed to initialize Gerrit REST client for %v/%v" site.password w _ h)
          (unanswered _ (rw h tt) tt)
    first_by panic h =
        rw (tried_by "failed to initialize Gerrit REST client for %v/%v" site.password w _ h)
          (unanswered panic (rw h tt) tt)
    first_by (ok rsp) h = elim (placed rsp.status) [
      | inl e ↦
          second_by (rw h e)
            (rw
              (tried_by "failed to initialize Gerrit REST client for %v/%v" site.password w _ h, e))
            (answer "secret" first) refl
      | inr (inl (a, b, c)) ↦
          let out : Configure.is_odd_status rsp.status ≡ true = ground arith in
          rw (tried_by "failed to initialize Gerrit REST client for %v/%v" site.password w _ h, out)
            (odd (rw h (a, b, c)))
      | inr (inr u) ↦
          let (sound, known) = passed rsp.status u in
          rw
            (
              tried_by "failed to initialize Gerrit REST client for %v/%v" site.password w _ h,
              sound,
              known,
            )
            (taken (rw h u))
    ]

    -- The password of the secret is tried with one request. A status that takes it leads to the groups. Any status
    -- from 400 to 505 but 401 ends the configuration and is no error of it, in contrast to a request that fails. After
    -- 401 the default password is tried in the same way: where it is taken the password is set, and where it is
    -- refused by 401 too the administrator is made before.
    pub log_in_answers : Login (Configure.log_in env g site w)
    log_in_answers = first_by (answer site.password w) refl

module _ {O : Type 0} (env : Env O) (g : Gerrit) (w : World O) where
  with_pod_many :
      (pods : List String) (f : String → M O Bool) (v : World O)
      → length pods ≢ 1
      → Configure.with_pod env pods f v ≡ (ok false, v)
  unfolding Configure.with_pod ◌>>=◌
  with_pod_many [] f v h = refl
  with_pod_many (p ∷ []) f v h = absurd (h refl)
  with_pod_many (p ∷ p' ∷ pods) f v h = refl

  -- Where the instance has no pod, or more than one, the configuration ends after the list of its pods, and it ends
  -- without an error: no key, no password and no group is looked at.
  pub set_up_access_pods :
      (ssh_url scripts url password : String) (port : ℕ) (pods : List String) (w' w'' : World O)
      → Connect.get_gerrit_rest_api_url env g w ≡ (ok url, w')
      → Connect.get_gerrit_admin_password env g w' ≡ (ok password, w'')
      → env.list_pods w''.trace g.meta.namespace ("app=" <> g.meta.name) ≡ ok pods
      → length pods ≢ 1
      → Configure.set_up_access env g ssh_url scripts port w ≡ (
        ok false,
        record w'' { trace = Call.list_pods g.meta.namespace ("app=" <> g.meta.name) ∷ w''.trace },
      )
  unfolding Configure.set_up_access get_pods ◌>>=◌
  set_up_access_pods ssh_url scripts url password port pods w' w'' h h' answered many =
      rw (h, h', answered, with_pod_many pods _ _ many)
