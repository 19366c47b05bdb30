-- ===== src/Client/Rest.antt =====
-- One REST request and its answer (pkg/client/gerrit/gerrit.go, project_access.go).
pub mod Answers
pub mod Pairs
use edp_gerrit_operator.Base.{ℕ, String, Option, none, some, List, [], length, drop, ltb}
use edp_gerrit_operator.Base.{if◌then◌else◌}
use edp_gerrit_operator.Errors.{Outcome, Response, new, bad_response}
use edp_gerrit_operator.World.{Env, http}
use edp_gerrit_operator.World.Requests.{RestyClient, Request, Method, Body}
use edp_gerrit_operator.Exec.{
  M, ◌>>=◌, ◌>>◌, pure, raise, crash, lift, call, wrapping, rest_connection, skip,
}

abbrev pub min_body_length : ℕ
min_body_length = 5

module _ {O : Type 0} (env : Env O) where
  -- `gc.resty.R()...`: a nil client is dereferenced.
  unfoldable pub send_by : Request → Option RestyClient → M O Response
  send_by r none = crash
  send_by r (some c) = call (http c r) (λ t. env.http t c r)

  unfoldable pub send : Method → String → Body → M O Response
  unfolding ◌>>=◌ send_by
  send method path body =
      rest_connection >>= send_by (record { method = method; path = path; body = body })

  -- `parseRestyResponse` where the code goes on to read the response.
  unfoldable pub accept : M O Response → M O Response
  unfolding ◌>>=◌
  accept m = do
    rsp ← wrapping "error during post request" [] m
    if env.is_error rsp then raise (bad_response "status: %s, body: %s" rsp) else pure rsp

  -- `parseRestyResponse`, with the request whose result it is given.
  unfoldable pub parse_resty_response : M O Response → M O (Unit {0})
  unfolding accept
  parse_resty_response m = accept m >> skip

  -- `decodeGerritResponse`: every body of Gerrit begins with a prefix of five bytes.
  unfoldable pub decode_gerrit_response : {A : Type 0} → (List ℕ → Outcome A) → List ℕ → M O A
  unfolding ◌>>=◌
  decode_gerrit_response decode body =
      if ltb (length body) min_body_length
      then raise (new "wrong gerrit body format")
      else wrapping "unable to decode gerrit response" []
          (lift (decode (drop min_body_length body)))
