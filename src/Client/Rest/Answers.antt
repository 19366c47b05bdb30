-- ===== src/Client/Rest/Answers.antt =====
-- One request by its answer (pkg/client/gerrit): what is returned and what the world is afterwards.
use edp_gerrit_operator.Base.{String, some, ◌∷◌, ◌≡◌, if◌then◌else◌, arith}
use edp_gerrit_operator.Errors.{ok, err, Response, bad_response}
use edp_gerrit_operator.World.{Env, World, http}
use edp_gerrit_operator.World.Requests.{RestyClient, Request, Method, Body}
use edp_gerrit_operator.Exec.{◌>>=◌}
use edp_gerrit_operator.Client.Rest

-- The world after a request was sent.
abbrev pub sent : {O : Type 0} → RestyClient → Request → World O → World O
sent c r w = record w { trace = http c r ∷ w.trace }

module _ {O : Type 0} (env : Env O) (c : RestyClient) (method : Method) (path : String)
    (body : Body) (w : World O) (connected : w.rest ≡ some c) where
  abbrev request : Request
  request = record { method = method; path = path; body = body }

  pub send-sent : Rest.send env method path body w ≡ (env.http w.trace c request, sent c request w)
  unfolding Rest.send Rest.send_by ◌>>=◌
  send-sent = rw connected

  pub parse_resty_response-sent :
      (rsp : Response)
      → env.http w.trace c request ≡ ok rsp
      → Rest.parse_resty_response env (Rest.send env method path body) w ≡ (
        if env.is_error rsp then err (bad_response "status: %s, body: %s" rsp) else ok tt,
        sent c request w,
      )
  unfolding Rest.parse_resty_response Rest.accept ◌>>=◌
  parse_resty_response-sent rsp answered = rw (send-sent, answered) (ground arith)
