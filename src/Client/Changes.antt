-- ===== src/Client/Changes.antt =====
-- Changes over REST (pkg/client/gerrit/change.go).
use edp_gerrit_operator.Base.{String, ◌<>◌, []}
use edp_gerrit_operator.World.{Env}
use edp_gerrit_operator.World.Requests.{Change, no_body, get, post}
use edp_gerrit_operator.Exec.{M, ◌>>=◌, wrapping}
use edp_gerrit_operator.Client.Rest.{send, accept, parse_resty_response, decode_gerrit_response}

module _ {O : Type 0} (env : Env O) where
  unfoldable pub change_abandon : String → M O (Unit {0})
  change_abandon change_id =
      wrapping "unable to abandon change" []
        (parse_resty_response env (send env post ("changes/" <> change_id <> "/abandon") no_body))

  unfoldable pub change_get : String → M O Change
  change_get change_id = do
    rsp ←
        wrapping "unable to get change" []
          (accept env (send env get ("changes/" <> change_id) no_body))
    wrapping "unable to decode change from body" []
        (decode_gerrit_response env env.decode_change rsp.body)
