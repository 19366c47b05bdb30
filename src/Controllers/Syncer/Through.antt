-- ===== src/Controllers/Syncer/Through.antt =====
-- To which server the synchronisation speaks (controllers/gerritproject/syncer.go,
-- pkg/service/gerrit/gerrit.go).
use edp_gerrit_operator.Base.{ℕ, String, some, List, ◌≡◌, refl, All, arith}
use edp_gerrit_operator.Errors.{Outcome, ok}
use edp_gerrit_operator.Api.{Gerrit}
use edp_gerrit_operator.World.{Env, World, Call, Trace}
use edp_gerrit_operator.World.Requests.{RestyClient, Method, Body}
use edp_gerrit_operator.Exec.{◌>>=◌, call, assign}
use edp_gerrit_operator.Exec.Keeps.{Keeps, keeps_rules}
use edp_gerrit_operator.Client.Rest.{send, decode_gerrit_response}
use edp_gerrit_operator.Client.Rest.Answers.{send-sent}
use edp_gerrit_operator.Client.Projects.{list_projects, list_project_branches}
use edp_gerrit_operator.Service.Connect.{get_rest_client, reuse}
use edp_gerrit_operator.Helper.Client.{get_instance, update_instance_status}
use edp_gerrit_operator.Controllers.Projects.{GerritProject}
use edp_gerrit_operator.Controllers.Syncer

-- A call that neither sets the host and the credentials of the default client, nor reads a password, nor runs a
-- command over SSH; a request is sent by this client.
abbrev pub IsThrough : {O : Type 0} → RestyClient → Call O → Type 0
IsThrough c (Call.http d _) = d ≡ c
IsThrough c (Call.shell _) = ⊥
IsThrough c (Call.get_secret _ _) = ⊥
IsThrough c (Call.set_default_client _ _ _) = ⊥
IsThrough c _ = Unit

-- The client is there, and every call so far was such a call.
pub record Through {O : Type 0} (c : RestyClient) (w : World O) : Type 0 where
  pub connected : w.rest ≡ some c
  pub all : All (IsThrough c) w.trace

module _ {O : Type 0} {c : RestyClient} where
  call-Through :
      {A : Type 0} (k : Call O) (f : Trace O → Outcome A)
      → IsThrough c k
      → Keeps (Through c) (call k f)
  unfolding ◌>>=◌
  call-Through k f q = record { at = λ w h. record { connected = h.connected; all = (q, h.all) } }

  assign-Through : (o : O) → Keeps (Through c) (assign o)
  unfolding ◌>>=◌
  assign-Through o = record { at = λ w h. record { connected = h.connected; all = h.all } }

  ruleset through_rules = (keeps_rules, call-Through, assign-Through, tt)

  module _ (env : Env O) where
    send-Through : (m : Method) (path : String) (b : Body) → Keeps (Through c) (send env m path b)
    send-Through m path b = record {
      at = λ w h.
          rw (send-sent env c m path b w h.connected)
            (record { connected = h.connected; all = (refl, h.all) });
    }

    -- A client that is connected is used for every Gerrit.
    get_rest_client_connected :
        (g : Gerrit) (w : World O) → w.rest ≡ some c → get_rest_client env g w ≡ (ok tt, w)
    unfolding get_rest_client reuse ◌>>=◌
    get_rest_client_connected g w h = ground arith

    get_rest_client-Through : (g : Gerrit) → Keeps (Through c) (get_rest_client env g)
    get_rest_client-Through g = record {
      at = λ w h. rw (get_rest_client_connected g w h.connected) h;
    }

    decode-Through :
        {A : Type 0} (f : List ℕ → Outcome A) (body : List ℕ)
        → Keeps (Through c) (decode_gerrit_response env f body)
    unfolding decode_gerrit_response
    decode-Through f body = search through_rules

    list_projects-Through : (kind : String) → Keeps (Through c) (list_projects env kind)
    unfolding list_projects
    list_projects-Through kind = search (through_rules, send-Through, decode-Through) depth 14

    list_project_branches-Through :
        (name : String) → Keeps (Through c) (list_project_branches env name)
    unfolding list_project_branches
    list_project_branches-Through name =
        search (through_rules, send-Through, decode-Through) depth 14

    get_instance-Through :
        (namespace name : String) → Keeps (Through c) (get_instance env namespace name)
    unfolding get_instance
    get_instance-Through namespace name = search through_rules

    update_instance_status-Through : Keeps (Through c) (update_instance_status env)
    unfolding update_instance_status
    update_instance_status-Through = search through_rules

module _ (env : Env GerritProject) (c : RestyClient) where
  ruleset sync_rules = (
    through_rules, send-Through, get_rest_client-Through, list_projects-Through,
    list_project_branches-Through, get_instance-Through, update_instance_status-Through,
  )
