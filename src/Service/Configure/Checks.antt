-- ===== src/Service/Configure/Checks.antt =====
-- The check for a group by what Gerrit answers (`CheckGroup` of pkg/client/gerrit/gerrit.go).
use edp_gerrit_operator.Base.{String, ◌<>◌, none, some, ◌≡◌, ◌==◌, false, string_eq}
use edp_gerrit_operator.Errors.{ok, Response}
use edp_gerrit_operator.World.{Env, World}
use edp_gerrit_operator.World.Requests.{RestyClient, Request, get, no_body}
use edp_gerrit_operator.World.Shells.{SshClient}
use edp_gerrit_operator.Exec.{◌>>=◌}
use edp_gerrit_operator.Client.Rest.Answers.{sent, send-sent}
use edp_gerrit_operator.Client.Shell
use edp_gerrit_operator.Client.Shell.Closing.{after_command}
use edp_gerrit_operator.Client.Ssh
use edp_gerrit_operator.Client.Ssh.Commands.{run_command_over}

-- The world after Gerrit's groups were listed.
abbrev pub listed : {O : Type 0} → SshClient → World O → World O
listed s w = after_command s "gerrit ls-groups -v" w

abbrev pub group_request : String → Request
group_request uuid = record { method = get; path = "groups/" <> uuid; body = no_body }

module _ {O : Type 0} (env : Env O) (name : String) (w : World O) (s : SshClient)
    (groups : String) where
  -- The list of groups has no line for the name.
  pub record Lacks : Type 0 where
    pub over : w.ssh_client ≡ some s
    pub answer : Shell.run_command env s "gerrit ls-groups -v" w ≡ (ok groups, listed s w)
    pub absent : env.find_submatch (Ssh.group_pattern name) groups ≡ none

  -- The list has a line for the name, with an identifier that Gerrit answers for.
  pub record Has (c : RestyClient) (line uuid : String) (rsp : Response) : Type 0 where
    pub over : w.ssh_client ≡ some s
    pub answer : Shell.run_command env s "gerrit ls-groups -v" w ≡ (ok groups, listed s w)
    pub present : env.find_submatch (Ssh.group_pattern name) groups ≡ some line
    pub field : Ssh.second_field line ≡ some uuid
    pub named : (uuid == "") ≡ false
    pub connected : w.rest ≡ some c
    pub asked : env.http (listed s w).trace c (group_request uuid) ≡ ok rsp

  pub check_group-Lacks : Lacks → Ssh.check_group env name w ≡ (ok 404, listed s w)
  unfolding Ssh.check_group Ssh.get_group_uuid Ssh.uuid_of string_eq ◌>>=◌
  check_group-Lacks h = rw (run_command_over env _ w s _ h.over h.answer, h.absent)

  pub check_group-Has :
      (c : RestyClient) (line uuid : String) (rsp : Response)
      → Has c line uuid rsp
      → Ssh.check_group env name w ≡ (ok rsp.status, sent c (group_request uuid) (listed s w))
  unfolding Ssh.check_group Ssh.get_group_uuid Ssh.uuid_of ◌>>=◌
  check_group-Has c line uuid rsp h = rw (
    run_command_over env _ w s _ h.over h.answer,
    h.present,
    Ssh.uuid_of,
    h.field,
    h.named,
    send-sent,
    h.connected,
    h.asked,
  )
