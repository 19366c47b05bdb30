-- ===== src/Client/Ssh/Commands.antt =====
-- A command over the SSH client that the Gerrit client has (pkg/client/gerrit/gerrit.go).
use edp_gerrit_operator.Base.{String, some, ◌≡◌, ◌∙◌, ap}
use edp_gerrit_operator.Errors.{Outcome}
use edp_gerrit_operator.World.{Env, World}
use edp_gerrit_operator.World.Shells.{SshClient}
use edp_gerrit_operator.Exec.{◌>>=◌}
use edp_gerrit_operator.Client.Shell
use edp_gerrit_operator.Client.Ssh

module _ {O : Type 0} (env : Env O) (command : String) (w : World O) (s : SshClient) where
  -- With a client a command is run by it.
  pub run_command_over :
      (result : Outcome String × World O)
      → w.ssh_client ≡ some s
      → Shell.run_command env s command w ≡ result
      → Ssh.run_command env command w ≡ result
  unfolding Ssh.run_command Ssh.run_by ◌>>=◌
  run_command_over result over answer = ap (λ c. Ssh.run_by env command c w) over ∙ answer
