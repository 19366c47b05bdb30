-- ===== src/World/Shells.antt =====
-- What the SSH client asks of its library (golang.org/x/crypto/ssh), in pkg/client/ssh/ssh.go.
use edp_gerrit_operator.Base.{ℕ, String}
use edp_gerrit_operator.Errors.{Outcome}

-- `SSHClient`, whose configuration has the user and the key; the host's key is not looked at.
pub record SshClient : Type 0 where
  pub user : String
  pub signer : String
  pub host : String
  pub port : ℕ

-- The connection is named by its host and port, and there is one session to a connection.
pub data ShellCall : Type 0 where
  -- `ssh.Dial` with the user, the host and the port
  dial : String → String → ℕ → ShellCall
  new_session : ShellCall
  -- `session.Output`
  run_output : String → ShellCall
  close_session : ShellCall
  close_connection : ShellCall

-- The answers depend on what was done before, a `T`.
pub record ShellLibrary (T : Type 0) : Type 0 where
  -- `ssh.ParsePrivateKey`
  pub parse_private_key : String → Outcome String
  -- the calls that return no more than an error
  pub act : T → ShellCall → Outcome (Unit {0})
  pub output : T → String → Outcome String
