-- ===== src/Client/Shell.antt =====
-- The SSH client (pkg/client/ssh/ssh.go).
pub mod Closing
use edp_gerrit_operator.Base.{ℕ, String, ◌<>◌, [], ◌∷◌}
use edp_gerrit_operator.World.{Env, Call}
use edp_gerrit_operator.World.Shells.{SshClient, ShellCall}
use edp_gerrit_operator.World.Shells
use edp_gerrit_operator.Exec.{M, ◌>>=◌, ◌>>◌, pure, lift, call, wrapping, attempt, deferring, skip}

module _ {O : Type 0} (env : Env O) where
  abbrev act : ShellCall → M O (Unit {0})
  act s = call (Call.shell s) (λ t. env.shells.act t s)

  unfoldable pub ssh_init : String → String → String → ℕ → M O SshClient
  ssh_init user_name private_key host port = do
    signer ←
        wrapping "failed to parse private key for user %q" (user_name ∷ [])
          (lift (env.shells.parse_private_key private_key))
    pure (record { user = user_name; signer = signer; host = host; port = port })

  module _ (client : SshClient) where
    abbrev pub address : String
    address = client.host <> ":" <> env.itoa client.port

    unfoldable pub new_session : M O (Unit {0})
    new_session = do
      wrapping "failed to create client connection to the SSH server: %s," (address ∷ [])
          (act (Shells.dial client.user client.host client.port))
      wrapping "failed to create a new session for a ssh client," [] (act Shells.new_session)

    -- The deferred function of `RunCommand`, which logs the errors.
    unfoldable pub close_all : M O (Unit {0})
    close_all = do
      r ← attempt (act Shells.close_session)
      r' ← attempt (act Shells.close_connection)
      skip

    unfoldable pub run_command : String → M O String
    run_command path = do
      new_session
      deferring close_all (
          wrapping "failed to exec cmd %q on the remote host," (path ∷ [])
            (call (Call.shell (Shells.run_output path)) (λ t. env.shells.output t path)))
