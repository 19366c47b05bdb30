-- ===== src/Client/Shell/Closing.antt =====
-- What is closed after a command over SSH (pkg/client/ssh/ssh.go).
use edp_gerrit_operator.Base.{String, ◌∷◌, [], ◌≡◌, ◌≢◌, arith, refl}
use edp_gerrit_operator.Errors.{Outcome, ok, err, panic, wrap, wrapf}
use edp_gerrit_operator.World.{Env, World, Trace, Call}
use edp_gerrit_operator.World.Shells.{SshClient, ShellCall}
use edp_gerrit_operator.World.Shells
use edp_gerrit_operator.Exec.{◌>>=◌, wrap_outcome}
use edp_gerrit_operator.Client.Shell

-- The world after a command over SSH that got its session: the five calls that it makes.
abbrev pub after_command : {O : Type 0} → SshClient → String → World O → World O
after_command client path w = record w {
  trace =
      Call.shell Shells.close_connection
      ∷ Call.shell Shells.close_session
      ∷ Call.shell (Shells.run_output path)
      ∷ Call.shell Shells.new_session
      ∷ Call.shell (Shells.dial client.user client.host client.port)
      ∷ w.trace;
}

module _ {O : Type 0} (env : Env O) (client : SshClient) (path : String) (w : World O) where
  abbrev pub called : ShellCall → World O → World O
  called s v = record v { trace = Call.shell s ∷ v.trace }

  abbrev pub dialed : World O
  dialed = called (Shells.dial client.user client.host client.port) w

  abbrev pub open_session : World O
  open_session = called Shells.new_session dialed

  -- The result and the calls, by what came of the request for a session.
  abbrev pub with_session : Outcome (Unit {0}) → Outcome String × World O
  with_session (ok _) = (
    wrap_outcome "failed to exec cmd %q on the remote host," (path ∷ [])
        (env.shells.output open_session.trace path),
    after_command client path w,
  )
  with_session (err e) =
      (err (wrap "failed to create a new session for a ssh client," e), open_session)
  with_session panic = (panic, open_session)

  -- By what came of the connection.
  abbrev pub with_connection : Outcome (Unit {0}) → Outcome String × World O
  with_connection (ok _) = with_session (env.shells.act dialed.trace Shells.new_session)
  with_connection (err e) = (
    err (
        wrapf "failed to create client connection to the SSH server: %s," (Shell.address env client)
          e),
    dialed,
  )
  with_connection panic = (panic, dialed)

  module _ (returns : (t : Trace O) (s : ShellCall) → env.shells.act t s ≢ panic) where
    close_all_calls :
        (v : World O)
        → Shell.close_all env client v
          ≡ (ok tt, called Shells.close_connection (called Shells.close_session v))
    unfolding Shell.close_all ◌>>=◌
    close_all_calls v = ground (
      arith,
      returns v.trace Shells.close_session,
      returns (called Shells.close_session v).trace Shells.close_connection,
    )

    with_session_by :
        (r : Outcome (Unit {0}))
        → env.shells.act w.trace (Shells.dial client.user client.host client.port) ≡ ok tt
        → env.shells.act dialed.trace Shells.new_session ≡ r
        → Shell.run_command env client path w ≡ with_session r
    unfolding Shell.run_command Shell.new_session ◌>>=◌
    with_session_by (ok _) h h' = rw (h, h', close_all_calls)
    with_session_by (err e) h h' = rw (h, h')
    with_session_by panic h h' = rw (h, h')

    with_connection_by :
        (r : Outcome (Unit {0}))
        → env.shells.act w.trace (Shells.dial client.user client.host client.port) ≡ r
        → Shell.run_command env client path w ≡ with_connection r
    unfolding Shell.run_command Shell.new_session ◌>>=◌
    with_connection_by (ok _) h =
        with_session_by (env.shells.act dialed.trace Shells.new_session) h refl
    with_connection_by (err e) h = rw h
    with_connection_by panic h = rw h

    -- Where closing fails by an error at most, a command that got its session closes the session and the connection,
    -- whatever its output comes to and without a say in the result; but where no session comes about, the connection
    -- that was made is left open.
    pub run_command_closes :
        Shell.run_command env client path w
        ≡ with_connection (env.shells.act w.trace (Shells.dial client.user client.host client.port))
    run_command_closes =
        with_connection_by
          (env.shells.act w.trace (Shells.dial client.user client.host client.port)) refl
