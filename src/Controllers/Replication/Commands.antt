-- ===== src/Controllers/Replication/Commands.antt =====
-- Which commands configure a replication, and in which order
-- (controllers/gerritreplicationconfig/gerritreplicationconfig_controller.go).
use edp_gerrit_operator.Base.{String, List, [], ◌∷◌, ◌≡◌, refl, sym, subst, Option, none, some, ap}
use edp_gerrit_operator.Errors.{Outcome}
use edp_gerrit_operator.World.{Env, World, Call, Trace}
use edp_gerrit_operator.World.Objects.{Pod}
use edp_gerrit_operator.World.Shells.{ShellCall, SshClient}
use edp_gerrit_operator.World.Shells
use edp_gerrit_operator.Exec.{M, call, set_ssh, ◌>>=◌}
use edp_gerrit_operator.Exec.Keeps.{Keeps, keeps_rules, ssh_session-Keeps}
use edp_gerrit_operator.Exec.Settled.{
  Runs, keeps-Runs, wrapping-Runs, bind-Runs, after-Runs, crash-Runs, deferring-Runs,
}
use edp_gerrit_operator.Platform.K8s
use edp_gerrit_operator.Client.Shell
use edp_gerrit_operator.Client.Ssh

-- A command in a pod, and one over SSH.
pub data Command : Type 0 where
  in_pod over_ssh : String → Command

-- The commands among the calls, newest first.
abbrev pub commands : {O : Type 0} → Trace O → List Command
commands [] = []
commands (Call.exec_in_pod _ _ _ command ∷ t) = in_pod command ∷ commands t
commands (Call.shell (Shells.run_output command) ∷ t) = over_ssh command ∷ commands t
commands (_ ∷ t) = commands t

-- A call that runs no command.
abbrev pub IsIdle : {O : Type 0} → Call O → Type 0
IsIdle (Call.exec_in_pod _ _ _ _) = ⊥
IsIdle (Call.shell (Shells.run_output _)) = ⊥
IsIdle _ = Unit

commands-idle : {O : Type 0} (c : Call O) (t : Trace O) → IsIdle c → commands (c ∷ t) ≡ commands t
commands-idle (Call.exec_in_pod _ _ _ _) t h = absurd h
commands-idle (Call.shell (Shells.run_output _)) t h = absurd h
commands-idle c t h = refl

-- What holds of the commands that were run.
pub record Ran {O : Type 0} (R : List Command → Type 0) (w : World O) : Type 0 where
  pub so_far : R (commands w.trace)

module _ {O : Type 0} {R : List Command → Type 0} where
  pub call-Ran :
      {A : Type 0} (c : Call O) (f : Trace O → Outcome A) → IsIdle c → Keeps (Ran R) (call c f)
  unfolding ◌>>=◌
  call-Ran c f q = record {
    at = λ w h. record { so_far = subst R (sym (commands-idle c w.trace q)) h.so_far };
  }

  pub set_ssh-Ran : (s : SshClient) → Keeps {O = O} (Ran R) (set_ssh s)
  unfolding ◌>>=◌
  set_ssh-Ran s = record { at = λ w h. record { so_far = h.so_far } }

  pub ruleset ran_rules = (keeps_rules, call-Ran, set_ssh-Ran, tt)

abbrev pub Exactly : {O : Type 0} → List Command → World O → Type 0
Exactly l = Ran (λ x. x ≡ l)

-- From exactly the commands `l`: one more is run, or none where the code fails before.
module _ {O : Type 0} (env : Env O) (R : List Command → Type 0) (l : List Command) where
  pub within : R l → (w : World O) → Exactly l w → Ran R w
  within h w k = record { so_far = subst R (sym k.so_far) h }

  within_next : {x : Command} → R (x ∷ l) → (w : World O) → Exactly (x ∷ l) w → Ran R w
  within_next h w k = record { so_far = subst R (sym k.so_far) h }

  ran_in_pod :
      (pod : Pod) (container command : String)
      → R (in_pod command ∷ l)
      → Runs
          (Exactly l)
          (call
            (Call.exec_in_pod pod.namespace pod.name container command)
            (λ t. env.exec_in_pod t pod.namespace pod.name container command))
          (Exactly (in_pod command ∷ l))
          (Ran R)
  unfolding ◌>>=◌
  ran_in_pod pod container command h =
      after-Runs _ (λ w k. record { so_far = ap (λ x. in_pod command ∷ x) k.so_far })
        (within_next h)

  ran_over_ssh :
      (command : String)
      → R (over_ssh command ∷ l)
      → Runs
          (Exactly l)
          (call (Call.shell (Shells.run_output command)) (λ t. env.shells.output t command))
          (Exactly (over_ssh command ∷ l))
          (Ran R)
  unfolding ◌>>=◌
  ran_over_ssh command h =
      after-Runs _ (λ w k. record { so_far = ap (λ x. over_ssh command ∷ x) k.so_far })
        (within_next h)

  streamed :
      (pod : Pod) (command : String) (containers : List String)
      → R l
      → R (in_pod command ∷ l)
      → Runs
          (Exactly l)
          (K8s.stream_in env pod command containers)
          (Exactly (in_pod command ∷ l))
          (Ran R)
  unfolding K8s.stream_in
  streamed pod command [] h k = crash-Runs (within h)
  streamed pod command (container ∷ _) h k =
      bind-Runs _ _ (keeps-Runs _ (search ran_rules) (within h)) (λ _.
        bind-Runs _ _ (keeps-Runs _ (search ran_rules) (within h))
          (λ _. wrapping-Runs _ _ _ (ran_in_pod pod container command k)))

  pub exec_in_pod-Runs :
      (namespace pod command : String)
      → R l
      → R (in_pod command ∷ l)
      → Runs
          (Exactly l)
          (K8s.exec_in_pod env namespace pod command)
          (Exactly (in_pod command ∷ l))
          (Ran R)
  unfolding K8s.exec_in_pod
  exec_in_pod-Runs namespace pod command h k =
      bind-Runs _ _ (keeps-Runs _ (search ran_rules) (within h))
        (λ p. streamed p command p.containers h k)

  closed : {S : List Command → Type 0} (s : SshClient) → Keeps (Ran S) (Shell.close_all env s)
  unfolding Shell.close_all
  closed s = search ran_rules depth 14

  opened : (s : SshClient) → Keeps (Exactly l) (Shell.new_session env s)
  unfolding Shell.new_session
  opened s = search ran_rules depth 14

  commanded :
      (s : Option SshClient) (command : String)
      → R l
      → R (over_ssh command ∷ l)
      → Runs (Exactly l) (Ssh.run_by env command s) (Exactly (over_ssh command ∷ l)) (Ran R)
  unfolding Ssh.run_by Shell.run_command
  commanded none command h k = crash-Runs (within h)
  commanded (some s) command h k = bind-Runs _ _ (keeps-Runs _ (opened s) (within h)) (λ _.
      deferring-Runs _ _ (closed s) (closed s) (within_next k)
        (wrapping-Runs _ _ _ (ran_over_ssh command k)))

  pub run_command-Runs :
      (command : String)
      → R l
      → R (over_ssh command ∷ l)
      → Runs (Exactly l) (Ssh.run_command env command) (Exactly (over_ssh command ∷ l)) (Ran R)
  unfolding Ssh.run_command
  run_command-Runs command h k =
      bind-Runs _ _ (keeps-Runs _ ssh_session-Keeps (within h)) (λ s. commanded s command h k)

-- From one of the lists of commands that satisfy `R`.
module _ {O A : Type 0} {R : List Command → Type 0} {Q F : World O → Type 0} where
  pub from-Runs :
      (m : M O A) → ((l : List Command) → R l → Runs (Exactly l) m Q F) → Runs (Ran R) m Q F
  from-Runs m k = record {
    at = λ w h. (k (commands w.trace) h.so_far).at w (record { so_far = refl });
  }
