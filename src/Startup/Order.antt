-- ===== src/Startup/Order.antt =====
-- Which controllers run after the start (main.go).
use edp_gerrit_operator.Base.{String, List, [], ◌∷◌, ◌++◌, ◌≡◌, refl, ap}
use mathlib.Core.List.{append_assoc, append-nil}
use edp_gerrit_operator.Errors.{Error, ok, err}
use edp_gerrit_operator.Startup
use edp_gerrit_operator.Startup.{Host, Start}

-- Every controller of a list can be started.
abbrev pub Starts : Host → List (String × String) → Type 0
Starts host [] = Unit
Starts host ((name, failure) ∷ names) =
    (Startup.start_controller host name failure ≡ ok tt) × Starts host names

abbrev pub names_of : List (String × String) → List String
names_of [] = []
names_of ((name, _) ∷ names) = name ∷ names_of names

module _ (host : Host) (next : List String → Start) where
  start_all_on :
      (names : List (String × String)) (running : List String)
      → Starts host names
      → Startup.start_all host names running next ≡ next (running ++ names_of names)
  unfolding Startup.start_all
  start_all_on [] running h = rw append-nil refl
  start_all_on ((name, failure) ∷ names) running (here, h) =
      rw (Startup.start_all, here, start_all_on names (running ++ name ∷ []) h)
        (ap next (append_assoc running _ _))

module _ (host : Host) where
  -- Where everything else can be started and the work directory cannot be cleaned, the start succeeds without the
  -- controller for merge requests.
  pub init_controllers_unserved :
      (e : Error)
      → Starts host (Startup.constructors host)
      → Startup.platform_service host "unable to create platform service" ≡ ok tt
      → host.setup "gerrit-project" ≡ ok tt
      → host.remove_all (Startup.get_env_default host "GIT_WORK_DIR" "/tmp/git_tmp") ≡ err e
      → Startup.init_controllers host ≡ (
        "gerrit" ∷ "gerrit-replication-config" ∷ "gerrit-group" ∷ "gerrit-project-access"
            ∷ "gerrit-group-member" ∷ "gerrit-project" ∷ [],
        ok tt,
      )
  unfolding Startup.init_controllers Startup.prepare_merge_request_reconciler
      Startup.prepare_gerrit_project_reconciler
  init_controllers_unserved e starts served set_up dirty = rw (
    start_all_on host
        (λ running.
          Startup.prepare_merge_request_reconciler host running
            (Startup.prepare_gerrit_project_reconciler host))
        (Startup.constructors host) [] starts,
    Startup.prepare_merge_request_reconciler,
    dirty,
    served,
    set_up,
  )
