-- ===== src/Startup.antt =====
-- The start of the program (main.go, the environment of controllers/helper/helper.go,
-- pkg/service/platform/platform.go and `SyncInterval` of controllers/gerritproject/controller.go).
pub mod Order
use edp_gerrit_operator.Base.{
  ℕ, ◌*◌, ℤ, pos, String, Bool, false, Option, none, some, List, [], ◌∷◌,
}
use edp_gerrit_operator.Base.{◌==◌, string_eq, if◌then◌else◌, ◌++◌}
use edp_gerrit_operator.Errors.{Outcome, ok, err, panic, message, new, wrap, wrapf}
use edp_gerrit_operator.Controllers.Common.{second}

-- What the start asks of the machine and of the controller runtime.
pub record Host : Type 0 where
  -- `os.LookupEnv`; `none` is not found
  pub lookup_env : String → Option String
  -- `strconv.ParseBool`, `time.ParseDuration`, `strings.ToLower`
  pub parse_bool : String → Outcome Bool
  pub parse_duration : String → Outcome ℤ
  pub to_lower : String → String
  -- `os.RemoveAll`
  pub remove_all : String → Outcome (Unit {0})
  -- `config.ClientConfig`, and `Init` of the platform of that name
  pub client_config : Outcome (Unit {0})
  pub init_platform : String → Outcome (Unit {0})
  -- `ctrl.NewManager` for a namespace
  pub new_manager : String → Outcome (Unit {0})
  -- `SetupWithManager` of the controller of that name
  pub setup : String → Outcome (Unit {0})
  -- `AddHealthzCheck`, `AddReadyzCheck` and `Start` of the manager
  pub add_healthz_check : Outcome (Unit {0})
  pub add_readyz_check : Outcome (Unit {0})
  pub start_manager : Outcome (Unit {0})

-- The controllers that are set up, and how the code ended.
abbrev pub Start : Type 0
Start = List String × Outcome (Unit {0})

module _ {A : Type 0} where
  abbrev pub note : String → Outcome A → Outcome A
  note text (err e) = err (wrap text e)
  note text r = r

  -- The code that follows a step, where the step returns.
  abbrev pub following : List String → Outcome A → Start → Start
  following running (ok _) next = next
  following running (err e) next = (running, err e)
  following running panic next = (running, panic)

module _ (host : Host) where
  -- `os.Getenv` is the empty text for what is not found.
  unfoldable pub get_env_default : String → String → String
  get_env_default key fallback = elim (host.lookup_env key) [
    | none ↦ fallback
    | some v ↦ if v == "" then fallback else v
  ]

  unfoldable pub get_watch_namespace : Outcome String
  get_watch_namespace = elim (host.lookup_env "WATCH_NAMESPACE") [
    | none ↦ err (message "%s must be set" ("WATCH_NAMESPACE" ∷ []))
    | some ns ↦ ok ns
  ]

  unfoldable pub get_debug_mode : Outcome Bool
  get_debug_mode = elim (host.lookup_env "DEBUG_MODE") [
    | none ↦ ok false
    | some mode ↦ elim (host.parse_bool mode) [
      | ok b ↦ ok b
      | err e ↦ err (wrapf "failed to parse bool value %q for debug mode" mode e)
      | panic ↦ panic
    ]
  ]

  unfoldable pub get_platform_type_env : Outcome String
  get_platform_type_env = elim (host.lookup_env "PLATFORM_TYPE") [ none ↦ panic | some p ↦ ok p ]

  abbrev pub default_sync_interval : ℤ
  default_sync_interval = pos (300 * second)

  unfoldable pub sync_interval : ℤ
  sync_interval = elim (host.lookup_env "GERRIT_PROJECT_SYNC_INTERVAL") [
    | none ↦ default_sync_interval
    | some value ↦ elim (host.parse_duration value) [
      | ok interval ↦ interval
      | _ ↦ default_sync_interval
    ]
  ]

  -- `platform.NewService`; nothing is made for tests.
  unfoldable pub new_service_of : String → Outcome (Unit {0})
  new_service_of platform =
      if platform == "openshift"
      then note "Failed to init for Openshift platform" (host.init_platform "openshift")
      else if platform == "kubernetes"
      then note "Failed to init for Kubernetes platform" (host.init_platform "kubernetes")
      else if platform == "test"
      then ok tt
      else err (message "unknown platform type '%s'" (platform ∷ []))

  unfoldable pub new_service : String → Outcome (Unit {0})
  new_service platform_type =
      elim (note "Failed to get rest configs for platform" host.client_config) [
        | ok _ ↦ new_service_of (host.to_lower platform_type)
        | err e ↦ err e
        | panic ↦ panic
      ]

  -- A constructor of a controller makes the platform service: `platform.NewService(GetPlatformTypeEnv(), ...)`.
  unfoldable pub platform_service : String → Outcome (Unit {0})
  platform_service failure = elim get_platform_type_env [
    | ok p ↦ note failure (new_service p)
    | err e ↦ err e
    | panic ↦ panic
  ]

  -- One round of the loop of `initControllers`: a controller is named with the error of its constructor.
  unfoldable pub start_controller : String → String → Outcome (Unit {0})
  start_controller name failure = elim (platform_service failure) [
    | ok _ ↦ host.setup name
    | err e ↦ err e
    | panic ↦ panic
  ]

  -- The loop over the constructors, with what is done after it.
  unfoldable pub start_all : List (String × String) → List String → (List String → Start) → Start
  start_all [] running next = next running
  start_all ((name, failure) ∷ names) running next =
      let rest = start_all names (running ++ name ∷ []) next in
      elim (start_controller name failure) [
        | ok _ ↦ rest
        | err e ↦ (running, err (wrapf "unable to create controller, controller: %s" name e))
        | panic ↦ (running, panic)
      ]

  -- `prepareGerritProjectReconciler`
  unfoldable pub prepare_gerrit_project_reconciler : List String → Start
  prepare_gerrit_project_reconciler running =
      following running (platform_service "unable to create platform service")
        (following running (host.setup "gerrit-project") (running ++ "gerrit-project" ∷ [], ok tt))

  -- `prepareMergeRequestReconciler`: without its work directory the controller is not set up, and that is no error.
  unfoldable pub prepare_merge_request_reconciler : List String → (List String → Start) → Start
  prepare_merge_request_reconciler running next =
      elim (host.remove_all (get_env_default "GIT_WORK_DIR" "/tmp/git_tmp")) [
        | err _ ↦ next running
        | panic ↦ (running, panic)
        | ok _ ↦ following running (platform_service "unable to create platform service") (
            following running (host.setup "gerrit-merge-request")
              (next (running ++ "gerrit-merge-request" ∷ [])))
      ]

  -- `controllerConstructors`
  abbrev pub constructors : List (String × String)
  constructors =
      ("gerrit", "unable to create platform service")
      ∷ ("gerrit-replication-config", "failed to create platform service")
      ∷ ("gerrit-group", "unable to create platform service")
      ∷ ("gerrit-project-access", "unable to create platform service")
      ∷ ("gerrit-group-member", "unable to create platform service")
      ∷ []

  unfoldable pub init_controllers : Start
  init_controllers =
      start_all constructors []
        (λ running. prepare_merge_request_reconciler running prepare_gerrit_project_reconciler)

  unfoldable pub init_manager : Outcome (Unit {0})
  init_manager = elim get_watch_namespace [
    | ok ns ↦ note "unable to start manager" (host.new_manager ns)
    | err e ↦ err (wrap "unable to get watch namespace" e)
    | panic ↦ panic
  ]

  -- `main`, where an error stands for the exit with the status 1.
  unfoldable pub run_main : Start
  run_main = following [] get_debug_mode (
      following [] init_manager (
        let (running, r) = init_controllers in
        following running r (
          following running host.add_healthz_check
            (following running host.add_readyz_check (running, host.start_manager)))))
