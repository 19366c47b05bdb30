-- ===== src/World.antt =====
-- The boundary of the operator: the calls that it makes, what the other side may answer, and the
-- monad of code that makes such calls. An answer may depend on every call made before, so that the
-- cluster, the Gerrit server and the other controllers are free to change between two calls.
pub mod Requests
pub mod Objects
pub mod Keys
pub mod Repos
pub mod Shells
use edp_gerrit_operator.Base.{ℕ, ℤ, String, Bool, Option, List, Dict}
use edp_gerrit_operator.Errors.{Error, Outcome, Response}
use edp_gerrit_operator.Api.{Gerrit}
use edp_gerrit_operator.World.Requests.{RestyClient, Request, Group, Project, Branch, Change}
use edp_gerrit_operator.World.Keys.{KeyLibrary}
use edp_gerrit_operator.World.Shells.{SshClient, ShellCall, ShellLibrary}
use edp_gerrit_operator.World.Repos.{RepoCall, RepoLibrary}
use edp_gerrit_operator.World.Objects.{
  Pod, ConfigMap, Secret, Service, Deployment, Route, MrConfigMapFile,
}

-- A call that leaves the operator, over the resources `O` of one controller.
pub data Call (O : Type 0) : Type 0 where
  -- the Kubernetes client at the controller's own resource: namespace and name, or the resource sent
  get : String → String → Call O
  update : O → Call O
  update_status : O → Call O
  create : O → Call O
  list : Call O
  -- the Kubernetes client at `Gerrit` resources
  get_gerrit : String → String → Call O
  list_gerrits : String → Call O
  -- `resty.SetHostURL(url).SetBasicAuth(user, password)`, which sets the process-wide default client
  set_default_client : String → String → String → Call O
  -- a REST request by this client, to whichever host it has at the time
  http : RestyClient → Request → Call O
  -- the typed clients of the platform service: namespace and name, or the object sent
  get_secret : String → String → Call O
  create_secret : Secret → Call O
  get_service : String → String → Call O
  update_service : Service → Call O
  get_deployment : String → String → Call O
  patch_deployment : Deployment → Call O
  list_pods : String → String → Call O
  get_pod : String → String → Call O
  -- namespace, pod, container and the command given to `/bin/sh -c`
  exec_in_pod : String → String → String → String → Call O
  get_ingress : String → String → Call O
  get_route : String → String → Call O
  get_deployment_config : String → String → Call O
  patch_deployment_config : Deployment → Call O
  get_config_map : String → String → Call O
  create_config_map : ConfigMap → Call O
  -- the SSH library
  shell : ShellCall → Call O
  -- the libraries of the git client, and the removal of a clone
  repo : RepoCall → Call O

abbrev pub Trace : Type 0 → Type 0
Trace O = List (Call O)

-- What the other side answers, from the calls made so far, newest first; and the libraries' functions.
pub record Env (O : Type 0) : Type 0 where
  pub get : Trace O → String → String → Outcome O
  -- on success the reply is written over the resource that was sent
  pub update : Trace O → O → Outcome O
  pub update_status : Trace O → O → Outcome O
  pub create : Trace O → O → Outcome O
  pub list : Trace O → Outcome (List O)
  pub get_gerrit : Trace O → String → String → Outcome Gerrit
  pub list_gerrits : Trace O → String → Outcome (List Gerrit)
  pub http : Trace O → RestyClient → Request → Outcome Response
  pub get_secret : Trace O → String → String → Outcome (Dict String)
  pub create_secret : Trace O → Secret → Outcome (Unit {0})
  pub get_service : Trace O → String → String → Outcome Service
  pub update_service : Trace O → Service → Outcome (Unit {0})
  pub get_deployment : Trace O → String → String → Outcome Deployment
  pub patch_deployment : Trace O → Deployment → Outcome (Unit {0})
  pub list_pods : Trace O → String → String → Outcome (List String)
  pub get_pod : Trace O → String → String → Outcome Pod
  -- `config.ClientConfig`; the URL of a command in a pod, and `remotecommand.NewSPDYExecutor` at it
  pub rest_config : Outcome (Unit {0})
  pub exec_url : String → String → String → String → String
  pub spdy_executor : String → Outcome (Unit {0})
  -- `exec.StreamWithContext`
  pub exec_in_pod : Trace O → String → String → String → String → Outcome (Unit {0})
  -- the hosts of an ingress's rules
  pub get_ingress : Trace O → String → String → Outcome (List String)
  pub get_route : Trace O → String → String → Outcome Route
  pub get_deployment_config : Trace O → String → String → Outcome Deployment
  pub patch_deployment_config : Trace O → Deployment → Outcome (Unit {0})
  -- `controllerutil.SetControllerReference` on the secret of that name
  pub set_controller_reference : Trace O → Gerrit → String → Outcome (Unit {0})
  pub get_config_map : Trace O → String → String → Outcome (Dict String)
  pub create_config_map : Trace O → ConfigMap → Outcome (Unit {0})
  pub now : Trace O → ℕ
  -- `time.Duration(float64(time.Second) * math.Pow(math.E, float64(factor + 1)))`
  pub exp_timeout : ℤ → ℤ
  pub running_in_cluster : Bool
  -- `os.Getenv`
  pub getenv : String → String
  -- `os.ReadFile`, and the directory of the executable
  pub read_file : String → Outcome String
  pub executable_path : Outcome String
  -- `k8sErrors.IsNotFound`, `k8sErrors.IsConflict`, `err.Error()`
  pub is_not_found : Error → Bool
  pub is_conflict : Error → Bool
  pub error_text : Error → String
  -- resty's `Response.IsError`
  pub is_error : Response → Bool
  -- `json.Unmarshal` at each type that is decoded
  pub decode_project : List ℕ → Outcome Project
  pub decode_projects : List ℕ → Outcome (Dict Project)
  pub decode_branches : List ℕ → Outcome (List Branch)
  pub decode_group : List ℕ → Outcome Group
  pub decode_change : List ℕ → Outcome Change
  pub decode_mr_file : String → Outcome MrConfigMapFile
  -- `strings.ToLower`, `url.QueryEscape`, `slug.Make`, `strconv.Itoa`, `regexp.FindString`, `path.Join`,
  pub to_lower : String → String
  pub query_escape : String → String
  pub slugify : String → String
  pub itoa : ℕ → String
  pub find_submatch : String → String → Option String
  -- the first group of the first match
  pub find_group : String → String → Option String
  pub path_join : String → String → String
  -- `template.ParseFiles` and `Execute`, at the path of the file and the values of the template
  -- `ParseFiles` of a template, the template executed on the resource, and on the fields of a struct
  pub parse_template : String → Outcome String
  pub render_resource : String → O → Outcome String
  pub render : String → List String → Outcome String
  -- `%q`
  pub quote : String → String
  pub new_password : Trace O → String
  pub new_uuid : Trace O → Outcome String
  pub keys : KeyLibrary (Trace O)
  pub repos : RepoLibrary (Trace O)
  pub shells : ShellLibrary (Trace O)

-- The state of one reconciliation: the calls made so far, the resource that the code holds by a
-- pointer (`instance`), and the clients of its Gerrit client
-- (`Client.resty` and `Client.sshClient` of pkg/client/gerrit/gerrit.go), `none` while they are nil. Which host and
-- which credentials the REST client has is a matter of the process, not of one world.
pub record World (O : Type 0) : Type 0 where
  pub trace : Trace O
  pub instance_ref : O
  pub rest : Option RestyClient
  pub ssh_client : Option SshClient
