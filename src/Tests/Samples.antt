-- ===== src/Tests/Samples.antt =====
-- What the tests run on: a Gerrit resource, and an environment that refuses every call.
use edp_gerrit_operator.Base.{ℕ, String, true, false, none, some, [], ◌∷◌, pos}
use edp_gerrit_operator.Errors.{Error, ok, err, external, Response}
use edp_gerrit_operator.Api.{Gerrit, ObjectMeta, OwnerReference}
use edp_gerrit_operator.World.{Env, World}
use edp_gerrit_operator.World.Keys.{KeyLibrary}
use edp_gerrit_operator.World.Repos.{RepoLibrary}
use edp_gerrit_operator.World.Shells.{ShellLibrary}
use edp_gerrit_operator.World.Requests.{RestyClient, default_client}

abbrev pub unreachable : Error
unreachable = external "connection refused"

abbrev pub no_keys : {T : Type 0} → KeyLibrary T
no_keys = record {
  rsa_generate_key = λ _ _. err unreachable;
  rsa_validate = λ _. ok tt;
  marshal_pkcs1 = λ key. key;
  rsa_public_key = λ key. ok key;
  new_public_key = λ key. ok key;
  marshal_authorized_key = λ _. "p";
  encode_to_memory = λ _ _. "k";
  ed25519_generate_key = λ _. err unreachable;
  ed25519_public = λ _. none;
  read_uint32 = λ _. err unreachable;
  marshal_block = λ _. [];
  marshal_file = λ _. [];
}

abbrev pub no_repos : {T : Type 0} → RepoLibrary T
no_repos = record {
  act = λ _ _. err unreachable;
  urls = λ _ _ _. err unreachable;
  combined_output = λ _ _ _. ("", some unreachable);
  with_user = λ url _ _. ok url;
  is_not_exist = λ _. false;
  new_random = λ _. err unreachable;
  sha1_hex = λ s. ok s;
}

abbrev pub no_shells : {T : Type 0} → ShellLibrary T
no_shells = record {
  parse_private_key = λ key. ok key;
  act = λ _ _. err unreachable;
  output = λ _ _. err unreachable;
}

abbrev pub no_env : {O : Type 0} → Env O
no_env = record {
  get = λ _ _ _. err unreachable;
  update = λ _ _. err unreachable;
  update_status = λ _ _. err unreachable;
  create = λ _ _. err unreachable;
  list = λ _. err unreachable;
  get_gerrit = λ _ _ _. err unreachable;
  list_gerrits = λ _ _. err unreachable;
  http = λ _ _ _. err unreachable;
  get_secret = λ _ _ _. err unreachable;
  create_secret = λ _ _. err unreachable;
  get_service = λ _ _ _. err unreachable;
  update_service = λ _ _. err unreachable;
  get_deployment = λ _ _ _. err unreachable;
  patch_deployment = λ _ _. err unreachable;
  list_pods = λ _ _ _. err unreachable;
  get_pod = λ _ _ _. err unreachable;
  rest_config = ok tt;
  exec_url = λ _ _ _ _. "";
  spdy_executor = λ _. ok tt;
  exec_in_pod = λ _ _ _ _ _. err unreachable;
  create_config_map = λ _ _. err unreachable;
  get_ingress = λ _ _ _. err unreachable;
  get_route = λ _ _ _. err unreachable;
  get_deployment_config = λ _ _ _. err unreachable;
  patch_deployment_config = λ _ _. err unreachable;
  set_controller_reference = λ _ _ _. err unreachable;
  get_config_map = λ _ _ _. err unreachable;
  now = λ _. 7;
  exp_timeout = λ _. pos 5;
  running_in_cluster = true;
  getenv = λ _. "";
  read_file = λ _. err unreachable;
  executable_path = err unreachable;
  is_not_found = λ _. false;
  is_conflict = λ _. false;
  error_text = λ _. "failed";
  is_error = λ _. false;
  decode_project = λ _. err unreachable;
  decode_projects = λ _. err unreachable;
  decode_branches = λ _. err unreachable;
  decode_group = λ _. err unreachable;
  decode_change = λ _. err unreachable;
  decode_mr_file = λ _. err unreachable;
  to_lower = λ s. s;
  query_escape = λ s. s;
  slugify = λ s. s;
  itoa = λ _. "1";
  find_submatch = λ _ _. none;
  find_group = λ _ _. none;
  path_join = λ a b. b;
  parse_template = λ _. err unreachable;
  render_resource = λ _ _. err unreachable;
  render = λ _ _. err unreachable;
  quote = λ s. s;
  new_password = λ _. "pwd";
  new_uuid = λ _. err unreachable;
  keys = no_keys;
  repos = no_repos;
  shells = no_shells;
}

abbrev pub connection : RestyClient
connection = default_client

abbrev pub owner : OwnerReference
owner = record {
  api_version = "v2.edp.epam.com/v1";
  kind = "Gerrit";
  name = "gerrit";
  uid = "1";
  block_owner_deletion = true;
  controller = true;
}

abbrev pub meta : String → ObjectMeta
meta name = record {
  name = name;
  namespace = "edp";
  uid = "2";
  kind = "Gerrit";
  deleted = false;
  finalizers = [];
  owner_references = owner ∷ [];
  annotations = [];
}

abbrev pub gerrit : String → Gerrit
gerrit status = record {
  meta = meta "gerrit";
  spec = record {
    keycloak_spec = record { enabled = false; url = ""; realm = "" };
    rest_api_url = "http://gerrit";
    ssh_url = "gerrit";
    ssh_port = 22;
    base_path = "";
    external_url = "";
  };
  status = record { external_url = ""; available = false; last_time_updated = 0; status = status };
}

-- A connected client, and no call so far.
abbrev pub connected : {O : Type 0} → O → World O
connected o = record { trace = []; instance_ref = o; rest = some connection; ssh_client = none }

-- A response whose body is the prefix of every body of Gerrit.
abbrev pub response : ℕ → Response
response status = record { status = status; body = 41 ∷ 93 ∷ 125 ∷ 39 ∷ 10 ∷ [] }
