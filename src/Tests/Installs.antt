-- ===== src/Tests/Installs.antt =====
-- The theorems on the configuration of an instance and its exposure at concrete inputs.
use edp_gerrit_operator.Base.{
  String, ◌<>◌, none, some, List, [], ◌∷◌, ◌≡◌, refl, arith, string_eq, Option, not, ◌=?◌, ◌==◌,
  if◌then◌else◌, lookup,
}
use edp_gerrit_operator.Errors.{ok, err, Response, wrapped, already_exists}
use edp_gerrit_operator.Api.{Gerrit}
use edp_gerrit_operator.World.{Env, World, Trace}
use edp_gerrit_operator.World.Requests.{Method}
use edp_gerrit_operator.World.Shells.{SshClient, ShellLibrary}
use edp_gerrit_operator.Exec.{M}
use edp_gerrit_operator.Exec
use edp_gerrit_operator.Client.Rest.Answers.{sent}
use edp_gerrit_operator.Client.Rest
use edp_gerrit_operator.Client.Shell
use edp_gerrit_operator.Client.Shell.Closing.{after_command}
use edp_gerrit_operator.Client.Ssh
use edp_gerrit_operator.Helper.Client
use edp_gerrit_operator.Platform.K8s
use edp_gerrit_operator.Service.Connect
use edp_gerrit_operator.Service.Configure
use edp_gerrit_operator.Service.Configure.{Site}
use edp_gerrit_operator.Service.Configure.Checks
use edp_gerrit_operator.Service.Configure.Groups
use edp_gerrit_operator.Service.Configure.Answers
use edp_gerrit_operator.Service.KeyPairs
use edp_gerrit_operator.Service.Expose
use edp_gerrit_operator.Service.Expose.Argo
use edp_gerrit_operator.Service.Expose.Notes
use edp_gerrit_operator.Tests.Samples.{no_env, no_keys, gerrit, connected, connection, response}

abbrev site : Site
site = record {
  ssh_url = "gerrit";
  scripts_path = "/usr/local/configs/scripts";
  port = 22;
  api_url = "http://gerrit";
  password = "pwd";
  pod = "gerrit-0";
  public_key = "p";
}

abbrev session : SshClient
session = record { user = "admin"; signer = "k"; host = "gerrit"; port = 22 }

-- An SSH server that gives this output to every command.
abbrev answering : {T : Type 0} → String → ShellLibrary T
answering output = record {
  parse_private_key = λ key. ok key;
  act = λ _ _. ok tt;
  output = λ _ _. ok output;
}

-- A world with both clients.
abbrev reached : World Gerrit
reached = record (connected (gerrit "")) { ssh_client = some session }

abbrev put_refused : Method → Response
put_refused Method.put = response 409
put_refused _ = response 200

abbrev find_line : List String → String → Option String
find_line [] pattern_text = none
find_line (name ∷ names) pattern_text =
    if pattern_text == Ssh.group_pattern name
    then some (name <> "\tid")
    else find_line names pattern_text

-- A Gerrit that has the groups of these names and creates none.
abbrev with_groups : List String → Env Gerrit
with_groups names = record no_env {
  shells = answering "groups";
  find_submatch = λ pattern_text _. find_line names pattern_text;
  http = λ _ _ r. ok (put_refused r.method);
  is_error = λ r. not (r.status =? 200);
}

abbrev half : Env Gerrit
half = with_groups ("Continuous Integration Tools" ∷ [])

abbrev both : Env Gerrit
both = with_groups ("Continuous Integration Tools" ∷ "Project Bootstrappers" ∷ [])

ensure_groups_half_example : Configure.ensure_groups half (gerrit "") site "k" reached ≡ (
  err (
      wrapped "failed to create Gerrit group %q"
        ("Continuous Integration Tools" ∷ [])
        (already_exists "already exists")),
  sent connection Groups.ci_tools_request (
      Checks.listed session
        (sent connection (Checks.group_request "id") (Checks.listed session reached))),
)
unfolding string_eq Ssh.second_field Ssh.up_to_tab Shell.run_command Shell.new_session
    Shell.close_all Exec.◌>>=◌
ensure_groups_half_example =
    Groups.ensure_groups_half half (gerrit "") site "k" reached session connection "groups"
      "Continuous Integration Tools\tid" "id" (response 200)
      (record {
        over = refl;
        answer = refl;
        present = refl;
        field = refl;
        named = refl;
        connected = refl;
        asked = refl;
      })
      refl "groups" "k" (response 409) (record { over = refl; answer = refl; absent = refl }) refl
      refl refl refl

-- A Gerrit that is not up yet.
abbrev unavailable : Env Gerrit
unavailable = record no_env { http = λ _ _ _. ok (response 503) }

log_in_answers_example :
    Answers.Login unavailable
      (gerrit "")
      (connected (gerrit ""))
      site
      (Configure.log_in unavailable (gerrit "") site (connected (gerrit "")))
log_in_answers_example = Answers.log_in_answers unavailable (gerrit "") (connected (gerrit "")) site

-- A cluster that has the secrets of an Argo CD user that Gerrit does not know.
abbrev orphaned : Env Gerrit
orphaned = record no_env {
  get_secret = λ _ _ _. ok (("password", "old") ∷ []);
  new_password = λ _. "new";
  keys = record no_keys {
    ed25519_generate_key = λ _. ok (1 ∷ [], 2 ∷ []);
    ed25519_public = λ _. some (1 ∷ []);
    read_uint32 = λ _. ok 7;
  };
  http = λ _ _ _. ok (response 404);
  shells = answering "";
}

-- The user's password is not the one of the secret.
expose_argo_user_again_example : Expose.expose_argo_user orphaned reached ≡ (
  ok tt,
  after_command session
      "gerrit create-account --full-name \"argo cd user\" --http-password \"new\" --ssh-key \"p\" \"argocd\""
      (sent connection Argo.account_request (Argo.with_keys orphaned reached)),
)
unfolding KeyPairs.generate_ssh_ed25519_key_pairs KeyPairs.marshal_ed25519_private_key Exec.◌>>=◌
    Shell.run_command Shell.new_session Shell.close_all
expose_argo_user_again_example =
    Argo.expose_argo_user_again orphaned reached (("password", "old") ∷ [])
      (("password", "old") ∷ []) "k" "p" "" connection session (response 404) refl refl refl refl
      refl refl refl refl

-- A cluster and a Gerrit in which everything is there already.
abbrev pub complete : Env Gerrit
complete = record no_env {
  get_secret = λ _ _ _. ok (("password", "old") ∷ []);
  get_service = λ _ namespace name. ok (record {
    namespace = namespace;
    name = name;
    ports = record { name = "ssh"; port = 22; target_port = 22; node_port = 29 } ∷ [];
  });
  shells = answering "groups";
  http = λ _ _ _. ok (response 200);
  find_submatch = λ _ _. some "line\tid";
  update = λ _ g. ok g;
  keys = record no_keys {
    rsa_generate_key = λ _ bits. ok (bits ∷ []);
    ed25519_generate_key = λ _. ok (1 ∷ [], 2 ∷ []);
    ed25519_public = λ _. some (1 ∷ []);
    read_uint32 = λ _. ok 7;
  };
}

same_meta : (t : Trace Gerrit) (g g' : Gerrit) → complete.update t g ≡ ok g' → g'.meta ≡ g.meta
same_meta t g g' h = ground arith

expose_completes : (Expose.expose_configuration complete (connected (gerrit ""))).0 ≡ ok tt
unfolding Expose.expose_configuration Exec.◌>>=◌ Connect.init_rest_client
    Connect.get_gerrit_admin_password K8s.get_secret_data Connect.get_gerrit_rest_api_url string_eq
    Ssh.init_new_rest_client Connect.init_ssh_client Connect.get_gerrit_ssh_url
    Connect.get_service_port K8s.get_service Connect.service_port Connect.find_node_port
    K8s.get_secret Ssh.init_new_ssh_client Expose.expose_ci_user K8s.create_secret lookup Rest.send
    Rest.send_by Ssh.add_user_to Ssh.add_user_to_groups Ssh.check_group Ssh.create_user
    Ssh.get_group_uuid Ssh.get_user Ssh.run_by Ssh.run_command Ssh.second_field Ssh.up_to_tab
    Ssh.uuid_of Client.update_instance Connect.set_annotation Expose.annotate
    Expose.expose_argo_cd_configuration Expose.expose_argo_user Expose.expose_identity
    KeyPairs.encode_private_key KeyPairs.generate_key_pairs KeyPairs.generate_private_key
    KeyPairs.generate_public_key KeyPairs.generate_ssh_ed25519_key_pairs
    KeyPairs.marshal_ed25519_private_key Shell.ssh_init Shell.run_command Shell.new_session
    Shell.close_all
expose_completes = refl

expose_configuration_notes_example :
    (let g = (Expose.expose_configuration complete (connected (gerrit ""))).1.instance_ref in
      Notes.HasNote "ci-credentials" g "gerrit-ciuser-password"
      × Notes.HasNote "ci-sshkey" g "gerrit-ciuser-sshkey"
      × Notes.HasNote "argocd-credentials" g "gerrit-argocd-password"
      × Notes.HasNote "argocd-sshkey" g "gerrit-argocd-sshkey")
expose_configuration_notes_example =
    Notes.expose_configuration_notes complete "gerrit" same_meta (connected (gerrit "")) refl
      expose_completes
