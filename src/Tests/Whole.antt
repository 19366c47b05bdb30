-- ===== src/Tests/Whole.antt =====
-- A cluster in which nothing goes wrong, for the Gerrit controller with the service that it is started with.
use edp_gerrit_operator.Base.{
  String, Bool, Bool-cases, inl, true, false, [], ◌∷◌, ◌≡◌, refl, sym, subst, ◌∙◌, ◌==◌, string_eq,
  inr, lookup, some, Option, ℕ,
}
use edp_gerrit_operator.Base.{first_digits, leading_digits, decimal_from}
use edp_gerrit_operator.Errors.{ok}
use edp_gerrit_operator.Api.{Gerrit}
use edp_gerrit_operator.World.{Env, World, Trace}
use edp_gerrit_operator.World.Requests.{RestyClient, default_client}
use edp_gerrit_operator.World.Shells.{SshClient}
use edp_gerrit_operator.Exec
use edp_gerrit_operator.Exec.{M}
use edp_gerrit_operator.Helper.Client
use edp_gerrit_operator.Platform.K8s
use edp_gerrit_operator.Platform.Env.{update_port}
use edp_gerrit_operator.Client.Ssh
use edp_gerrit_operator.Client.Rest
use edp_gerrit_operator.Client.Shell
use edp_gerrit_operator.Service.KeyPairs
use edp_gerrit_operator.Service.Connect
use edp_gerrit_operator.Service.Configure
use edp_gerrit_operator.Service.Expose
use edp_gerrit_operator.Controllers.Gerrits.Component.{component_service}
use edp_gerrit_operator.Controllers.Gerrits.Healthy.{IsHealthy, Returns}
use edp_gerrit_operator.Tests.Installs.{complete}
use edp_gerrit_operator.Tests.Lives.{listening, once}

-- Everything that is asked for is there, and every call succeeds.
abbrev pub served : (Trace Gerrit → Gerrit) → Env Gerrit
served held = record complete {
  get = λ t _ _. ok (held t);
  update_status = λ _ g. ok g;
  executable_path = ok "/usr/bin";
  update_service = λ _ _. ok tt;
  get_deployment = λ _ _ _. ok listening;
  list_pods = λ _ _ _. ok ("gerrit-0" ∷ []);
  exec_in_pod = λ _ _ _ _ _. ok tt;
  get_pod = λ _ namespace name.
      ok (record { namespace = namespace; name = name; containers = "gerrit" ∷ [] });
  rest_config = ok tt;
  spdy_executor = λ _. ok tt;
  new_uuid = λ _. ok "uuid";
}

ready :
    (held : Trace Gerrit → Gerrit)
    → Returns (component_service (served held) once).is_deployment_ready true
unfolding component_service Exec.◌>>=◌ Configure.is_deployment_ready K8s.is_deployment_ready
ready held w = (refl, refl)

-- The world `w` once both clients are there, with Keycloak asked for or not.
abbrev opened : World Gerrit → Option RestyClient → Option SshClient → Bool → World Gerrit
opened w r c b = record w {
  rest = r;
  ssh_client = c;
  instance_ref = record w.instance_ref {
    spec = record w.instance_ref.spec {
      keycloak_spec = record w.instance_ref.spec.keycloak_spec { enabled = b };
    };
  };
}

abbrev Kept : M Gerrit (Unit {0}) → World Gerrit → Type 0
Kept m w = ((m w).0 ≡ ok tt) × ((m w).1.instance_ref ≡ w.instance_ref)

module _ (held : Trace Gerrit → Gerrit) where
  rest_client :
      (g : Gerrit) (w : World Gerrit)
      → Kept (Connect.init_rest_client (served held) g) w
        × ((Connect.init_rest_client (served held) g w).1.rest ≡ some default_client)
  unfolding Exec.◌>>=◌ Connect.init_rest_client Connect.get_gerrit_admin_password
      K8s.get_secret_data Connect.get_gerrit_rest_api_url string_eq Ssh.init_new_rest_client lookup
      K8s.get_secret
  rest_client g w = elim (Bool-cases (g.spec.rest_api_url == "")) [
    | inl e ↦ rw e ((refl, refl), refl)
    | inr e ↦ rw e ((refl, refl), refl)
  ]

  ssh_client :
      (g : Gerrit) (w : World Gerrit)
      → Kept (Connect.init_ssh_client (served held) g) w
        × ((Connect.init_ssh_client (served held) g w).1.rest ≡ w.rest)
        × (c : SshClient) × ((Connect.init_ssh_client (served held) g w).1.ssh_client ≡ some c)
  unfolding Exec.◌>>=◌ Connect.init_ssh_client Connect.get_gerrit_ssh_url Connect.get_service_port
      K8s.get_service Connect.service_port Connect.find_node_port Connect.get_gerrit_admin_password
      K8s.get_secret_data lookup K8s.get_secret Ssh.init_new_ssh_client string_eq Shell.ssh_init
  ssh_client g w = elim (Bool-cases (g.spec.ssh_url == "")) [
    | inl e ↦ rw e ((refl, refl), refl, _, refl)
    | inr e ↦ rw e ((refl, refl), refl, _, refl)
  ]

  -- What follows once both clients are there.
  abbrev accounts : M Gerrit (Unit {0})
  accounts = Exec.◌>>◌ (Expose.expose_ci_user (served held)) (
      Exec.◌>>◌ (Expose.expose_argo_cd_configuration (served held)) (
        Exec.◌>>◌
          (Exec.wrapping "couldn't update project" [] (Client.update_instance (served held)))
          (Expose.expose_identity (served held))))

  abbrev Settled : World Gerrit → Type 0
  Settled w =
      ((accounts w).0 ≡ ok tt) × ((accounts w).1.instance_ref.status ≡ w.instance_ref.status)

  made :
      (w : World Gerrit) (c : SshClient) (b : Bool)
      → Settled (opened w (some default_client) (some c) b)
  unfolding Exec.◌>>=◌ K8s.get_secret_data string_eq K8s.get_secret Expose.expose_ci_user
      K8s.create_secret lookup Rest.send Client.update_instance Rest.send_by Ssh.add_user_to
      Ssh.add_user_to_groups Ssh.check_group Ssh.create_user Ssh.get_group_uuid Ssh.get_user
      Ssh.run_by Ssh.run_command Ssh.second_field Ssh.up_to_tab Ssh.uuid_of Connect.set_annotation
      Expose.annotate Expose.expose_argo_cd_configuration Expose.expose_argo_user
      Expose.expose_identity KeyPairs.encode_private_key KeyPairs.generate_key_pairs
      KeyPairs.generate_private_key KeyPairs.generate_public_key
      KeyPairs.generate_ssh_ed25519_key_pairs KeyPairs.marshal_ed25519_private_key Shell.run_command
      Shell.new_session Shell.close_all
  made w c true = (refl, refl)
  made w c false = (refl, refl)

  exposed : Returns (component_service (served held) once).expose_configuration tt
  unfolding component_service Expose.expose_configuration Exec.◌>>=◌
  exposed w =
      let g = w.instance_ref in
      let ((a, same), opens) = rest_client g w in
      let v = (Connect.init_rest_client (served held) g w).1 in
      let ((b, same'), stays, c, opens') = ssh_client g v in
      let u = (Connect.init_ssh_client (served held) g v).1 in
      let (e, kept) =
        subst (λ s. Settled (opened u u.rest s u.instance_ref.spec.keycloak_spec.enabled))
          (sym opens')
          (subst (λ r. Settled (opened u r (some c) u.instance_ref.spec.keycloak_spec.enabled))
            (sym (stays ∙ opens)) (made u c u.instance_ref.spec.keycloak_spec.enabled)) in
      rw (a, b) (e, kept ∙ rw (same', same) refl)

  access :
      (g : Gerrit) (ssh_url scripts : String) (port : ℕ) (w : World Gerrit)
      → (let m = Configure.set_up_access (served held) g ssh_url scripts port in
          ((m w).0 ≡ ok false) × ((m w).1.instance_ref ≡ w.instance_ref))
  unfolding Exec.◌>>=◌ Configure.set_up_access Connect.get_gerrit_admin_password K8s.get_secret_data
      Connect.get_gerrit_rest_api_url string_eq lookup K8s.get_secret K8s.get_pods
      Configure.with_pod Connect.create_ssh_key_pairs Configure.log_in Configure.try_password
      Ssh.init_new_rest_client Ssh.check_credentials Rest.send Rest.send_by Configure.set_up
      K8s.exec_in_pod Configure.ensure_groups K8s.stream_in Ssh.get_group_uuid Ssh.uuid_of
      Ssh.second_field Ssh.up_to_tab Ssh.init_new_ssh_client Shell.ssh_init Ssh.check_group
      Ssh.run_by Ssh.run_command Shell.run_command Shell.new_session Shell.close_all
  access g ssh_url scripts port w = elim (Bool-cases (g.spec.rest_api_url == "")) [
    | inl e ↦ rw e (refl, refl)
    | inr e ↦ rw e (refl, refl)
  ]

  configuring :
      (g : Gerrit) (w : World Gerrit)
      → (let m = Configure.configure (served held) g in
          ((m w).0 ≡ ok false) × ((m w).1.instance_ref ≡ w.instance_ref))
  unfolding Configure.configure Connect.get_gerrit_ssh_url K8s.create_secret
      Connect.get_service_port Connect.service_port Connect.find_node_port K8s.get_service
      K8s.get_deployment_ssh_port K8s.first_container_port K8s.find_ssh_port K8s.parse_port
      K8s.update_service update_port Connect.update_deployment_config_port string_eq first_digits
      leading_digits decimal_from Exec.◌>>=◌
  configuring g w = elim (Bool-cases (g.spec.ssh_url == "")) [
    | inl e ↦ rw e (access g _ _ _ _)
    | inr e ↦ rw e (access g _ _ _ _)
  ]

  configured : Returns (component_service (served held) once).configure (false, inr tt)
  unfolding component_service Exec.◌>>=◌ Configure.configured
  configured w = let (a, same) = configuring w.instance_ref w in rw a (refl, rw same refl)

  pub healthy : IsHealthy (served held) (component_service (served held) once)
  unfolding component_service
  healthy = record {
    echo = λ t g. refl;
    once = λ m w h. refl;
    ready = ready held;
    configured = configured;
    exposed = exposed;
  }
