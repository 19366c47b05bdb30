-- ===== src/Service/Connect.antt =====
-- Addresses, credentials and clients (pkg/service/gerrit/gerrit.go).
pub mod Ports
use edp_gerrit_operator.Base.{ℕ, String, ◌<>◌, Bool, true, false, Option, none, some, List, [], ◌∷◌}
use edp_gerrit_operator.Base.{◌==◌, ◌=?◌, ◌||◌, not, string_eq, if◌then◌else◌, Dict, lookup, insert}
use edp_gerrit_operator.Errors.{new}
use edp_gerrit_operator.Api.{Gerrit, GerritSpec}
use edp_gerrit_operator.World.{Env}
use edp_gerrit_operator.World.Objects.{EnvVar, Service, ServicePort}
use edp_gerrit_operator.World.Requests.{RestyClient}
use edp_gerrit_operator.Exec.{M, ◌>>=◌, ◌>>◌, pure, raise, crash, wrapping, rest_connection}
use edp_gerrit_operator.Exec.{skip}
use edp_gerrit_operator.Platform.K8s
use edp_gerrit_operator.Service.KeyPairs
use edp_gerrit_operator.Client.Ssh.{init_new_rest_client, init_new_ssh_client, change_password}

-- `spec.GerritDefaultAdminUser`
abbrev pub admin_user : String
admin_user = "admin"

-- Reading a key of a `map[string][]byte` as text: a nil map or a missing key gives the empty text.
abbrev pub text_at : String → Option (Dict String) → String
text_at key none = ""
text_at key (some m) = elim (lookup key m) [ none ↦ "" | some v ↦ v ]

-- The loop of `GetServicePort`.
unfoldable pub find_node_port : List ServicePort → Option ℕ
find_node_port [] = none
find_node_port (p ∷ ports) =
    let rest = find_node_port ports in if p.name == "ssh" then some p.node_port else rest

-- `setAnnotation`: an empty map, or a nil one, is replaced.
unfoldable pub set_annotation : String → String → Gerrit → Gerrit
set_annotation key value g = record g {
  meta = record g.meta { annotations = insert key value g.meta.annotations };
}

-- `newEnv` of `updateDeploymentConfigPort`
abbrev pub listen_on : String → EnvVar
listen_on port = record { name = K8s.ssh_listener_env_name; value = "*:" <> port }

module _ {O : Type 0} (env : Env O) where
  -- `GerritSpec.GetBasePath`
  unfoldable pub get_base_path : GerritSpec → String
  get_base_path s = if s.base_path == "" then "a/" else env.path_join s.base_path "a/" <> "/"

  unfoldable pub get_gerrit_rest_api_url : Gerrit → M O String
  get_gerrit_rest_api_url g =
      if not (g.spec.rest_api_url == "")
      then pure g.spec.rest_api_url
      else if env.running_in_cluster
      then pure
          ("http://" <> g.meta.name <> "." <> g.meta.namespace <> ":8080/" <> get_base_path g.spec)
      else do
        (h, sc) ←
            wrapping "Failed to get external endpoint for %v/%v"
              (g.meta.namespace ∷ g.meta.name ∷ [])
              (K8s.get_external_endpoint env g.meta.namespace g.meta.name)
        pure (sc <> "://" <> h <> "/" <> get_base_path g.spec)

  unfoldable pub get_gerrit_ssh_url : Gerrit → M O String
  get_gerrit_ssh_url g =
      if not (g.spec.ssh_url == "")
      then pure g.spec.ssh_url
      else if env.running_in_cluster
      then pure (g.meta.name <> "." <> g.meta.namespace)
      else do
        (h, sc) ←
            wrapping "Failed to get Service for %v/%v" (g.meta.namespace ∷ g.meta.name ∷ [])
              (K8s.get_external_endpoint env g.meta.namespace g.meta.name)
        pure h

  unfoldable pub get_gerrit_admin_password : Gerrit → M O String
  get_gerrit_admin_password g = do
    let secret_name = g.meta.name <> "-admin-password"
    credentials ←
        wrapping "Failed to get Secret %v for %v/%v"
          (secret_name ∷ g.meta.namespace ∷ g.meta.name ∷ [])
          (K8s.get_secret_data env g.meta.namespace secret_name)
    pure (text_at "password" credentials)

  unfoldable pub init_rest_client : Gerrit → M O (Unit {0})
  init_rest_client g = do
    password ←
        wrapping "Failed to get Gerrit admin password from secret for %s/%s"
          (g.meta.namespace ∷ g.meta.name ∷ []) (get_gerrit_admin_password g)
    url ←
        wrapping "Failed to get Gerrit REST API URL %v/%v" (g.meta.namespace ∷ g.meta.name ∷ [])
          (get_gerrit_rest_api_url g)
    wrapping "Failed to initialize Gerrit REST client for %v/%v"
        (g.meta.namespace ∷ g.meta.name ∷ []) (init_new_rest_client env url admin_user password)

  unfoldable pub reuse : Gerrit → Option RestyClient → M O (Unit {0})
  reuse g (some c) = skip
  reuse g none = wrapping "unable to init gerrit rest client" [] (init_rest_client g)

  -- The client is the one of the world, whichever Gerrit it was initialised for.
  unfoldable pub get_rest_client : Gerrit → M O (Unit {0})
  get_rest_client g = rest_connection >>= reuse g

  -- A nil service is dereferenced.
  unfoldable pub service_port : Option Service → M O ℕ
  service_port none = crash
  service_port (some s) = elim (find_node_port s.ports) [
    | some port ↦ pure port
    | none ↦ raise (new "Unable to determine Gerrit ssh port")
  ]

  unfoldable pub get_service_port : Gerrit → M O ℕ
  get_service_port g = do
    service ←
        wrapping "failed to fetch service %q" (g.meta.name ∷ [])
          (K8s.get_service env g.meta.namespace g.meta.name)
    service_port service

  unfoldable pub init_ssh_client : Gerrit → M O (Unit {0})
  init_ssh_client g = do
    url ← get_gerrit_ssh_url g
    port ← get_service_port g
    let secret_name = g.meta.name <> "-admin"
    keys ←
        wrapping "failed to fetch secret %q" (secret_name ∷ [])
          (K8s.get_secret env g.meta.namespace secret_name)
    wrapping "Failed to init Gerrit SSH client %v/%v" (g.meta.namespace ∷ g.meta.name ∷ [])
        (init_new_ssh_client env admin_user (text_at "id_rsa" keys) url port)

  -- An existing secret is read; a missing one is created with a new pair.
  unfoldable pub create_ssh_key_pairs : Gerrit → String → M O (String × String)
  create_ssh_key_pairs g secret_name = do
    existing ←
        wrapping "Unable to get data from secret %v" (secret_name ∷ [])
          (K8s.get_secret_data env g.meta.namespace secret_name)
    elim existing [
      | some m ↦ pure (text_at "id_rsa" (some m), text_at "id_rsa.pub" (some m))
      | none ↦ do
        (private_key, public_key) ←
            wrapping "Unable to generate SSH key pairs for Gerrit" []
              (KeyPairs.generate_key_pairs env)
        wrapping "Failed to create Secret with SSH key pairs for Gerrit" [] (
            K8s.create_secret env g secret_name
              (("id_rsa", private_key) ∷ ("id_rsa.pub", public_key) ∷ []) [])
        pure (private_key, public_key)
    ]

  unfoldable pub set_gerrit_admin_user_password :
      Gerrit → String → String → String → ℕ → M O (Unit {0})
  set_gerrit_admin_user_password g ssh_url password api_url port = do
    keys ←
        wrapping "Failed to get Gerrit admin secret for %s/%s" (g.meta.namespace ∷ g.meta.name ∷ [])
          (K8s.get_secret env g.meta.namespace (g.meta.name <> "-admin"))
    wrapping "Failed to initialize Gerrit SSH client for %s/%s"
        (g.meta.namespace ∷ g.meta.name ∷ [])
        (init_new_ssh_client env admin_user (text_at "id_rsa" keys) ssh_url port)
    wrapping "Failed to set Gerrit admin password for %s/%s" (g.meta.namespace ∷ g.meta.name ∷ [])
        (change_password env "admin" password)
    wrapping "Failed to initialize Gerrit REST client for %s/%s"
        (g.meta.namespace ∷ g.meta.name ∷ []) (init_new_rest_client env api_url admin_user password)

  -- `updateDeploymentConfigPort`: whether the deployment was patched.
  unfoldable pub update_deployment_config_port : ℕ → ℕ → Gerrit → M O Bool
  update_deployment_config_port ssh_port ssh_port_service g =
      if not (ssh_port =? ssh_port_service) || ssh_port =? 0
      then wrapping "failed to update %q env value" (K8s.ssh_listener_env_name ∷ [])
          (K8s.patch_deployment_env env g (listen_on (env.itoa ssh_port_service) ∷ []))
        >> pure true
      else pure false
