-- ===== src/Service/Apart/Access.antt =====
-- Addresses, clients and secrets of an instance leave it alone (pkg/service/gerrit/gerrit.go).
use edp_gerrit_operator.Base.{ℕ, String, Option, none, some}
use edp_gerrit_operator.Api.{Gerrit}
use edp_gerrit_operator.World.{Env, World}
use edp_gerrit_operator.World.Objects.{Service}
use edp_gerrit_operator.Exec.Keeps.{Keeps}
use edp_gerrit_operator.Exec.Apart.{IsApart}
use edp_gerrit_operator.Service.Connect
use edp_gerrit_operator.Service.KeyPairs
use edp_gerrit_operator.World.Keys.{Bytes}
use edp_gerrit_operator.Base.{inl, inr, Option-cases}
use edp_gerrit_operator.Service.Apart.Client.{client_rules}

module _ {O : Type 0} (env : Env O) {P : World O → Type 0} (apart : IsApart env P) where
  pub get_gerrit_rest_api_url-Keeps : (g : Gerrit) → Keeps P (Connect.get_gerrit_rest_api_url env g)
  unfolding Connect.get_gerrit_rest_api_url
  get_gerrit_rest_api_url-Keeps g = search client_rules depth 14

  pub get_gerrit_ssh_url-Keeps : (g : Gerrit) → Keeps P (Connect.get_gerrit_ssh_url env g)
  unfolding Connect.get_gerrit_ssh_url
  get_gerrit_ssh_url-Keeps g = search client_rules depth 14

  pub get_gerrit_admin_password-Keeps :
      (g : Gerrit) → Keeps P (Connect.get_gerrit_admin_password env g)
  unfolding Connect.get_gerrit_admin_password
  get_gerrit_admin_password-Keeps g = search client_rules depth 14

  pub init_rest_client-Keeps : (g : Gerrit) → Keeps P (Connect.init_rest_client env g)
  unfolding Connect.init_rest_client
  init_rest_client-Keeps g =
      search (client_rules, get_gerrit_rest_api_url-Keeps, get_gerrit_admin_password-Keeps) depth 14

  service_port-Keeps : (s : Option Service) → Keeps P (Connect.service_port env s)
  unfolding Connect.service_port
  service_port-Keeps none = search client_rules
  service_port-Keeps (some s) = elim (Option-cases (Connect.find_node_port s.ports)) [
    | inl e ↦ rw (e, Connect.service_port) (search client_rules)
    | inr (port, e) ↦ rw (e, Connect.service_port) (search client_rules)
  ]

  pub get_service_port-Keeps : (g : Gerrit) → Keeps P (Connect.get_service_port env g)
  unfolding Connect.get_service_port
  get_service_port-Keeps g = search (client_rules, service_port-Keeps) depth 14

  pub init_ssh_client-Keeps : (g : Gerrit) → Keeps P (Connect.init_ssh_client env g)
  unfolding Connect.init_ssh_client
  init_ssh_client-Keeps g =
      search (client_rules, get_gerrit_ssh_url-Keeps, get_service_port-Keeps) depth 14

  generate_private_key-Keeps : Keeps P (KeyPairs.generate_private_key env)
  unfolding KeyPairs.generate_private_key
  generate_private_key-Keeps = search client_rules depth 14

  generate_public_key-Keeps : (key : Bytes) → Keeps P (KeyPairs.generate_public_key env key)
  unfolding KeyPairs.generate_public_key
  generate_public_key-Keeps key = search client_rules depth 14

  pub generate_key_pairs-Keeps : Keeps P (KeyPairs.generate_key_pairs env)
  unfolding KeyPairs.generate_key_pairs
  generate_key_pairs-Keeps =
      search (client_rules, generate_private_key-Keeps, generate_public_key-Keeps) depth 14

  marshal-Keeps : (key : Bytes) → Keeps P (KeyPairs.marshal_ed25519_private_key env key)
  unfolding KeyPairs.marshal_ed25519_private_key
  marshal-Keeps key = elim (Option-cases (env.keys.ed25519_public key)) [
    | inl e ↦ rw e (search client_rules depth 14)
    | inr (pk, e) ↦ rw e (search client_rules depth 14)
  ]

  pub generate_ssh_ed25519_key_pairs-Keeps : Keeps P (KeyPairs.generate_ssh_ed25519_key_pairs env)
  unfolding KeyPairs.generate_ssh_ed25519_key_pairs
  generate_ssh_ed25519_key_pairs-Keeps = search (client_rules, marshal-Keeps) depth 14

  pub create_ssh_key_pairs-Keeps :
      (g : Gerrit) (name : String) → Keeps P (Connect.create_ssh_key_pairs env g name)
  unfolding Connect.create_ssh_key_pairs
  create_ssh_key_pairs-Keeps g name = search (client_rules, generate_key_pairs-Keeps) depth 14

  pub set_gerrit_admin_user_password-Keeps :
      (g : Gerrit) (ssh password api : String) (port : ℕ)
      → Keeps P (Connect.set_gerrit_admin_user_password env g ssh password api port)
  unfolding Connect.set_gerrit_admin_user_password
  set_gerrit_admin_user_password-Keeps g ssh password api port = search client_rules depth 14

  pub update_deployment_config_port-Keeps :
      (port service_port : ℕ) (g : Gerrit)
      → Keeps P (Connect.update_deployment_config_port env port service_port g)
  unfolding Connect.update_deployment_config_port
  update_deployment_config_port-Keeps port service_port g = search client_rules depth 14

pub ruleset access_rules = (
  get_gerrit_rest_api_url-Keeps, get_gerrit_ssh_url-Keeps, get_gerrit_admin_password-Keeps,
  init_rest_client-Keeps, get_service_port-Keeps, init_ssh_client-Keeps, generate_key_pairs-Keeps,
  generate_ssh_ed25519_key_pairs-Keeps, create_ssh_key_pairs-Keeps,
  set_gerrit_admin_user_password-Keeps, update_deployment_config_port-Keeps, client_rules,
)
