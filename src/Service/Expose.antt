-- ===== src/Service/Expose.antt =====
-- `ExposeConfiguration` and `exposeArgoCDConfiguration` (pkg/service/gerrit/gerrit.go). The instance is the
-- resource behind the pointer, which the controller and the service share.
pub mod Argo
pub mod Notes
use edp_gerrit_operator.Base.{String, ◌<>◌, Option, List, [], ◌∷◌, Dict}
use edp_gerrit_operator.Base.{if◌then◌else◌}
use edp_gerrit_operator.Api.{Gerrit}
use edp_gerrit_operator.World.{Env}
use edp_gerrit_operator.Exec.{M, ◌>>=◌, ◌>>◌, pure, lift, wrapping, skip, this, assign, traced}
use edp_gerrit_operator.Platform.K8s
use edp_gerrit_operator.Helper.Client.{update_instance}
use edp_gerrit_operator.Client.Ssh.{create_user, add_user_to_groups}
use edp_gerrit_operator.Service.KeyPairs
use edp_gerrit_operator.Service.Connect.{text_at, set_annotation, init_rest_client, init_ssh_client}
use edp_gerrit_operator.Service.Configure.{bootstrappers, read_only}

-- `spec.GerritDefaultCiUserUser`, `spec.GerritArgoUser`
abbrev pub ci_user : String
ci_user = "edp-ci"

abbrev pub argo_user : String
argo_user = "argocd"

-- `spec.GerritAdministratorsGroup`
abbrev pub administrators : String
administrators = "Administrators"

abbrev pub generate_annotation_key : String → String
generate_annotation_key suffix = "edp.epam.com/" <> suffix

abbrev pub format_secret_name : String → String → String
format_secret_name name postfix = name <> "-" <> postfix

-- The names of the secrets that the operator creates for an instance of that name.
abbrev pub ci_secret : String → String
ci_secret name = format_secret_name name "ciuser-password"

abbrev pub ci_key_secret : String → String
ci_key_secret name = name <> "-ciuser-sshkey"

abbrev pub argo_secret : String → String
argo_secret name = format_secret_name name "argocd-password"

abbrev pub argo_key_secret : String → String
argo_key_secret name = name <> "-argocd-sshkey"

abbrev pub identity_secret : String → String
identity_secret name = format_secret_name name "is-credentials"

-- The data of a secret with a password, and of one with a pair of keys.
abbrev pub credentials : String → String → Dict String
credentials user password = ("user", user) ∷ ("password", password) ∷ []

abbrev pub key_data : String → String → String → Dict String
key_data user private_key public_key =
    ("username", user) ∷ ("id_rsa", private_key) ∷ ("id_rsa.pub", public_key) ∷ []

module _ (env : Env Gerrit) where
  -- `setAnnotation` on the instance behind the pointer
  unfoldable pub annotate : String → String → M Gerrit (Unit {0})
  annotate suffix value = do
    o ← this
    assign (set_annotation (generate_annotation_key suffix) value o)

  -- `exposeArgoCDConfiguration` up to the creation of the user.
  unfoldable pub expose_argo_user : M Gerrit (Unit {0})
  expose_argo_user = do
    g ← this
    t ← traced
    let password = env.new_password t
    wrapping "failed to create secret %s" (argo_secret g.meta.name ∷ [])
        (K8s.create_secret env g (argo_secret g.meta.name) (credentials argo_user password) [])
    annotate "argocd-credentials" (argo_secret g.meta.name)
    (private_key, public_key) ←
        wrapping "unable to generate SSH key pairs for Gerrit ArgoCD user" []
          (KeyPairs.generate_ssh_ed25519_key_pairs env)
    g' ← this
    wrapping "unable to create secret for Gerrit ArgoCD user" [] (
        K8s.create_secret env g' (argo_key_secret g.meta.name)
          (key_data argo_user private_key public_key) [])
    annotate "argocd-sshkey" (argo_key_secret g.meta.name)
    wrapping "unable to create ArgoCD user in Gerrit" []
        (create_user env argo_user password "argo cd user" public_key)

  unfoldable pub expose_argo_cd_configuration : M Gerrit (Unit {0})
  expose_argo_cd_configuration = do
    expose_argo_user
    wrapping "unable to add ArgoCD user to %s group in Gerrit" (read_only ∷ [])
        (add_user_to_groups env argo_user (read_only ∷ []))

  -- `if instance.Spec.KeycloakSpec.Enabled`
  unfoldable pub expose_identity : M Gerrit (Unit {0})
  expose_identity = do
    g ← this
    if g.spec.keycloak_spec.enabled
        then (do
          t ← traced
          secret ←
              wrapping "Failed to generate secret for Gerrit in Keycloak" [] (lift (env.new_uuid t))
          wrapping "Failed to create secret %v" (identity_secret g.meta.name ∷ []) (
              K8s.create_secret env g (identity_secret g.meta.name)
                (("client_id", g.meta.name) ∷ ("clientSecret", secret) ∷ []) [])
          annotate "is-credentials" (identity_secret g.meta.name)
          wrapping "couldn't update annotations" [] (update_instance env))
        else skip

  -- The account of the CI user: its secrets, the user and its groups.
  unfoldable pub expose_ci_user : M Gerrit (Unit {0})
  expose_ci_user = do
    g ← this
    t ← traced
    wrapping "Failed to create ci user Secret %v for Gerrit" (ci_secret g.meta.name ∷ []) (
        K8s.create_secret env g (ci_secret g.meta.name) (credentials ci_user (env.new_password t))
          [])
    annotate "ci-credentials" (ci_secret g.meta.name)
    ci_user_credentials ←
        wrapping "Failed to get Secret %s for %s/%s"
          (ci_secret g.meta.name ∷ g.meta.namespace ∷ g.meta.name ∷ [])
          (K8s.get_secret_data env g.meta.namespace (ci_secret g.meta.name))
    (private_key, public_key) ←
        wrapping "Unable to generate SSH key pairs for Gerrit" [] (KeyPairs.generate_key_pairs env)
    g' ← this
    wrapping "Failed to create Secret with SSH key pairs for Gerrit" [] (
        K8s.create_secret env g' (ci_key_secret g.meta.name)
          (key_data ci_user private_key public_key)
          (("app.edp.epam.com/secret-type", "repository") ∷ []))
    annotate "ci-sshkey" (ci_key_secret g.meta.name)
    wrapping "Failed to create ci user %v in Gerrit" (ci_user ∷ [])
        (create_user env ci_user (text_at "password" ci_user_credentials) "EDP CI bot" public_key)
    wrapping "Failed to add user %v to groups %v" (ci_user ∷ bootstrappers ∷ administrators ∷ [])
        (add_user_to_groups env ci_user (bootstrappers ∷ administrators ∷ []))

  unfoldable pub expose_configuration : M Gerrit (Unit {0})
  expose_configuration = do
    g ← this
    wrapping "Failed to init Gerrit REST client" [] (init_rest_client env g)
    wrapping "Failed to init Gerrit SSH client" [] (init_ssh_client env g)
    expose_ci_user
    expose_argo_cd_configuration
    wrapping "couldn't update project" [] (update_instance env)
    expose_identity
