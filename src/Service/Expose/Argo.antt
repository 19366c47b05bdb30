-- ===== src/Service/Expose/Argo.antt =====
-- The Argo CD user where its secrets are there already (`exposeArgoCDConfiguration` of
-- pkg/service/gerrit/gerrit.go).
use edp_gerrit_operator.Base.{String, some, ◌∷◌, ◌≡◌, true, Dict, ◌=?◌}
use edp_gerrit_operator.Errors.{ok, Response}
use edp_gerrit_operator.Api.{Gerrit}
use edp_gerrit_operator.World.{Env, World, Call}
use edp_gerrit_operator.World.Requests.{RestyClient, Request, get, no_body}
use edp_gerrit_operator.World.Shells.{SshClient}
use edp_gerrit_operator.Exec.{◌>>=◌}
use edp_gerrit_operator.Platform.K8s.{create_secret}
use edp_gerrit_operator.Client.Rest.Answers.{sent, send-sent}
use edp_gerrit_operator.Client.Shell
use edp_gerrit_operator.Client.Shell.Closing.{after_command}
use edp_gerrit_operator.Client.Ssh
use edp_gerrit_operator.Client.Ssh.Commands.{run_command_over}
use edp_gerrit_operator.Service.Connect.{set_annotation}
use edp_gerrit_operator.Service.KeyPairs
use edp_gerrit_operator.Service.Expose

abbrev pub account_request : Request
account_request = record { method = get; path = "accounts/argocd"; body = no_body }

-- The instance with the annotation for a secret.
abbrev pub noted : String → String → World Gerrit → World Gerrit
noted suffix value w = record w {
  instance_ref = set_annotation (Expose.generate_annotation_key suffix) value w.instance_ref;
}

abbrev pub read_secret : String → World Gerrit → World Gerrit
read_secret name w = record w {
  trace = Call.get_secret w.instance_ref.meta.namespace name ∷ w.trace;
}

module _ (env : Env Gerrit) (w : World Gerrit) where
  abbrev pub name : String
  name = w.instance_ref.meta.name

  -- The worlds after the secret with the password and after the one with the keys.
  abbrev pub with_password : World Gerrit
  with_password =
      noted "argocd-credentials" (Expose.argo_secret name) (read_secret (Expose.argo_secret name) w)

  abbrev pub with_keys : World Gerrit
  with_keys =
      noted "argocd-sshkey" (Expose.argo_key_secret name)
        (read_secret (Expose.argo_key_secret name) with_password)

  -- The command that creates the user with this key and a password made up at the beginning.
  abbrev pub creation : String → String
  creation public_key =
      Ssh.create_account env "argocd" (env.new_password w.trace) "argo cd user" public_key

  -- Where both secrets of the Argo CD user exist, Gerrit has no such user and its command over SSH is answered, the user
  -- is created with the password and with the public key that this run made up, whatever the secrets hold, and the
  -- secrets are left as they are.
  pub expose_argo_user_again :
      (password_values key_values : Dict String) (private_key public_key answer : String)
      (c : RestyClient) (s : SshClient) (rsp : Response)
      → env.get_secret w.trace w.instance_ref.meta.namespace (Expose.argo_secret name)
        ≡ ok password_values
      → KeyPairs.generate_ssh_ed25519_key_pairs env with_password
        ≡ (ok (private_key, public_key), with_password)
      → env.get_secret with_password.trace w.instance_ref.meta.namespace
          (Expose.argo_key_secret name)
        ≡ ok key_values
      → w.rest ≡ some c
      → w.ssh_client ≡ some s
      → env.http with_keys.trace c account_request ≡ ok rsp
      → (rsp.status =? 404) ≡ true
      → Shell.run_command env s (creation public_key) (sent c account_request with_keys)
        ≡ (ok answer, after_command s (creation public_key) (sent c account_request with_keys))
      → Expose.expose_argo_user env w
        ≡ (ok tt, after_command s (creation public_key) (sent c account_request with_keys))
  unfolding Expose.expose_argo_user Expose.annotate create_secret Ssh.create_user Ssh.get_user
      set_annotation ◌>>=◌
  expose_argo_user_again password_values key_values private_key public_key answer c s rsp h1 h2 h3
        connected over h4 h5 h6 =
      rw (h1, h2, h3, send-sent, connected, h4, h5, run_command_over env _ _ s _ over h6)
