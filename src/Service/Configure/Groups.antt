-- ===== src/Service/Configure/Groups.antt =====
-- The groups that `Configure` makes (pkg/service/gerrit/gerrit.go).
use edp_gerrit_operator.Base.{String, some, ◌∷◌, [], ◌≡◌, true, false, ◌=?◌}
use edp_gerrit_operator.Errors.{ok, err, Response, wrapped, already_exists}
use edp_gerrit_operator.Api.{Gerrit}
use edp_gerrit_operator.World.{Env, World}
use edp_gerrit_operator.World.Requests.{RestyClient, Request, put, fields, text, flag}
use edp_gerrit_operator.World.Shells.{SshClient}
use edp_gerrit_operator.Exec.{◌>>=◌}
use edp_gerrit_operator.Client.Rest.Answers.{sent, send-sent}
use edp_gerrit_operator.Client.Groups.{create_group}
use edp_gerrit_operator.Client.Shell
use edp_gerrit_operator.Client.Ssh.{init_new_ssh_client}
use edp_gerrit_operator.Service.Connect.{admin_user}
use edp_gerrit_operator.Service.Configure
use edp_gerrit_operator.Service.Configure.{Site, ci_tools, bootstrappers}
use edp_gerrit_operator.Service.Configure.Checks.{
  listed, group_request, Lacks, Has, check_group-Lacks, check_group-Has,
}

abbrev pub ci_tools_request : Request
ci_tools_request = record {
  method = put;
  path = "groups/Continuous Integration Tools";
  body = fields (
      ("description", text "Contains CI tools that get +2/-2 access on reviews")
      ∷ ("name", text "Continuous Integration Tools")
      ∷ ("visible_to_all", flag true)
      ∷ []);
}

module _ {O : Type 0} (env : Env O) (g : Gerrit) (site : Site) (key : String) (w : World O)
    (s : SshClient) (c : RestyClient) (groups line uuid : String) (rsp : Response)
    (tools : Has env ci_tools w s groups c line uuid rsp)
    (found : (rsp.status =? 404) ≡ false) where
  abbrev pub checked : World O
  checked = sent c (group_request uuid) (listed s w)

  -- The world after the SSH client was made again with this key.
  abbrev pub with_client : String → World O
  with_client signer = record (listed s checked) {
    ssh_client =
        some (record { user = admin_user; signer = signer; host = site.ssh_url; port = site.port });
  }

  -- Where both groups are there, they are looked for with four calls and nothing else is done: no group is created,
  -- and the script that sets up All-Projects is not run, also where it failed before.
  pub ensure_groups_present :
      (line' uuid' : String) (rsp' : Response)
      → Has env bootstrappers checked s groups c line' uuid' rsp'
      → (rsp'.status =? 404) ≡ false
      → Configure.ensure_groups env g site key w
        ≡ (ok tt, sent c (group_request uuid') (listed s checked))
  unfolding Configure.ensure_groups ◌>>=◌
  ensure_groups_present line' uuid' rsp' boot found' = rw (
    check_group-Has env ci_tools w s groups c line uuid rsp tools,
    check_group-Has env bootstrappers checked s groups c line' uuid' rsp' boot,
    found,
    found',
  )

  -- Where the first group is there and the second is missing, as after a configuration that failed between the two,
  -- the first is created again; Gerrit answers that it exists, and the configuration fails.
  pub ensure_groups_half :
      (groups' signer : String) (refusal : Response)
      → Lacks env bootstrappers checked s groups'
      → env.shells.parse_private_key key ≡ ok signer
      → env.http (listed s checked).trace c ci_tools_request ≡ ok refusal
      → env.is_error refusal ≡ true
      → (refusal.status =? 409) ≡ true
      → Configure.ensure_groups env g site key w ≡ (
        err (
            wrapped "failed to create Gerrit group %q"
              (ci_tools ∷ [])
              (already_exists "already exists")),
        sent c ci_tools_request (with_client signer),
      )
  unfolding Configure.ensure_groups Configure.create_groups create_group init_new_ssh_client
      Shell.ssh_init ◌>>=◌
  ensure_groups_half groups' signer refusal boot reached answered refused there = rw (
    check_group-Has env ci_tools w s groups c line uuid rsp tools,
    check_group-Lacks env bootstrappers checked s groups' boot,
    found,
    reached,
    send-sent,
    tools.connected,
    answered,
    refused,
    there,
  )
