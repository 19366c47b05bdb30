-- ===== src/Tests/Services.antt =====
-- The theorems on key pairs, group members and project accesses at concrete inputs.
use edp_gerrit_operator.Base.{pos, true, false, [], ◌∷◌, ◌≡◌, refl, string_eq}
use edp_gerrit_operator.Errors.{ok}
use edp_gerrit_operator.Api.Specs.{Reference}
use edp_gerrit_operator.World.{Env}
use edp_gerrit_operator.Client.Rest.Answers.{sent}
use edp_gerrit_operator.Controllers.Members.{GerritGroupMember}
use edp_gerrit_operator.Controllers.Accesses
use edp_gerrit_operator.Controllers.Accesses.{GerritProjectAccess}
use edp_gerrit_operator.Controllers.Accesses.Writing
use edp_gerrit_operator.Tests.Samples.{no_env, meta, connected, connection, response}

abbrev member : GerritGroupMember
member = record {
  meta = meta "ann";
  spec = record { group_id = "developers"; account_id = "ann"; owner_name = "gerrit" };
  status = record { value = ""; failure_count = pos 3 };
}

abbrev push_right : Reference
push_right = record {
  pattern_text = "refs/heads/main";
  permission_name = "push";
  permission_label = "";
  group_name = "developers";
  action = "ALLOW";
  force = false;
  min = pos 0;
  max = pos 0;
}

abbrev access : GerritProjectAccess
access = record {
  meta = meta "access";
  spec = record {
    project_name = "tools";
    owner_name = "gerrit";
    parent = "";
    references = push_right ∷ [];
  };
  status = record { created = true; value = "OK" };
}

abbrev accepting : Env GerritProjectAccess
accepting = record no_env { http = λ _ _ _. ok (response 200) }

write_access_sends_example :
    Accesses.write_access accepting access (connected access)
    ≡ (ok tt, sent connection (Writing.rights true "tools" (push_right ∷ [])) (connected access))
write_access_sends_example =
    Writing.write_access_sends accepting access (connected access) connection refl (response 200)
      refl
