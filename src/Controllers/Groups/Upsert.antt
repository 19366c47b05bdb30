-- ===== src/Controllers/Groups/Upsert.antt =====
-- What the group controller asks of Gerrit (controllers/gerritgroup/controller.go,
-- pkg/client/gerrit/group.go).
use edp_gerrit_operator.Base.{◌<>◌, [], ◌∷◌, ◌≡◌, ◌≢◌, arith}
use edp_gerrit_operator.Base.{string_eq}
use edp_gerrit_operator.World.{Env, World}
use edp_gerrit_operator.World.Requests.{Request, put, fields, text, flag}
use edp_gerrit_operator.Exec.{wrapping, skip}
use edp_gerrit_operator.Client.Groups.{update_group}
use edp_gerrit_operator.Controllers.Groups
use edp_gerrit_operator.Controllers.Groups.{GerritGroup}

module _ (env : Env GerritGroup) (w : World GerritGroup) where
  -- The requests that a reconciliation may send.
  abbrev pub creation : Request
  creation = record {
    method = put;
    path = "groups/" <> w.instance_ref.spec.name;
    body = fields (
        ("description", text w.instance_ref.spec.description)
        ∷ ("name", text w.instance_ref.spec.name)
        ∷ ("visible_to_all", flag w.instance_ref.spec.visible_to_all)
        ∷ []);
  }

  abbrev pub new_description : Request
  new_description = record {
    method = put;
    path = "groups/" <> w.instance_ref.status.id <> "/description";
    body = fields (("description", text w.instance_ref.spec.description) ∷ []);
  }

  abbrev pub new_options : Request
  new_options = record {
    method = put;
    path = "groups/" <> w.instance_ref.status.id <> "/options";
    body = fields (("visible_to_all", flag w.instance_ref.spec.visible_to_all) ∷ []);
  }

  pub update_existing_named :
      w.instance_ref.status.id ≢ ""
      → Groups.update_existing env w.instance_ref
        ≡ wrapping "unable to update gerrit group" [] (
            update_group env w.instance_ref.status.id w.instance_ref.spec.description
              w.instance_ref.spec.visible_to_all)
  unfolding Groups.update_existing
  update_existing_named named = ground arith

  pub update_existing_unnamed :
      w.instance_ref.status.id ≡ "" → Groups.update_existing env w.instance_ref ≡ skip
  unfolding Groups.update_existing string_eq
  update_existing_unnamed unnamed = rw unnamed
