-- ===== src/Controllers/Projects/Upsert.antt =====
-- What the project controller asks of Gerrit (controllers/gerritproject/controller.go,
-- pkg/client/gerrit/project.go).
use edp_gerrit_operator.Base.{◌<>◌, [], ◌∷◌}
use edp_gerrit_operator.Api.Specs.{GerritProjectSpec}
use edp_gerrit_operator.World.{Env}
use edp_gerrit_operator.World.Requests.{Request, get, put, no_body, fields, text, project_body}
use edp_gerrit_operator.Client.Projects.{project_path}
use edp_gerrit_operator.Controllers.Projects
use edp_gerrit_operator.Controllers.Projects.{GerritProject}

module _ (env : Env GerritProject) (s : GerritProjectSpec) where
  -- The question whether the project is there.
  abbrev pub asked : Request
  asked = record { method = get; path = project_path env s.name; body = no_body }

  -- The three requests that write.
  abbrev pub creation : Request
  creation = record {
    method = put;
    path = project_path env s.name;
    body = project_body (Projects.wanted s);
  }

  abbrev pub new_description : Request
  new_description = record {
    method = put;
    path = project_path env s.name <> "/description";
    body = fields (
        ("description", text s.description)
        ∷ ("commit_message", text "Update the project description")
        ∷ []);
  }

  abbrev pub new_parent : Request
  new_parent = record {
    method = put;
    path = project_path env s.name <> "/parent";
    body =
        fields
          (("parent", text s.parent) ∷ ("commit_message", text "Update the project parent") ∷ []);
  }
