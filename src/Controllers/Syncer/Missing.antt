-- ===== src/Controllers/Syncer/Missing.antt =====
-- Which projects the synchronisation creates (controllers/gerritproject/syncer.go).
use edp_gerrit_operator.Base.{
  ℕ, String, Option, Option-cases, none, some, List, [], ◌∷◌, ◌≡◌, refl, ◌∙◌, ap, Dict, lookup, inl,
  inr,
}
use edp_gerrit_operator.Errors.{Outcome, ok}
use edp_gerrit_operator.Api.{Gerrit}
use edp_gerrit_operator.World.{Env, World, Call, Trace}
use edp_gerrit_operator.World.Requests.{RestyClient, Request, Method, Body, Project}
use edp_gerrit_operator.Exec.{◌>>=◌, call, assign, wrapping}
use edp_gerrit_operator.Exec.Keeps.{Keeps, keeps_rules}
use edp_gerrit_operator.Exec.Leads.{Leads, keeps-Leads, bind-Leads}
use edp_gerrit_operator.Client.Rest.{send, send_by, decode_gerrit_response}
use edp_gerrit_operator.Client.Projects.{list_project_branches}
use edp_gerrit_operator.Helper.Client.{get_instance, update_instance_status}
use edp_gerrit_operator.Controllers.Projects.{GerritProject}
use edp_gerrit_operator.Controllers.Syncer

-- The resources that were created, newest first.
abbrev pub creations : Trace GerritProject → List GerritProject
creations [] = []
creations (Call.create p ∷ t) = p ∷ creations t
creations (c ∷ t) = creations t

abbrev IsIdle : Call GerritProject → Type 0
IsIdle (Call.create _) = ⊥
IsIdle _ = Unit

creations-idle :
    (c : Call GerritProject) (t : Trace GerritProject) → IsIdle c → creations (c ∷ t) ≡ creations t
creations-idle (Call.create p) t h = absurd h
creations-idle c t h = refl

pub record Created (made : List GerritProject) (w : World GerritProject) : Type 0 where
  pub same : creations w.trace ≡ made

module _ {made : List GerritProject} where
  call-Created :
      {A : Type 0} (c : Call GerritProject) (f : Trace GerritProject → Outcome A)
      → IsIdle c
      → Keeps (Created made) (call c f)
  unfolding ◌>>=◌
  call-Created c f q = record { at = λ w h. record { same = creations-idle c w.trace q ∙ h.same } }

  assign-Created : (o : GerritProject) → Keeps (Created made) (assign o)
  unfolding ◌>>=◌
  assign-Created o = record { at = λ w h. record { same = h.same } }

  ruleset created_rules = (keeps_rules, call-Created, assign-Created, tt)

  module _ (env : Env GerritProject) where
    send_by-Created :
        (r : Request) (c : Option RestyClient) → Keeps (Created made) (send_by env r c)
    unfolding send_by
    send_by-Created r none = search created_rules
    send_by-Created r (some c) = search created_rules

    send-Created :
        (m : Method) (path : String) (b : Body) → Keeps (Created made) (send env m path b)
    unfolding send
    send-Created m path b = search (created_rules, send_by-Created)

    decode-Created :
        {A : Type 0} (f : List ℕ → Outcome A) (body : List ℕ)
        → Keeps (Created made) (decode_gerrit_response env f body)
    unfolding decode_gerrit_response
    decode-Created f body = search created_rules

    branches-Created : (name : String) → Keeps (Created made) (list_project_branches env name)
    unfolding list_project_branches
    branches-Created name = search (created_rules, send-Created, decode-Created) depth 14

    get_instance-Created :
        (namespace name : String) → Keeps (Created made) (get_instance env namespace name)
    unfolding get_instance
    get_instance-Created namespace name = search created_rules

    status-Created : Keeps (Created made) (update_instance_status env)
    unfolding update_instance_status
    status-Created = search created_rules

    sync_project_branches-Created :
        (p : GerritProject) → Keeps (Created made) (Syncer.sync_project_branches env p)
    unfolding Syncer.sync_project_branches
    sync_project_branches-Created p =
        search (created_rules, branches-Created, get_instance-Created, status-Created) depth 14

module _ (env : Env GerritProject) (g : Gerrit) (k8s_projects : Dict GerritProject) where
  -- A project and those after it, without it where it has a resource.
  abbrev pub unless_known : Project → Option GerritProject → List Project → List Project
  unless_known p none rest = p ∷ rest
  unless_known p (some _) rest = rest

  -- The projects that have no resource, in the order in which Gerrit lists them.
  abbrev pub missing : List Project → List Project
  missing [] = []
  missing (p ∷ projects) = unless_known p (lookup p.name k8s_projects) (missing projects)

  -- Their new resources on top of those that were created before, newest first.
  abbrev pub created_for : List Project → List GerritProject → List GerritProject
  created_for [] made = made
  created_for (p ∷ projects) made = created_for projects (Syncer.new_project env g p ∷ made)

  found_or_created-Leads :
      (p : Project) (r : Option GerritProject) (made : List GerritProject)
      → Leads
          (Created made)
          (Syncer.found_or_created env g p r)
          (Created (elim r [ none ↦ Syncer.new_project env g p ∷ made | some _ ↦ made ]))
  unfolding Syncer.found_or_created Syncer.create_gerrit_project ◌>>=◌
  found_or_created-Leads p none made = record {
    at = λ w a h e. record { same = ap (λ xs. Syncer.new_project env g p ∷ xs) h.same };
  }
  found_or_created-Leads p (some k) made = record { at = λ w a h e. h }

  branches-Leads :
      (k : GerritProject) (made : List GerritProject)
      → Leads
          (Created made)
          (wrapping "unable to sync gerrit project branches" []
            (Syncer.sync_project_branches env k))
          (Created made)
  branches-Leads k made = keeps-Leads _ (search (keeps_rules, sync_project_branches-Created env))

  sync_projects-Leads :
      (projects : List Project) (made : List GerritProject)
      → Leads
          (Created made)
          (Syncer.sync_projects env g k8s_projects projects)
          (Created (created_for (missing projects) made))
  unfolding Syncer.sync_projects
  sync_projects-Leads [] made = keeps-Leads _ (search keeps_rules)
  sync_projects-Leads (p ∷ projects) made = elim (Option-cases (lookup p.name k8s_projects)) [
    | inl e ↦ rw e (
        bind-Leads _ _ (found_or_created-Leads p none made)
          (λ k. bind-Leads _ _ (branches-Leads k _) (λ _. sync_projects-Leads projects _)))
    | inr (k, e) ↦ rw e (
        bind-Leads _ _ (found_or_created-Leads p (some k) made)
          (λ k'. bind-Leads _ _ (branches-Leads k' _) (λ _. sync_projects-Leads projects _)))
  ]

  -- Where the projects of a Gerrit were synchronised, the resources that were created are exactly those of the
  -- projects that had none, each once for each time that Gerrit lists it, and in Gerrit's order.
  pub sync_projects_creates :
      (projects : List Project) (w : World GerritProject)
      → (Syncer.sync_projects env g k8s_projects projects w).0 ≡ ok tt
      → creations (Syncer.sync_projects env g k8s_projects projects w).1.trace
        ≡ created_for (missing projects) (creations w.trace)
  sync_projects_creates projects w done =
      ((sync_projects-Leads projects (creations w.trace)).at w tt (record { same = refl })
        done).same
