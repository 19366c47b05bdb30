-- ===== src/Service/Expose/Notes.antt =====
-- The annotations that `ExposeConfiguration` leaves (pkg/service/gerrit/gerrit.go).
use edp_gerrit_operator.Base.{
  String, false, some, List, [], ◌∷◌, ◌≡◌, refl, subst, sym, ◌==◌, string_eq, All, lookup,
  lookup-insert, arith,
}
use edp_gerrit_operator.Errors.{Outcome, ok, err, panic}
use edp_gerrit_operator.Api.{Gerrit}
use edp_gerrit_operator.World.{Env, World, Trace}
use edp_gerrit_operator.Exec.{wrapping, ◌>>=◌}
use edp_gerrit_operator.Exec.Keeps.{Keeps, traced-Keeps, wrapping-Keeps, this-Keeps}
use edp_gerrit_operator.Exec.Apart.{apart_of_calls, IsApart}
use edp_gerrit_operator.Exec.Leads.{Leads, keeps-Leads, bind-Leads, this-Leads}
use edp_gerrit_operator.Helper.Client.{update_instance}
use edp_gerrit_operator.Service.Connect
use edp_gerrit_operator.Service.Expose
use edp_gerrit_operator.Service.Apart.Access.{access_rules}

abbrev pub HasNote : String → Gerrit → String → Type 0
HasNote suffix g value =
    lookup (Expose.generate_annotation_key suffix) g.meta.annotations ≡ some value

-- The instance has its name and these annotations.
pub record Noted (name : String) (notes : List (String × String)) (w : World Gerrit) : Type 0 where
  pub named : w.instance_ref.meta.name ≡ name
  pub all : All (λ n. HasNote n.0 w.instance_ref n.1) notes

abbrev IsNew : String → List (String × String) → Type 0
IsNew suffix notes =
    All (λ n. (Expose.generate_annotation_key n.0 == Expose.generate_annotation_key suffix) ≡ false)
      notes

module _ {name : String} {notes : List (String × String)} where
  pub Noted-IsApart : (env : Env Gerrit) → IsApart env (Noted name notes)
  unfolding ◌>>=◌
  Noted-IsApart env =
      apart_of_calls env (λ A c f h. record { at = λ w k. record { named = k.named; all = k.all } })
        (λ c. record { at = λ w k. record { named = k.named; all = k.all } })
        (λ c. record { at = λ w k. record { named = k.named; all = k.all } })

still_noted :
    (suffix value : String) (g : Gerrit) (notes : List (String × String))
    → IsNew suffix notes
    → All (λ n. HasNote n.0 g n.1) notes
    → All
        (λ n.
          HasNote n.0 (Connect.set_annotation (Expose.generate_annotation_key suffix) value g) n.1)
        notes
unfolding Connect.set_annotation
still_noted suffix value g [] new h = tt
still_noted suffix value g (n ∷ notes) (other, new) (here, h) =
    (rw (lookup-insert, other) here, still_noted suffix value g notes new h)

module _ (env : Env Gerrit) (name : String) where
  annotate-Leads :
      (suffix value : String) (notes : List (String × String))
      → IsNew suffix notes
      → Leads
          (Noted name notes)
          (Expose.annotate env suffix value)
          (Noted name ((suffix, value) ∷ notes))
  unfolding Expose.annotate Connect.set_annotation ◌>>=◌
  annotate-Leads suffix value notes new = record {
    at = λ w a h e. record {
      named = h.named;
      all = (
        rw lookup-insert (ground arith),
        still_noted suffix value w.instance_ref notes new h.all,
      );
    };
  }

  -- The value is a name made from the name of the instance that was read.
  noting :
      (suffix : String) (secret_of : String → String) (notes : List (String × String))
      (read : String)
      → read ≡ name
      → IsNew suffix notes
      → Leads
          (Noted name notes)
          (Expose.annotate env suffix (secret_of read))
          (Noted name ((suffix, secret_of name) ∷ notes))
  noting suffix secret_of notes read e new =
      subst
        (λ x.
          Leads (Noted name notes) (Expose.annotate env suffix (secret_of x))
            (Noted name ((suffix, secret_of name) ∷ notes)))
        (sym e) (annotate-Leads suffix (secret_of name) notes new)

  abbrev ci_notes : List (String × String)
  ci_notes =
      ("ci-sshkey", Expose.ci_key_secret name) ∷ ("ci-credentials", Expose.ci_secret name) ∷ []

  expose_ci_user-Leads : Leads (Noted name []) (Expose.expose_ci_user env) (Noted name ci_notes)
  unfolding Expose.expose_ci_user string_eq
  expose_ci_user-Leads = this-Leads _ λ w h. bind-Leads _ _ (keeps-Leads _ traced-Keeps) λ t.
      bind-Leads _ _ (keeps-Leads _ (search (access_rules, Noted-IsApart env))) λ _.
        bind-Leads _ _ (noting "ci-credentials" Expose.ci_secret [] _ h.named tt) λ _.
          bind-Leads _ _ (keeps-Leads _ (search (access_rules, Noted-IsApart env))) λ credentials.
            bind-Leads _ _ (keeps-Leads _ (search (access_rules, Noted-IsApart env))) λ pair.
              bind-Leads _ _ (keeps-Leads _ this-Keeps) λ g.
                bind-Leads _ _ (keeps-Leads _ (search (access_rules, Noted-IsApart env))) λ _.
                  bind-Leads _ _ (noting "ci-sshkey" Expose.ci_key_secret _ _ h.named (refl, tt))
                    λ _.
                      bind-Leads _ _ (keeps-Leads _ (search (access_rules, Noted-IsApart env)))
                        λ _. keeps-Leads _ (search (access_rules, Noted-IsApart env))

  abbrev pub exposed_notes : List (String × String)
  exposed_notes =
      ("argocd-sshkey", Expose.argo_key_secret name)
      ∷ ("argocd-credentials", Expose.argo_secret name)
      ∷ ci_notes

  expose_argo_user-Leads :
      Leads (Noted name ci_notes) (Expose.expose_argo_user env) (Noted name exposed_notes)
  unfolding Expose.expose_argo_user string_eq
  expose_argo_user-Leads = this-Leads _ λ w h. bind-Leads _ _ (keeps-Leads _ traced-Keeps) λ t.
      bind-Leads _ _ (keeps-Leads _ (search (access_rules, Noted-IsApart env))) λ _.
        bind-Leads _ _
          (noting "argocd-credentials" Expose.argo_secret _ _ h.named (refl, (refl, tt)))
          λ _. bind-Leads _ _ (keeps-Leads _ (search (access_rules, Noted-IsApart env))) λ pair.
            bind-Leads _ _ (keeps-Leads _ this-Keeps) λ g.
              bind-Leads _ _ (keeps-Leads _ (search (access_rules, Noted-IsApart env))) λ _.
                bind-Leads _ _
                  (noting "argocd-sshkey" Expose.argo_key_secret _ _ h.named
                    (refl, (refl, (refl, tt))))
                  λ _. keeps-Leads _ (search (access_rules, Noted-IsApart env))

  identity-Keeps :
      (value : String)
      → Keeps (Noted name exposed_notes) (Expose.annotate env "is-credentials" value)
  unfolding Expose.annotate Connect.set_annotation string_eq ◌>>=◌
  identity-Keeps value = record {
    at = λ w k. record {
      named = k.named;
      all =
          still_noted "is-credentials" value w.instance_ref exposed_notes
            (refl, (refl, (refl, (refl, tt)))) k.all;
    };
  }

  module _
      (saved : (t : Trace Gerrit) (g g' : Gerrit) → env.update t g ≡ ok g' → g'.meta ≡ g.meta) where
    saved_notes :
        (w : World Gerrit) (r : Outcome Gerrit)
        → env.update w.trace w.instance_ref ≡ r
        → Noted name exposed_notes w
        → Noted name exposed_notes (update_instance env w).1
    unfolding update_instance ◌>>=◌
    saved_notes w (ok g) h k =
        let same = sym (saved _ _ _ h) in
        rw h (record {
          named = subst (λ m. m.name ≡ name) same k.named;
          all =
              subst
                (λ m.
                  All (λ n. lookup (Expose.generate_annotation_key n.0) m.annotations ≡ some n.1)
                    exposed_notes)
                same k.all;
        })
    saved_notes w (err e) h k = rw h (record { named = k.named; all = k.all })
    saved_notes w panic h k = rw h (record { named = k.named; all = k.all })

    updating-Keeps :
        (text : String) (args : List String)
        → Keeps (Noted name exposed_notes) (wrapping text args (update_instance env))
    updating-Keeps text args =
        wrapping-Keeps text args (update_instance env)
          (record { at = λ w k. saved_notes w _ refl k })

    expose_identity-Keeps : Keeps (Noted name exposed_notes) (Expose.expose_identity env)
    unfolding Expose.expose_identity
    expose_identity-Keeps =
        search (access_rules, Noted-IsApart env, identity-Keeps, updating-Keeps) depth 24

    expose_configuration-Leads :
        Leads (Noted name []) (Expose.expose_configuration env) (Noted name exposed_notes)
    unfolding Expose.expose_configuration Expose.expose_argo_cd_configuration
    expose_configuration-Leads = bind-Leads _ _ (keeps-Leads _ this-Keeps) λ g.
        bind-Leads _ _ (keeps-Leads _ (search (access_rules, Noted-IsApart env))) λ _.
          bind-Leads _ _ (keeps-Leads _ (search (access_rules, Noted-IsApart env))) λ _.
            bind-Leads _ _ expose_ci_user-Leads λ _.
              bind-Leads _ _
                (bind-Leads _ _ expose_argo_user-Leads
                  λ _. keeps-Leads _ (search (access_rules, Noted-IsApart env)))
                λ _.
                  bind-Leads _ _ (keeps-Leads _ (updating-Keeps _ _))
                    λ _. keeps-Leads _ expose_identity-Keeps

    -- Where an update of the instance answers with the metadata that was sent, an instance whose configuration is
    -- exposed has the annotations that name the four secrets, of the CI user and of the Argo CD user.
    pub expose_configuration_notes :
        (w : World Gerrit)
        → w.instance_ref.meta.name ≡ name
        → (Expose.expose_configuration env w).0 ≡ ok tt
        → (let g = (Expose.expose_configuration env w).1.instance_ref in
            HasNote "ci-credentials" g (Expose.ci_secret name)
            × HasNote "ci-sshkey" g (Expose.ci_key_secret name)
            × HasNote "argocd-credentials" g (Expose.argo_secret name)
            × HasNote "argocd-sshkey" g (Expose.argo_key_secret name))
    expose_configuration_notes w e done =
        let (argo_keys, (argo, (ci_keys, (ci, _)))) =
          (expose_configuration-Leads.at w tt (record { named = e; all = tt }) done).all in
        (ci, ci_keys, argo, argo_keys)
