-- ===== src/Controllers/MergeRequests/Files.antt =====
-- Which files a merge request commits (`commitFiles` of controllers/merge_request/controller.go).
use edp_gerrit_operator.Base.{
  String, Bool, true, false, Bool-cases, Option-cases, none, some, List, [], ◌∷◌, ◌++◌, ◌≡◌, refl,
  sym, ◌∙◌, subst, Dict, inl, inr, arith, if◌then◌else◌,
}
use mathlib.Core.List.{append_assoc, append-nil}
use edp_gerrit_operator.Errors.{Error, Outcome, ok, err, panic}
use edp_gerrit_operator.World.{Env, World, Call, Trace}
use edp_gerrit_operator.World.Objects.{MrConfigMapFile}
use edp_gerrit_operator.World.Repos.{RepoCall}
use edp_gerrit_operator.World.Repos
use edp_gerrit_operator.Exec.{M, ◌>>=◌, wrapping, pure}
use edp_gerrit_operator.Client.Git.{GitClient}
use edp_gerrit_operator.Client.Git as Client
use edp_gerrit_operator.Controllers.MergeRequests.Git
use edp_gerrit_operator.Controllers.MergeRequests.Git.{GerritMergeRequest}

module _ (env : Env GerritMergeRequest) (client : GitClient) (project : String) where
  -- Where a file of the project lies.
  abbrev pub place : MrConfigMapFile → String
  place f = env.path_join (env.path_join client.working_dir project) f.path

  -- The paths that the entries of a config map give, in their order, where the calls of the trace have been made:
  -- of an entry with contents, once its file is written; and of one without, where the removal of the file
  -- is answered by success, not where it is answered that there is no such file.
  pub data Selects : Trace GerritMergeRequest → Dict String → List String → Type 0 where
    none_left : {t : Trace GerritMergeRequest} → Selects t [] []
    written :
        {t : Trace GerritMergeRequest} {key contents : String} {rest : Dict String}
        {paths : List String} (f : MrConfigMapFile) (text : String)
        → env.decode_mr_file contents ≡ ok f
        → f.contents ≡ some text
        → Selects
            (Call.repo (Repos.close_file (place f))
              ∷ Call.repo (Repos.write_string (place f) text)
              ∷ Call.repo (Repos.create_file (place f))
              ∷ t)
            rest
            paths
        → Selects t ((key, contents) ∷ rest) (f.path ∷ paths)
    removed :
        {t : Trace GerritMergeRequest} {key contents : String} {rest : Dict String}
        {paths : List String} (f : MrConfigMapFile)
        → env.decode_mr_file contents ≡ ok f
        → f.contents ≡ none
        → env.repos.act t (Repos.remove_path (place f)) ≡ ok tt
        → Selects (Call.repo (Repos.remove_path (place f)) ∷ t) rest paths
        → Selects t ((key, contents) ∷ rest) (f.path ∷ paths)
    absent :
        {t : Trace GerritMergeRequest} {key contents : String} {rest : Dict String}
        {paths : List String} (f : MrConfigMapFile) (e : Error)
        → env.decode_mr_file contents ≡ ok f
        → f.contents ≡ none
        → env.repos.act t (Repos.remove_path (place f)) ≡ err e
        → env.repos.is_not_exist e ≡ true
        → Selects (Call.repo (Repos.remove_path (place f)) ∷ t) rest paths
        → Selects t ((key, contents) ∷ rest) paths

  abbrev W : Type 0
  W = World GerritMergeRequest

  abbrev after : RepoCall → W → W
  after r w = record w { trace = Call.repo r ∷ w.trace }

  abbrev with_text : MrConfigMapFile → String → M GerritMergeRequest Bool
  with_text f text =
      wrapping "unable to set file contents" []
        (Client.set_file_contents env client project f.path text)
      >>= λ _. pure true

  stored :
      (f : MrConfigMapFile) (text : String) (w : W) (a : Bool) (x y z : Outcome (Unit {0}))
      → (let w' = after (Repos.create_file (place f)) w in
          let w'' = after (Repos.write_string (place f) text) w' in
          env.repos.act w.trace (Repos.create_file (place f)) ≡ x
          → env.repos.act w'.trace (Repos.write_string (place f) text) ≡ y
          → env.repos.act w''.trace (Repos.close_file (place f)) ≡ z
          → (with_text f text w).0 ≡ ok a
          → (a ≡ true)
            × ((with_text f text w).1.trace ≡ (after (Repos.close_file (place f)) w'').trace))
  unfolding ◌>>=◌ Client.set_file_contents Client.project_path
  stored f text w a (ok _) (ok _) (ok _) h k l = rw (h, k, l) (λ done. (ground arith, refl))
  stored f text w a (ok _) (ok _) (err e) h k l = rw (h, k, l) (λ done. absurd (ground arith))
  stored f text w a (ok _) (ok _) panic h k l = rw (h, k, l) (λ done. absurd (ground arith))
  stored f text w a (ok _) (err e) z h k l = rw (h, k) (λ done. absurd (ground arith))
  stored f text w a (ok _) panic z h k l = rw (h, k) (λ done. absurd (ground arith))
  stored f text w a (err e) y z h k l = rw h (λ done. absurd (ground arith))
  stored f text w a panic y z h k l = rw h (λ done. absurd (ground arith))

  -- The courses of the writing of one file that returns.
  data Wrote (f : MrConfigMapFile) (t : Trace GerritMergeRequest)
      : Bool → Trace GerritMergeRequest → Type 0 where
    wrote :
        (text : String)
        → f.contents ≡ some text
        → Wrote f t true (
            Call.repo (Repos.close_file (place f))
            ∷ Call.repo (Repos.write_string (place f) text)
            ∷ Call.repo (Repos.create_file (place f))
            ∷ t)
    took :
        f.contents ≡ none
        → env.repos.act t (Repos.remove_path (place f)) ≡ ok tt
        → Wrote f t true (Call.repo (Repos.remove_path (place f)) ∷ t)
    lacked :
        (e : Error)
        → f.contents ≡ none
        → env.repos.act t (Repos.remove_path (place f)) ≡ err e
        → env.repos.is_not_exist e ≡ true
        → Wrote f t false (Call.repo (Repos.remove_path (place f)) ∷ t)

  removing :
      (f : MrConfigMapFile) (w : W) (changed : Bool) (x : Outcome (Unit {0}))
      → f.contents ≡ none
      → env.repos.act w.trace (Repos.remove_path (place f)) ≡ x
      → (let m =
            wrapping "unable to remove file" [] (Client.remove_file env client project f.path) in
          (m w).0 ≡ ok changed → Wrote f w.trace changed (m w).1.trace)
  unfolding ◌>>=◌ Client.remove_file Client.project_path
  removing f w true (ok tt) e h = rw h (λ done. took e h)
  removing f w false (ok tt) e h = rw h (λ done. absurd (ground arith))
  removing f w true (err d) e h = elim (Bool-cases (env.repos.is_not_exist d)) [
    | inl gone ↦ rw (h, gone) (λ done. absurd (ground arith))
    | inr other ↦ rw (h, other) (λ done. absurd (ground arith))
  ]
  removing f w false (err d) e h = elim (Bool-cases (env.repos.is_not_exist d)) [
    | inl gone ↦ rw (h, gone) (λ done. lacked d e h gone)
    | inr other ↦ rw (h, other) (λ done. absurd (ground arith))
  ]
  removing f w changed panic e h = rw h (λ done. absurd (ground arith))

  writing :
      (f : MrConfigMapFile) (text : String) (w : W) (changed : Bool)
      → f.contents ≡ some text
      → (with_text f text w).0 ≡ ok changed
      → Wrote f w.trace changed (with_text f text w).1.trace
  writing f text w changed e done =
      let (a, t) = stored f text w changed _ _ _ refl refl refl done in
      subst (λ b. Wrote f w.trace b (with_text f text w).1.trace) (sym a)
        (subst (λ u. Wrote f w.trace true u) (sym t) (wrote text e))

  abbrev Courses : MrConfigMapFile → W → Bool → M GerritMergeRequest Bool → Type 0
  Courses f w changed m = (m w).0 ≡ ok changed → Wrote f w.trace changed (m w).1.trace

  without_text :
      (f : MrConfigMapFile)
      → f.contents ≡ none
      → Git.write_file env client project f
        ≡ wrapping "unable to remove file" [] (Client.remove_file env client project f.path)
  unfolding Git.write_file
  without_text f e = rw e

  having_text :
      (f : MrConfigMapFile) (text : String)
      → f.contents ≡ some text
      → Git.write_file env client project f ≡ with_text f text
  unfolding Git.write_file
  having_text f text e = rw e

  -- A file that is written takes one of the courses.
  write_file-Wrote :
      (f : MrConfigMapFile) (w : W) (changed : Bool)
      → Courses f w changed (Git.write_file env client project f)
  write_file-Wrote f w changed = elim (Option-cases f.contents) [
    | inl e ↦
        subst (λ m. Courses f w changed m) (sym (without_text f e)) (removing f w changed _ e refl)
    | inr (text, e) ↦
        subst (λ m. Courses f w changed m) (sym (having_text f text e)) (writing f text w changed e)
  ]

  selected :
      {key contents : String} {rest : Dict String} (added out : List String) (f : MrConfigMapFile)
      (changed : Bool) (t u : Trace GerritMergeRequest)
      → env.decode_mr_file contents ≡ ok f
      → Wrote f t changed u
      → (paths : List String) × (out ≡ (if changed then added ++ f.path ∷ [] else added) ++ paths)
        × Selects u rest paths
      → (paths : List String) × (out ≡ added ++ paths) × Selects t ((key, contents) ∷ rest) paths
  selected added out f _ t _ decoded (wrote text e) (paths, same, s) =
      (f.path ∷ paths, same ∙ append_assoc added (f.path ∷ []) paths, written f text decoded e s)
  selected added out f _ t _ decoded (took e h) (paths, same, s) =
      (f.path ∷ paths, same ∙ append_assoc added (f.path ∷ []) paths, removed f decoded e h s)
  selected added out f _ t _ decoded (lacked e gone h lost) (paths, same, s) =
      (paths, same, absent f e decoded gone h lost s)

  abbrev Picks : Dict String → List String → List String → W → Type 0
  Picks files added out w =
      (paths : List String) × (out ≡ added ++ paths) × Selects w.trace files paths

  abbrev Picked : Dict String → List String → List String → W → Type 0
  Picked files added out w =
      (Git.write_files env client project files added w).0 ≡ ok out → Picks files added out w

  after_file :
      (key contents : String) (rest : Dict String) (added out : List String) (w : W)
      (f : MrConfigMapFile) (r : Outcome Bool)
      → ((more : List String) (v : W) → Picked rest more out v)
      → env.decode_mr_file contents ≡ ok f
      → (Git.write_file env client project f w).0 ≡ r
      → Picked ((key, contents) ∷ rest) added out w
  unfolding Git.write_files ◌>>=◌
  after_file key contents rest added out w f (ok changed) next decoded e =
      rw (decoded, e)
        (λ done.
          selected added out f changed w.trace _ decoded (write_file-Wrote f w changed e)
            (next _ _ done))
  after_file key contents rest added out w f (err d) next decoded e =
      rw (decoded, e) (λ done. absurd (ground arith))
  after_file key contents rest added out w f panic next decoded e =
      rw (decoded, e) (λ done. absurd (ground arith))

  after_decoding :
      (key contents : String) (rest : Dict String) (added out : List String) (w : W)
      (r : Outcome MrConfigMapFile)
      → ((more : List String) (v : W) → Picked rest more out v)
      → env.decode_mr_file contents ≡ r
      → Picked ((key, contents) ∷ rest) added out w
  unfolding Git.write_files ◌>>=◌
  after_decoding key contents rest added out w (ok f) next decoded =
      after_file key contents rest added out w f _ next decoded refl
  after_decoding key contents rest added out w (err d) next decoded =
      rw decoded (λ done. absurd (ground arith))
  after_decoding key contents rest added out w panic next decoded =
      rw decoded (λ done. absurd (ground arith))

  picked : (files : Dict String) (added out : List String) (w : W) → Picked files added out w
  unfolding Git.write_files ◌>>=◌
  picked [] added out w done =
      let same : added ≡ out = ground arith in ([], sym same ∙ sym (append-nil added), none_left)
  picked ((key, contents) ∷ rest) added out w done =
      after_decoding key contents rest added out w _ (λ more v. picked rest more out v) refl done

  -- Where the loop over the config map comes to its end, the paths that are committed are, in the order of the
  -- entries, those of all entries with contents and, of the entries without, those whose file was there to
  -- be removed; an entry whose removal finds no file gives none.
  pub write_files_selects :
      (files : Dict String) (w : W) (out : List String)
      → (Git.write_files env client project files [] w).0 ≡ ok out
      → Selects w.trace files out
  write_files_selects files w out done =
      let (paths, e, s) = picked files [] out w done in
      subst (λ l. Selects w.trace files l) (sym e) s
