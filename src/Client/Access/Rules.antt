-- ===== src/Client/Access/Rules.antt =====
-- What an access request grants, against the list of permissions that it is generated from
-- (`generateSetAccessRequest` of pkg/client/gerrit/project_access.go).
use mathlib.Core.Option
use edp_gerrit_operator.Base.{String, Bool, List, [], ◌∷◌, Option, none, some, Dict, lookup}
use edp_gerrit_operator.Base.{
  ◌≡◌, ◌==◌, ◌&&◌, string_eq, arith, if◌then◌else◌, lookup-insert, lookup-nil,
}
use edp_gerrit_operator.World.Requests.{AccessInfo, GroupPermissions, Permission, RefPermissions}
use edp_gerrit_operator.Client.Access.Request

-- The rule of a request at a reference, a permission and a group.
abbrev pub permission_at : Dict RefPermissions → String → String → Option Permission
permission_at refs r p = elim (lookup r refs) [ none ↦ none | some ref ↦ lookup p ref.permissions ]

abbrev pub rule_at : Dict RefPermissions → String → String → String → Option GroupPermissions
rule_at refs r p g = elim (permission_at refs r p) [ none ↦ none | some perm ↦ lookup g perm.rules ]

abbrev pub label_at : Dict RefPermissions → String → String → Option String
label_at refs r p = elim (permission_at refs r p) [ none ↦ none | some perm ↦ some perm.label ]

-- The first entry of a list that a test accepts.
abbrev pub find_first : (AccessInfo → Bool) → List AccessInfo → Option AccessInfo
find_first test [] = none
find_first test (x ∷ xs) = if test x then some x else find_first test xs

abbrev pub is_for : String → String → String → AccessInfo → Bool
is_for r p g x = (r == x.ref_pattern && p == x.permission_name) && g == x.group_name

abbrev pub is_for_permission : String → String → AccessInfo → Bool
is_for_permission r p x = r == x.ref_pattern && p == x.permission_name

abbrev or_else {ℓ} : {A : Type ℓ} → Option A → Option A → Option A
or_else none o = o
or_else (some a) o = some a

module _ (added modified : Bool) (r p : String) where
  label_at-add :
      (x : AccessInfo) (refs : Dict RefPermissions)
      → label_at (Request.add_permission added modified x refs) r p
        ≡ or_else
            (label_at refs r p)
            (if is_for_permission r p x then some x.permission_label else none)
  unfolding Request.add_permission
  label_at-add x refs = grind (arith, lookup-insert, lookup-nil)

  rule_at-add :
      (g : String) (x : AccessInfo) (refs : Dict RefPermissions)
      → rule_at (Request.add_permission added modified x refs) r p g
        ≡ or_else
            (rule_at refs r p g)
            (if is_for r p g x then some (Request.group_permissions x added modified) else none)
  unfolding Request.add_permission
  rule_at-add g x refs = grind (arith, lookup-insert, lookup-nil)

  rule_at-add_all :
      (g : String) (xs : List AccessInfo) (refs : Dict RefPermissions)
      → rule_at (Request.add_permissions added modified xs refs) r p g
        ≡ or_else (rule_at refs r p g) (
            Option.map
              (λ x. Request.group_permissions x added modified)
              (find_first (is_for r p g) xs))
  unfolding Request.add_permissions
  rule_at-add_all g [] refs = ground arith
  rule_at-add_all g (x ∷ xs) refs = rw (rule_at-add_all g xs, rule_at-add) (ground arith)

  label_at-add_all :
      (xs : List AccessInfo) (refs : Dict RefPermissions)
      → label_at (Request.add_permissions added modified xs refs) r p
        ≡ or_else
            (label_at refs r p)
            (Option.map (λ x. x.permission_label) (find_first (is_for_permission r p) xs))
  unfolding Request.add_permissions
  label_at-add_all [] refs = ground arith
  label_at-add_all (x ∷ xs) refs = rw (label_at-add_all xs, label_at-add) (ground arith)

  -- The generated request has a rule at a reference, permission and group exactly when the list
  -- has an entry for these three, and the rule is then that of the first such entry, with the
  -- two given flags.
  pub rule_at-generate :
      (g : String) (xs : List AccessInfo)
      → rule_at (Request.generate_set_access_request xs added modified) r p g
        ≡ Option.map
            (λ x. Request.group_permissions x added modified)
            (find_first (is_for r p g) xs)
  unfolding Request.generate_set_access_request
  rule_at-generate g xs = rw rule_at-add_all (ground (arith, lookup-nil {V = RefPermissions} r))

  -- The generated request has a permission at a reference exactly when the list has an entry for
  -- these two, and its label is then that of the first such entry.
  pub label_at-generate :
      (xs : List AccessInfo)
      → label_at (Request.generate_set_access_request xs added modified) r p
        ≡ Option.map (λ x. x.permission_label) (find_first (is_for_permission r p) xs)
  unfolding Request.generate_set_access_request
  label_at-generate xs = rw label_at-add_all (ground (arith, lookup-nil {V = RefPermissions} r))
