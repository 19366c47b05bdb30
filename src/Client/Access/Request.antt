-- ===== src/Client/Access/Request.antt =====
-- The body of an access request (`generateSetAccessRequest` of pkg/client/gerrit/project_access.go):
-- a map of maps of maps, filled from a list in which the first entry of a place wins.
use edp_gerrit_operator.Base.{String, Bool, List, [], ◌∷◌, Option, none, some, Dict, lookup, insert}
use edp_gerrit_operator.World.Requests.{AccessInfo, GroupPermissions, Permission, RefPermissions}

abbrev pub empty_ref : RefPermissions
empty_ref = record { permissions = [] }

abbrev pub empty_permission : String → Permission
empty_permission label = record { label = label; rules = [] }

-- `m[k]` where the key was set by the code before if it was missing.
abbrev pub get_or {ℓ} : {V : Type ℓ} → V → Option V → V
get_or v none = v
get_or v (some w) = w

abbrev pub group_permissions : AccessInfo → Bool → Bool → GroupPermissions
group_permissions p added modified = record {
  min = p.min;
  max = p.max;
  force = p.force;
  action = p.action;
  modified = modified;
  added = added;
}

-- `if !ok { m[k] = v }`
unfoldable pub insert_new {ℓ} : {V : Type ℓ} → String → V → Dict V → Dict V
insert_new k v m = insert k (get_or v (lookup k m)) m

module _ (added modified : Bool) where
  -- One round of the loop.
  unfoldable pub add_permission : AccessInfo → Dict RefPermissions → Dict RefPermissions
  unfolding insert_new
  add_permission p refs =
      let ref = get_or empty_ref (lookup p.ref_pattern refs) in
      let permission =
        get_or (empty_permission p.permission_label) (lookup p.permission_name ref.permissions) in
      let rules = insert_new p.group_name (group_permissions p added modified) permission.rules in
      insert p.ref_pattern
        (record {
          permissions =
              insert p.permission_name (record permission { rules = rules }) ref.permissions;
        })
        refs

  unfoldable pub add_permissions : List AccessInfo → Dict RefPermissions → Dict RefPermissions
  unfolding add_permission
  add_permissions [] refs = refs
  add_permissions (p ∷ ps) refs = add_permissions ps (add_permission p refs)

unfoldable pub generate_set_access_request : List AccessInfo → Bool → Bool → Dict RefPermissions
unfolding add_permissions
generate_set_access_request permissions added modified =
    add_permissions added modified permissions []
