-- ===== src/Helper/Owner.antt =====
-- Owners and finalizers (controllers/helper/helper.go), over a resource of any kind.
pub mod Delete
use edp_gerrit_operator.Base.{String, Bool, true, false, Option, none, some, List, [], ◌∷◌, ◌++◌}
use edp_gerrit_operator.Base.{◌==◌, not, string_eq, if◌then◌else◌}
use edp_gerrit_operator.Errors.{new}
use edp_gerrit_operator.Api.{Gerrit, Object, ObjectMeta, OwnerReference}
use edp_gerrit_operator.World.{Env, Call}
use edp_gerrit_operator.Exec.{
  M, ◌>>=◌, ◌>>◌, pure, raise, crash, call, wrapping, this, assign, skip,
}
use edp_gerrit_operator.Service.Connect.{get_rest_client}
use edp_gerrit_operator.Helper.Client.{update_instance}

-- `gerritApi.GroupVersion.String()`
abbrev pub group_version : String
group_version = "v2.edp.epam.com/v1"

-- The reference that `SetOwnerReference` makes.
unfoldable pub owner_reference : Gerrit → OwnerReference
owner_reference g = record {
  api_version = group_version;
  kind = "Gerrit";
  name = g.meta.name;
  uid = g.meta.uid;
  block_owner_deletion = true;
  controller = true;
}

unfoldable pub get_gerrit_owner : List OwnerReference → Option OwnerReference
get_gerrit_owner [] = none
get_gerrit_owner (el ∷ references) =
    if el.kind == "Gerrit" then some el else get_gerrit_owner references

unfoldable pub contains_string : List String → String → Bool
contains_string [] s = false
contains_string (item ∷ slice) s = if item == s then true else contains_string slice s

unfoldable pub remove_string : List String → String → List String
remove_string [] s = []
remove_string (item ∷ slice) s =
    let rest = remove_string slice s in if item == s then rest else item ∷ rest

module _ {Spec Status : Type 0} where
  -- The references that were there are replaced.
  unfoldable pub set_owner_reference : Gerrit → Object Spec Status → Object Spec Status
  unfolding owner_reference
  set_owner_reference g o = record o {
    meta = record o.meta { owner_references = owner_reference g ∷ [] };
  }

  abbrev pub is_instance_owner_set : Object Spec Status → Bool
  is_instance_owner_set o = elim o.meta.owner_references [ [] ↦ false | _ ∷ _ ↦ true ]

  unfoldable pub set_finalizers : List String → Object Spec Status → Object Spec Status
  set_finalizers fs o = record o { meta = record o.meta { finalizers = fs } }

  module _ (env : Env (Object Spec Status)) where
    unfoldable pub find_cr_owner_name : String → Option String
    find_cr_owner_name owner_name =
        if owner_name == "" then none else some (env.to_lower owner_name)

    unfoldable pub first_gerrit : List Gerrit → M (Object Spec Status) Gerrit
    first_gerrit [] = raise (new "no root gerrits found")
    first_gerrit (g ∷ _) = pure g

    unfoldable pub get_gerrit_instance : Option String → String → M (Object Spec Status) Gerrit
    get_gerrit_instance none namespace = do
      items ←
          wrapping "unable to list gerrits" []
            (call (Call.list_gerrits namespace) (λ t. env.list_gerrits t namespace))
      first_gerrit items
    get_gerrit_instance (some name) namespace =
        wrapping "unable to get gerrit instance" []
          (call (Call.get_gerrit namespace name) (λ t. env.get_gerrit t namespace name))

    unfoldable pub owner_of : String → Option OwnerReference → M (Object Spec Status) Gerrit
    owner_of namespace none =
        raise (new "gerrit replication config cr does not have gerrit cr owner references")
    owner_of namespace (some ref) =
        wrapping "unable to get gerrit owner" []
          (call (Call.get_gerrit namespace ref.name) (λ t. env.get_gerrit t namespace ref.name))

    unfoldable pub get_instance_owner : M (Object Spec Status) Gerrit
    get_instance_owner = do
      o ← this
      owner_of o.meta.namespace (get_gerrit_owner o.meta.owner_references)

    -- The first block of `GetGerritClient`, which the group and the replication controllers repeat:
    -- a resource with no owner gets one.
    unfoldable pub ensure_owner : String → String → String → M (Object Spec Status) (Unit {0})
    ensure_owner owner_name failure update_failure = do
      o ← this
      if is_instance_owner_set o then skip else do
        g ←
            wrapping failure []
              (get_gerrit_instance (find_cr_owner_name owner_name) o.meta.namespace)
        assign (set_owner_reference g o)
        wrapping update_failure [] (update_instance env)

    unfoldable pub get_gerrit_client : String → M (Object Spec Status) (Unit {0})
    get_gerrit_client owner_name = do
      ensure_owner owner_name "unable to get gerrit instance" "unable to update instance owner refs"
      g ← wrapping "unable to get instance owner" [] get_instance_owner
      wrapping "unable to get rest client" [] (get_rest_client env g)

    -- The first branch of `TryToDelete`.
    unfoldable pub keep_alive : String → Object Spec Status → M (Object Spec Status) (Unit {0})
    keep_alive finalizer_name o =
        if contains_string o.meta.finalizers finalizer_name then skip else do
          assign (set_finalizers (o.meta.finalizers ++ finalizer_name ∷ []) o)
          wrapping "unable to update instance finalizer" [] (update_instance env)

    -- `delete_func` may change the resource behind the pointer, so it is read again.
    unfoldable pub let_go :
        String → M (Object Spec Status) (Unit {0}) → M (Object Spec Status) (Unit {0})
    let_go finalizer_name delete_func = do
      wrapping "unable to perform delete function" [] delete_func
      o ← this
      assign (set_finalizers (remove_string o.meta.finalizers finalizer_name) o)
      wrapping "unable to remove finalizer from instance" [] (update_instance env)

    unfoldable pub try_to_delete :
        String → M (Object Spec Status) (Unit {0}) → M (Object Spec Status) (Unit {0})
    unfolding ◌>>=◌ keep_alive let_go
    try_to_delete finalizer_name delete_func = do
      o ← this
      if not o.meta.deleted then keep_alive finalizer_name o else let_go finalizer_name delete_func
