-- ===== src/Controllers/Common/Updates.antt =====
-- Which updates of a resource a controller looks at (`isSpecUpdated` of the controllers).
use edp_gerrit_operator.Base.{not, ◌||◌, true, false, ◌≡◌, ◌↔◌, arith, Eq}
use edp_gerrit_operator.Api.{Object}
use edp_gerrit_operator.Controllers.Common

-- An update is passed over exactly where the spec is the same and the resource has not just come to be
-- deleted.
pub is_spec_updated_passes :
    {Spec Status : Type 0} ⦃e : Eq Spec⦄ (old new : Object Spec Status)
    → (Common.is_spec_updated old new ≡ false)
      ↔ ((old.spec ≡ new.spec) × ((not new.meta.deleted || old.meta.deleted) ≡ true))
unfolding Common.is_spec_updated
is_spec_updated_passes old new = ground arith
