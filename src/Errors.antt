-- ===== src/Errors.antt =====
-- Go errors as values (pkg/client/gerrit/group.go, pkg/service/gerrit/gerrit.go) and the result of a
-- call. A message is kept as its format and its arguments; how it is printed is a parameter. Where a
-- message quotes the body of a response that does not decode, the body is left out.
use edp_gerrit_operator.Base.{ℕ, String, Bool, true, false, List, [], ◌∷◌}

-- What a REST request returned: the status code and the bytes of the body.
pub record Response : Type 0 where
  pub status : ℕ
  pub body : List ℕ

pub data Error : Type 0 where
  -- `errors.New`, `errors.Errorf`, `fmt.Errorf` without `%w`
  message : String → List String → Error
  -- `errors.Wrap`, `errors.Wrapf`, `fmt.Errorf` with `%w`
  wrapped : String → List String → Error → Error
  -- `errors.Errorf` over the code and the body of a response
  bad_response : String → Response → Error
  -- the string types of the operator that implement `error`
  already_exists does_not_exist user_not_found : String → Error
  -- an error that a library made
  external : String → Error

abbrev pub new : String → Error
new text = message text []

abbrev pub wrap : String → Error → Error
wrap text e = wrapped text [] e

abbrev pub wrapf : String → String → Error → Error
wrapf text arg e = wrapped text (arg ∷ []) e

-- `errors.As` follows the chain of wrapped errors.
unfoldable pub is_err_already_exists : Error → Bool
is_err_already_exists (already_exists _) = true
is_err_already_exists (wrapped _ _ e) = is_err_already_exists e
is_err_already_exists _ = false

unfoldable pub is_err_does_not_exist : Error → Bool
is_err_does_not_exist (does_not_exist _) = true
is_err_does_not_exist (wrapped _ _ e) = is_err_does_not_exist e
is_err_does_not_exist _ = false

unfoldable pub is_err_user_not_found : Error → Bool
is_err_user_not_found (user_not_found _) = true
is_err_user_not_found (wrapped _ _ e) = is_err_user_not_found e
is_err_user_not_found _ = false

-- A call returns a value, returns an error or panics.
pub data Outcome {ℓ} (A : Type ℓ) : Type ℓ where
  ok : A → Outcome A
  err : Error → Outcome A
  panic : Outcome A
