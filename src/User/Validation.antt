-- ===== src/User/Validation.antt =====
-- validateUserInput of internal/user/service.go, and the normal form of a name and of an address.
pub mod Bounds
use go_identity_service.Base.{
  ℕ, ℤ, pos, int_ltb, Text, len, is_empty, trim_space, to_lower, String, Bool, true, false, not,
  ◌||◌, ltb, Option, none, some, List, [], ◌∷◌, ◌++◌, if◌then◌else◌,
}
use go_identity_service.Apperror.{Error, field_validation, Fields}
use go_identity_service.External.{External}

unfoldable pub name_fields : Text → Fields
name_fields name =
    if is_empty (trim_space name)
    then ("name", "is required") ∷ []
    else if ltb (len name) 2 || ltb 100 (len name)
    then ("name", "min len 2 and max len 100") ∷ []
    else []

unfoldable pub age_fields : ℤ → Fields
age_fields age =
    if int_ltb age (pos 0) || int_ltb (pos 150) age
    then ("age", "must be greater than or equal to 0 and lower than 150") ∷ []
    else []

-- The error, or `none` for nil.
abbrev error_of_fields : Fields → Option Error
error_of_fields [] = none
error_of_fields (f ∷ fs) = some (field_validation (f ∷ fs))

module _ (x : External) where
  unfoldable pub email_fields : Text → Fields
  email_fields email =
      if is_empty (trim_space email)
      then ("email", "is required") ∷ []
      else if ltb 255 (len email)
      then ("email", "max email len is 255") ∷ []
      else if not (x.parse_address email)
      then ("email", "not valid email") ∷ []
      else []

  unfoldable pub validate_user_input : Text → Text → ℤ → Option Error
  unfolding name_fields email_fields age_fields
  validate_user_input name email age =
      error_of_fields (name_fields name ++ email_fields email ++ age_fields age)

  -- strings.TrimSpace(strings.ToLower(email))
  unfoldable pub normal_email : Text → Text
  normal_email email = trim_space (to_lower x.unicode_lower email)
