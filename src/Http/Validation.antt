-- ===== src/Http/Validation.antt =====
-- internal/validation/validator.go. The validator of the tags is a third party: a `Check` is what it
-- reports of a value, field by field, none for a valid one.
use go_identity_service.Base.{
  String, str_eq, str_append, Option, none, some, List, [], ◌∷◌, map, if◌then◌else◌,
}
use go_identity_service.Apperror.{Error, field_validation}
use go_identity_service.World.{M}
use go_identity_service.Http.Response.{Response, handle_error}
use go_identity_service.World.{pure}

pub record FieldError : Type 0 where
  pub field : String
  pub tag : String
  pub param : String

abbrev pub Check : Type 0 → Type 0
Check A = A → List FieldError

-- messageForTag
unfoldable pub message_for_tag : FieldError → String
message_for_tag e =
    if str_eq e.tag "required"
    then "is required"
    else if str_eq e.tag "min"
    then str_append "must be at least " (str_append e.param " characters")
    else if str_eq e.tag "max"
    then str_append "must be at most " (str_append e.param " characters")
    else if str_eq e.tag "email"
    then "must be a valid email"
    else if str_eq e.tag "gte"
    then str_append "must be greater than or equal to " e.param
    else if str_eq e.tag "lte"
    then str_append "must be less than or equal to " e.param
    else if str_eq e.tag "oneof"
    then str_append "must be one of: " e.param
    else "is invalid"

-- toFieldValidationError: the validator reports a field once.
unfoldable pub to_field_validation_error : List FieldError → Error
unfolding message_for_tag
to_field_validation_error errors = field_validation (map (λ e. (e.field, message_for_tag e)) errors)

abbrev pub error_of : List FieldError → Option Error
error_of [] = none
error_of (e ∷ es) = some (to_field_validation_error (e ∷ es))

-- Validator.Struct
unfoldable pub struct : {A : Type 0} → Check A → A → Option Error
unfolding to_field_validation_error
struct check value = error_of (check value)

-- `if err := ...; err != nil { response.HandleError(w, h.logger, err); return }`
abbrev pub unless_error : Option Error → M Response → M Response
unless_error none next = next
unless_error (some e) next = pure (handle_error e)
