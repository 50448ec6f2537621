-- ===== src/Http/Users.antt =====
-- internal/user/handler.go.
use go_identity_service.Base.{
  ℤ, pos, Text, codes, is_empty, trim_space, parse_int64, String, Option, none, some, [], ◌∷◌, ◌++◌,
  if◌then◌else◌,
}
use go_identity_service.Apperror.{Error, Fields, field_validation}
use go_identity_service.External.{External}
use go_identity_service.World.{M, ◌>>=◌, pure, attempt}
use go_identity_service.User.Model.{to_response, to_response_list, profile_to_response}
use go_identity_service.User.Service.{
  Service, CreateUserInput, UpdateUserInput, CreateUserWithProfileInput, create_user, get_user,
  update_user, delete_user, get_user_by_email, create_user_with_profile,
}
use go_identity_service.User.Listing.{ListUsersFilter, ListUsersResult, list_users}
use go_identity_service.Http.Response.{
  Response, Reading, json, no_body, user_body, page_body, user_with_profile_body, respond,
  send_validation_error, decode_json,
}
use go_identity_service.Http.Validation.{Check, struct, unless_error}

-- The service, and the validator on the request types, whose fields are those of the service's inputs.
pub record Handler : Type 0 where
  pub service : Service
  pub check_create : Check CreateUserInput
  pub check_update : Check UpdateUserInput
  pub check_with_profile : Check CreateUserWithProfileInput
  pub check_list : Check ListUsersFilter

-- r.URL.Query(), where a missing key is an empty text.
pub record ListQuery : Type 0 where
  pub limit : Text
  pub offset : Text
  pub email : Text
  pub sort : Text

-- The value, and the field's entry in `fields` when it is no number.
abbrev number_or : String → ℤ → Option ℤ → ℤ × Fields
number_or field_name default_value (some value) = (value, [])
number_or field_name default_value none = (default_value, (field_name, "must be a number") ∷ [])

-- parseIntQuery
unfoldable pub parse_int_query : Text → String → ℤ → ℤ × Fields
parse_int_query raw field_name default_value =
    let value = trim_space raw in
    if is_empty value
    then (default_value, [])
    else number_or field_name default_value (parse_int64 value)

abbrev sort_or_default : Text → Text
sort_or_default sort = if is_empty sort then codes "id_asc" else sort

abbrev fields_error : Fields → Option Error → Option Error
fields_error [] otherwise = otherwise
fields_error (f ∷ fs) otherwise = some (field_validation (f ∷ fs))

-- The request that ParseListUsersRequest builds.
unfoldable pub list_request : ListQuery → ListUsersFilter
unfolding parse_int_query
list_request query = record {
  limit = (parse_int_query query.limit "limit" (pos 20)).0;
  offset = (parse_int_query query.offset "offset" (pos 0)).0;
  email = query.email;
  sort = sort_or_default (trim_space query.sort);
}

-- ParseListUsersRequest: the error, if there is one.
unfoldable pub list_request_error : Check ListUsersFilter → ListQuery → Option Error
unfolding parse_int_query list_request struct
list_request_error check query =
    fields_error
      ((parse_int_query query.limit "limit" (pos 20)).1
        ++ (parse_int_query query.offset "offset" (pos 0)).1)
      (struct check (list_request query))

abbrev pub with_id : Option ℤ → (ℤ → M Response) → M Response
with_id (some id) next = next id
with_id none next =
    pure (send_validation_error (("id", "Required in path variable or id invalid") ∷ []))

-- parseId, and what follows it
unfoldable pub parse_id : Text → (ℤ → M Response) → M Response
unfolding send_validation_error
parse_id raw next = with_id (parse_int64 raw) next

-- parseString for the path parameter "email", and what follows it
unfoldable pub parse_email : Text → (Text → M Response) → M Response
unfolding send_validation_error
parse_email raw next =
    if is_empty (trim_space raw)
    then pure (send_validation_error (("email", "Required in path variable") ∷ []))
    else next (trim_space raw)

abbrev pub page_of : ListUsersFilter → ListUsersResult → Response
page_of req result = json 200 (
    page_body (record {
      items = to_response_list result.users;
      pagination = record { limit = req.limit; offset = req.offset; total = result.total };
    }))

module _ (x : External) (h : Handler) where
  unfoldable pub handle_create_user : Reading CreateUserInput → M Response
  unfolding decode_json struct to_response
  handle_create_user body = decode_json x body (λ req. unless_error (struct h.check_create req) (do
    created ← attempt (create_user x h.service req)
    respond (λ u. json 201 (user_body (to_response u))) created))

  unfoldable pub handle_get_user_by_id : Text → M Response
  unfolding parse_id to_response
  handle_get_user_by_id raw = parse_id raw (λ id. do
    found ← attempt (get_user x h.service id)
    respond (λ u. json 200 (user_body (to_response u))) found)

  unfoldable pub handle_list_users : ListQuery → M Response
  unfolding list_request list_request_error
  handle_list_users query = unless_error (list_request_error h.check_list query) (do
    let req = list_request query
    result ← attempt (list_users x req)
    respond (page_of req) result)

  unfoldable pub handle_update_user : Text → Reading UpdateUserInput → M Response
  unfolding parse_id decode_json struct to_response
  handle_update_user raw body = parse_id raw (λ id. decode_json x body (λ req.
      unless_error (struct h.check_update req) (do
        updated ← attempt (update_user x h.service id req)
        respond (λ u. json 200 (user_body (to_response u))) updated)))

  unfoldable pub handle_delete_user : Text → M Response
  unfolding parse_id
  handle_delete_user raw = parse_id raw (λ id. do
    deleted ← attempt (delete_user x h.service id)
    respond (λ _. json 204 no_body) deleted)

  unfoldable pub handle_get_users_by_email : Text → M Response
  unfolding parse_email to_response
  handle_get_users_by_email raw = parse_email raw (λ email. do
    user ← attempt (get_user_by_email x email)
    respond (λ u. json 200 (user_body (to_response u))) user)

  unfoldable pub handle_create_user_with_profile : Reading CreateUserWithProfileInput → M Response
  unfolding decode_json struct to_response profile_to_response
  handle_create_user_with_profile body = decode_json x body (λ req.
      unless_error (struct h.check_with_profile req) (do
        created ← attempt (create_user_with_profile x h.service req)
        respond
            (λ c. json 201 (
              user_with_profile_body
                (record { user = to_response c.user; profile = profile_to_response c.profile })))
            created))
