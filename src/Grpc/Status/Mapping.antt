-- ===== src/Grpc/Status/Mapping.antt =====
-- toGRPCError of internal/grpcapi/user_service.go beside HandleError of internal/response/error.go.
use go_identity_service.Base.{
  ℕ, ◌==◌, ◌≡◌, ◌≢◌, inl, inr, Bool-cases, ==_iff, Option, none, some, arith,
}
use go_identity_service.Apperror.{Error, PublicError, as_public, as_validation}
use go_identity_service.Http.Response.{handle_error, send_public, send_error}
use go_identity_service.Grpc.Status.{
  Code, invalid_argument, unauthenticated, permission_denied, not_found, already_exists, internal,
  to_grpc_error, public_code, of_public,
}

-- Which gRPC code stands for which HTTP status.
pub data Corresponds : ℕ → Code → Type 0 where
  bad_request : Corresponds 400 invalid_argument
  unauthorized : Corresponds 401 unauthenticated
  forbidden : Corresponds 403 permission_denied
  not_there : Corresponds 404 not_found
  conflict : Corresponds 409 already_exists
  other :
      {status : ℕ}
      → status ≢ 400
      → status ≢ 401
      → status ≢ 403
      → status ≢ 404
      → status ≢ 409
      → Corresponds status internal

public_code-Corresponds : (s : ℕ) → Corresponds s (public_code s)
public_code-Corresponds s = elim (Bool-cases (s == 400)) [
  | inl p ↦ rw ((==_iff s 400).0 p) bad_request
  | inr n400 ↦ elim (Bool-cases (s == 401)) [
    | inl p ↦ rw ((==_iff s 401).0 p) unauthorized
    | inr n401 ↦ elim (Bool-cases (s == 403)) [
      | inl p ↦ rw ((==_iff s 403).0 p) forbidden
      | inr n403 ↦ elim (Bool-cases (s == 404)) [
        | inl p ↦ rw ((==_iff s 404).0 p) not_there
        | inr n404 ↦ elim (Bool-cases (s == 409)) [
          | inl p ↦ rw ((==_iff s 409).0 p) conflict
          | inr n409 ↦
              rw (n400, n401, n403, n404, n409)
                (other (ground arith) (ground arith) (ground arith) (ground arith) (ground arith))
        ]
      ]
    ]
  ]
]

sent-Corresponds : (o : Option PublicError) → Corresponds (send_public o).status (of_public o).code
unfolding send_error
sent-Corresponds (some p) = public_code-Corresponds p.status
sent-Corresponds none =
    other (ground arith) (ground arith) (ground arith) (ground arith) (ground arith)

-- An error that is not about the fields of the input gets, over gRPC, the code that stands for the
-- status that it gets over HTTP.
pub to_grpc_error-handle_error :
    (e : Error)
    → as_validation e ≡ none
    → Corresponds (handle_error e).status (to_grpc_error e).code
unfolding to_grpc_error handle_error
to_grpc_error-handle_error e p = rw p (sent-Corresponds (as_public e))
