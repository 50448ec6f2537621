-- ===== src/Grpc.antt =====
-- internal/grpcapi: the gRPC server for users.
pub mod Status
pub mod Authz
pub mod Interceptor
pub mod Users
