-- ===== src/Tests.antt =====
-- Runs of the model on a small installation: one user, one refresh token, one published event.
mod Sample
mod Accounts
mod Caching
mod Sessions
mod Messages
mod Delivery
mod Limits
mod Logins
mod Access
mod Listing
mod Http
mod Grpc
mod Consistency
mod Envelope
mod HttpLogin
