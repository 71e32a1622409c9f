-- ===== src/GrpcServer.antt =====
-- internal/grpcserver/server.go: the calls that the Python worker makes back into the hub.
pub mod Nl2sql
pub mod Tasks
