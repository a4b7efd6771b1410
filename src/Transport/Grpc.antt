-- ===== src/Transport/Grpc.antt =====
-- transport/grpc: the server and the client, and a client that calls a server.
pub mod Server
pub mod Client
pub mod Through
mod Tests
