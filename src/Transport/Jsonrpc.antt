-- ===== src/Transport/Jsonrpc.antt =====
-- transport/http/jsonrpc: the server and the client, and a client that calls a server.
pub mod Error
pub mod Server
pub mod Client
pub mod Through
mod Tests
