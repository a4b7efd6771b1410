-- ===== src/Transport.antt =====
-- transport: servers and clients over HTTP and gRPC, a fasthttp server, and JSON-RPC.
pub mod Options
pub mod Http
pub mod Grpc
pub mod Fasthttp
pub mod Jsonrpc
mod Tests
