-- ===== src/Transport/Http.antt =====
-- transport/http: the writer that counts, the server and the client.
pub mod InterceptingWriter
pub mod Server
pub mod Client
