-- ===== src/Api.antt =====
-- The API: its store, the gRPC server that agents connect to, and the HTTP routes.
pub mod Store
pub mod Server
pub mod Connect
pub mod Main
pub mod Routes
pub mod Mux
