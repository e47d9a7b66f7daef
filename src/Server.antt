-- ===== src/Server.antt =====
-- cmd/sentrygate/handler.go: the HTTP handlers. The JSON decoder, the decision store and Temporal's
-- client are parameters; a response is its status code with its body. Logging and tracing are left
-- out.
pub mod Request
pub mod Intercept
pub mod Queries
pub mod Routes
pub mod Contract
pub mod Backed
pub mod Stores
pub mod Accepts
pub mod Started
