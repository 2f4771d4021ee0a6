-- ===== src/Api.antt =====
-- The HTTP server, internal/api: its types, what a handler writes, the handlers, the middleware and
-- the routes.
pub mod Types
pub mod Response
pub mod Handlers
pub mod Middleware
pub mod Routes
pub mod Guards
pub mod Answers
