-- ===== src/Http.antt =====
-- The HTTP side of cmd/server/main.go and internal/api/middleware: the routes, and what is measured
-- of each request.
mod Requests
mod Middleware
mod Routes
pub mod Unserved
pub mod Counted
pub use Requests.*
unfoldable pub use Middleware.*
unfoldable pub use Routes.*
