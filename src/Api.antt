-- ===== src/Api.antt =====
-- internal/api: the HTTP handlers.
pub mod Auth
pub mod Contact
pub mod Admin
pub mod Routes
