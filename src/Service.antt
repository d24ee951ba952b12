-- ===== src/Service.antt =====
-- internal/service: the services, over the repositories and the libraries for passwords, tokens and
-- session ids.
pub mod User
pub mod Auth
pub mod Application
pub mod Channel
