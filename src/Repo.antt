-- ===== src/Repo.antt =====
-- internal/repo: the repositories, which turn rows into domain values and errors of gorm into
-- errors of the domain.
pub mod Convert
pub mod Repos
