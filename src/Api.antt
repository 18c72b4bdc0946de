-- ===== src/Api.antt =====
-- The HTTP interface of a controller: src/internal/api/metadata/http.
pub mod Admin
pub mod Answers
