-- ===== src/Metadata.antt =====
-- The metadata state machine of the controllers: src/internal/metadata.
pub mod Model
pub mod Auth
pub mod Assignment
pub mod Store
