-- ===== src/Domain.antt =====
-- internal/domain: references, specifications, and the resolution of a pipe path.
pub mod Ref
pub mod Model
pub mod Graph
