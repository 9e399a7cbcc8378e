-- ===== src/Core.antt =====
-- What the other parts share: app/core.
pub mod Pagination
