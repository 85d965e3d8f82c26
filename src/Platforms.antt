-- ===== src/Platforms.antt =====
-- Platforms: apps/api/app/services/platform_service.py.
pub mod Rows
pub mod Selection
pub mod Slugs
pub mod Create
pub mod Manage
pub mod Prune
pub mod Examples
