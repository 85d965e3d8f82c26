-- ===== src/Official.antt =====
-- Official layers: apps/api/app/services/official_data_service.py. The connectors and who serves which
-- layer (`Sources`), the gathering of a layer (`Fetching`), the cache in front of it (`Cached`), and the
-- status of each layer (`Statuses`).
pub mod Sources
pub mod Fetching
pub mod Cached
pub mod Statuses
pub mod Gathering
pub mod Spacing
pub mod Examples
